-- ===== src/Mysql.antt =====
-- internal/analysis/switcher/mysql.go, with Response of switcher.go: how the MySQL switcher takes a
-- request apart and collects the instances that failed. Whether an instance can be made switchable,
-- and what the switch of one answers, are arguments. Entries of a request are not nil. The
-- goroutines run in the order of the request, and add to the response under its mutex.
pub mod Groups
pub mod Failures
mod Tests
use dbha.Prelude.{
  ℕ, List, [], ◌∷◌, Option, none, some, Bool, true, false, not, ◌&&◌, Text, ◌==◌, text_eq, nat_eq,
  pair_eq, if◌then◌else◌, is_empty, elem, all, map, Map, lookup, insert, has,
}
use dbha.Failure.{generate_metadata_key, generate_cluster_key}
use dbha.Flow.{DbInstMetadata, Request}

abbrev pub InstMetadataMap : Type 0
InstMetadataMap = Map Text DbInstMetadata

abbrev pub metadata_key_of : DbInstMetadata → Text
metadata_key_of inst = generate_metadata_key inst.bk_cloud_id inst.ip inst.port

-- `Response`; `partial` stands for the error ErrSwitchPartialSuccess.
pub record Response : Type 0 where
  pub mysql_failure_insts : InstMetadataMap
  pub partial : Bool

-- `Response.AddFailureInst`
unfoldable pub add_failure_inst : Response → Text → DbInstMetadata → Response
add_failure_inst rsp key inst = record rsp {
  mysql_failure_insts = insert key inst rsp.mysql_failure_insts;
}

-- The loop of `InstanceLevelSwitch`; `switch` says whether the creation and the switch succeed.
unfoldable pub instance_loop :
    (DbInstMetadata → Bool) → List Text → Response → List DbInstMetadata → Response
instance_loop switch seen rsp [] = rsp
instance_loop switch seen rsp (inst ∷ rest) =
    let key = metadata_key_of inst in
    let next = if switch inst then rsp else add_failure_inst rsp key inst in
    instance_loop switch (if elem key seen then seen else key ∷ seen)
      (if elem key seen then rsp else next) rest

-- `InstanceLevelSwitch`
unfoldable pub instance_level_switch : (DbInstMetadata → Bool) → Request → Response
instance_level_switch switch req =
    let rsp =
      instance_loop switch [] (record { mysql_failure_insts = []; partial = false })
        req.mysql_inst_data in
    if is_empty rsp.mysql_failure_insts then rsp else record rsp { partial = true }

-- An instance joins the map of its group, which is made if it is missing; a key that is there stays.
unfoldable pub add_to_group :
    {K : Type 0} ⦃e : dbha.Prelude.Equality K⦄
    → K
    → DbInstMetadata
    → Map K InstMetadataMap
    → Map K InstMetadataMap
add_to_group group inst groups =
    let key = metadata_key_of inst in
    let insts : InstMetadataMap = elim (lookup group groups) [ none ↦ [] | some m ↦ m ] in
    insert group (if has key insts then insts else insert key inst insts) groups

-- The loop of `buildIpGroup`, by cloud and address.
unfoldable pub ip_group_loop :
    Map (ℕ × Text) InstMetadataMap → List DbInstMetadata → Map (ℕ × Text) InstMetadataMap
ip_group_loop groups [] = groups
ip_group_loop groups (inst ∷ rest) =
    ip_group_loop (add_to_group (inst.bk_cloud_id, inst.ip) inst groups) rest

-- `buildIpGroup`
unfoldable pub build_ip_group : Request → Map (ℕ × Text) InstMetadataMap
build_ip_group req = ip_group_loop [] req.mysql_inst_data

-- The loop of `buildClusterGroup`, by the cluster's key.
unfoldable pub cluster_group_loop :
    Map Text InstMetadataMap → List DbInstMetadata → Map Text InstMetadataMap
cluster_group_loop groups [] = groups
cluster_group_loop groups (inst ∷ rest) =
    cluster_group_loop
      (add_to_group (generate_cluster_key inst.bk_cloud_id inst.cluster_id) inst groups) rest

-- `buildClusterGroup`
unfoldable pub build_cluster_group : Request → Map Text InstMetadataMap
build_cluster_group req = cluster_group_loop [] req.mysql_inst_data

-- `checkHostInstanceCompleteness`: whether it returns no error; `query` asks DBM for the host.
unfoldable pub check_host_instance_completeness :
    (ℕ → Text → Option (List DbInstMetadata)) → ℕ × Text → InstMetadataMap → Bool
check_host_instance_completeness query (cloud, ip) insts = elim (query cloud ip) [
  | none ↦ false
  | some metas ↦
      let expected = map metadata_key_of metas in
      let actual = map (λ kv. kv.0) insts in
      all (λ k. elem k expected) actual && all (λ k. elem k actual) expected
]
