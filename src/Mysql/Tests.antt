-- ===== src/Mysql/Tests.antt =====
-- A request with two instances of one host, one of them twice.
use dbha.Prelude.{
  insert, decimal, ℕ, ◌≡◌, ◌↔◌, refl, List, [], ◌∷◌, Option, none, some, Bool, true, not, ◌&&◌,
  ◌==◌, Text, codes, text_eq, nat_eq, pair_eq, if◌then◌else◌, is_empty, lookup, map, nat_beq,
}
use dbha.Failure.{generate_metadata_key, generate_cluster_key}
use dbha.Flow.{DbInstMetadata, Request}
use dbha.Mysql.{
  add_failure_inst, instance_loop, InstMetadataMap, metadata_key_of, instance_level_switch,
  build_ip_group, build_cluster_group, check_host_instance_completeness,
}
use dbha.Mysql.Groups.{first_by, inst_at, build_ip_group_lem, build_cluster_group_lem}
use dbha.Mysql.Failures.{SameKeys, instance_level_switch_lem, check_host_instance_completeness_lem}

abbrev inst_of : ℕ → DbInstMetadata
inst_of port = record {
  bk_biz_id = 7;
  bk_cloud_id = 0;
  ip = codes "10.0.0.1";
  port = port;
  cluster_id = 11;
  status = codes "running";
}

abbrev request : Request
request = record {
  switch_id = codes "v2-1";
  action_scope = codes "instance";
  db_type = codes "mysql";
  mysql_inst_data = inst_of 3306 ∷ inst_of 3307 ∷ inst_of 3306 ∷ [];
}

-- The second instance cannot be switched.
abbrev switch : DbInstMetadata → Bool
switch inst = nat_beq inst.port 3306

abbrev host : ℕ × Text
host = (0, codes "10.0.0.1")

abbrev second_key : Text
second_key = metadata_key_of (inst_of 3307)

one_fails :
    lookup second_key (instance_level_switch switch request).mysql_failure_insts
    ≡ some (inst_of 3307)
unfolding instance_level_switch lookup instance_loop generate_metadata_key decimal add_failure_inst
    insert
one_fails = refl

build_ip_group_lem_example :
    inst_at (build_ip_group request) host second_key
    ≡ first_by
        (λ inst. (inst.bk_cloud_id, inst.ip) == host && (metadata_key_of inst == second_key))
        request.mysql_inst_data
build_ip_group_lem_example = build_ip_group_lem request host second_key

build_cluster_group_lem_example :
    inst_at (build_cluster_group request) (generate_cluster_key 0 11) second_key
    ≡ first_by
        (λ inst.
          generate_cluster_key inst.bk_cloud_id inst.cluster_id == generate_cluster_key 0 11
          && (metadata_key_of inst == second_key))
        request.mysql_inst_data
build_cluster_group_lem_example =
    build_cluster_group_lem request (generate_cluster_key 0 11) second_key

instance_level_switch_lem_example :
    (lookup second_key (instance_level_switch switch request).mysql_failure_insts
      ≡ elim (first_by (λ inst. metadata_key_of inst == second_key) request.mysql_inst_data) [
        | none ↦ none
        | some inst ↦ if switch inst then none else some inst
      ])
    × ((instance_level_switch switch request).partial
        ≡ not (is_empty (instance_level_switch switch request).mysql_failure_insts))
instance_level_switch_lem_example = instance_level_switch_lem switch request second_key

abbrev query : ℕ → Text → Option (List DbInstMetadata)
query cloud ip = some (inst_of 3306 ∷ inst_of 3307 ∷ [])

abbrev one_inst : InstMetadataMap
one_inst = (second_key, inst_of 3307) ∷ []

check_host_instance_completeness_lem_example :
    (check_host_instance_completeness query host one_inst ≡ true)
    ↔ SameKeys (map (λ kv. kv.0) one_inst) (map metadata_key_of (inst_of 3306 ∷ inst_of 3307 ∷ []))
check_host_instance_completeness_lem_example =
    check_host_instance_completeness_lem query 0 (codes "10.0.0.1") one_inst
      (inst_of 3306 ∷ inst_of 3307 ∷ []) refl
