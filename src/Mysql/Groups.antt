-- ===== src/Mysql/Groups.antt =====
-- `buildIpGroup` and `buildClusterGroup` lose no instance and keep the first of those with one key.
use dbha.Prelude.{
  ℕ, List, [], ◌∷◌, Option, none, some, Bool, ◌&&◌, Text, ◌≡◌, ◌∙◌, arith, ◌==◌, text_eq, nat_eq,
  pair_eq, if◌then◌else◌, Map, lookup, insert, has, lookup-insert, lookup_nil, Equality,
  text_beq_iff,
}
use dbha.Failure.{generate_cluster_key}
use dbha.Flow.{DbInstMetadata, Request}
use dbha.Mysql.{
  InstMetadataMap, metadata_key_of, add_to_group, ip_group_loop, build_ip_group, cluster_group_loop,
  build_cluster_group,
}

-- The first element that passes a test.
abbrev pub first_by : (DbInstMetadata → Bool) → List DbInstMetadata → Option DbInstMetadata
first_by p [] = none
first_by p (x ∷ xs) = if p x then some x else first_by p xs

abbrev pub or_else : Option DbInstMetadata → Option DbInstMetadata → Option DbInstMetadata
or_else (some a) other = some a
or_else none other = other

abbrev added : InstMetadataMap → DbInstMetadata → InstMetadataMap
added insts inst =
    if has (metadata_key_of inst) insts then insts else insert (metadata_key_of inst) inst insts

lookup-added :
    (insts : InstMetadataMap) (inst : DbInstMetadata) (k : Text)
    → lookup k (added insts inst)
      ≡ or_else (lookup k insts) (if metadata_key_of inst == k then some inst else none)
lookup-added insts inst k = ground (
  arith,
  lookup-insert (metadata_key_of inst) k inst insts,
  text_beq_iff (metadata_key_of inst) k,
)

module _ {K : Type 0} ⦃e : Equality K⦄ where
  -- The instance of a key in a group.
  abbrev pub inst_at : Map K InstMetadataMap → K → Text → Option DbInstMetadata
  inst_at groups group key = elim (lookup group groups) [ none ↦ none | some m ↦ lookup key m ]

  inst_at-add_to_group :
      (group : K) (inst : DbInstMetadata) (groups : Map K InstMetadataMap) (g : K) (k : Text)
      → inst_at (add_to_group group inst groups) g k
        ≡ or_else
            (inst_at groups g k)
            (if group == g && (metadata_key_of inst == k) then some inst else none)
  unfolding add_to_group
  inst_at-add_to_group group inst groups g k =
      let held : InstMetadataMap = elim (lookup group groups) [ none ↦ [] | some m ↦ m ] in
      ground (
        arith,
        lookup-insert group g (added held inst) groups,
        lookup-added held inst k,
        e.same_iff group g,
        lookup_nil {K = Text} {V = DbInstMetadata} k,
      )

or_else_step :
    (new old : Option DbInstMetadata) (b : Bool) (i : DbInstMetadata)
    (later : Option DbInstMetadata)
    → new ≡ or_else old (if b then some i else none)
    → or_else new later ≡ or_else old (if b then some i else later)
or_else_step new old b i later h = ground (arith, h)

ip_group_loop_lem :
    (groups : Map (ℕ × Text) InstMetadataMap) (insts : List DbInstMetadata) (g : ℕ × Text)
    (k : Text)
    → inst_at (ip_group_loop groups insts) g k
      ≡ or_else
          (inst_at groups g k)
          (first_by (λ inst. (inst.bk_cloud_id, inst.ip) == g && (metadata_key_of inst == k)) insts)
unfolding ip_group_loop
ip_group_loop_lem groups [] g k = ground arith
ip_group_loop_lem groups (inst ∷ rest) g k =
    let host : ℕ × Text = (inst.bk_cloud_id, inst.ip) in
    ip_group_loop_lem (add_to_group host inst groups) rest g k
    ∙ or_else_step (inst_at (add_to_group host inst groups) g k) (inst_at groups g k)
        (host == g && (metadata_key_of inst == k)) inst _
        (inst_at-add_to_group host inst groups g k)

-- `buildIpGroup` puts under a host, for each key, the first instance of the request that has the key
-- and stands on the host: none is lost, and of duplicates the first is kept.
pub build_ip_group_lem :
    (req : Request) (g : ℕ × Text) (k : Text)
    → inst_at (build_ip_group req) g k
      ≡ first_by
          (λ inst. (inst.bk_cloud_id, inst.ip) == g && (metadata_key_of inst == k))
          req.mysql_inst_data
unfolding build_ip_group lookup
build_ip_group_lem req g k = ip_group_loop_lem [] req.mysql_inst_data g k

abbrev cluster_key_of : DbInstMetadata → Text
cluster_key_of inst = generate_cluster_key inst.bk_cloud_id inst.cluster_id

cluster_group_loop_lem :
    (groups : Map Text InstMetadataMap) (insts : List DbInstMetadata) (g k : Text)
    → inst_at (cluster_group_loop groups insts) g k
      ≡ or_else
          (inst_at groups g k)
          (first_by (λ inst. cluster_key_of inst == g && (metadata_key_of inst == k)) insts)
unfolding cluster_group_loop
cluster_group_loop_lem groups [] g k = ground arith
cluster_group_loop_lem groups (inst ∷ rest) g k =
    let cluster = cluster_key_of inst in
    cluster_group_loop_lem (add_to_group cluster inst groups) rest g k
    ∙ or_else_step (inst_at (add_to_group cluster inst groups) g k) (inst_at groups g k)
        (cluster == g && (metadata_key_of inst == k)) inst _
        (inst_at-add_to_group cluster inst groups g k)

-- `buildClusterGroup` puts under the key of a cluster, for each key of an instance, the first
-- instance of the request that has the key and belongs to the cluster.
pub build_cluster_group_lem :
    (req : Request) (g k : Text)
    → inst_at (build_cluster_group req) g k
      ≡ first_by
          (λ inst.
            generate_cluster_key inst.bk_cloud_id inst.cluster_id == g
            && (metadata_key_of inst == k))
          req.mysql_inst_data
unfolding build_cluster_group lookup
build_cluster_group_lem req g k = cluster_group_loop_lem [] req.mysql_inst_data g k
