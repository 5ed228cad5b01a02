-- ===== src/Takeover/Cluster/Creation.antt =====
-- `NewMySQLSwitchCluster`: what a new cluster holds.
use dbha.Prelude.{
  List, [], ◌∷◌, Option, none, some, ◌==◌, Text, text_eq, ◌≡◌, refl, arith, if◌then◌else◌, All, Map,
  lookup, insert, has, Distinct, insert-Distinct, All-insert, text_beq_iff, Bool-cases, inl, inr,
  Result, ok, fail, subst, ap, sym, ◌∙◌, lookup-insert, lookup_nil, true, false,
}
use dbha.Failure.{generate_cluster_key}
use dbha.Takeover.{SlaveInfo}
use dbha.Takeover.Instance.{backend_master, standby_of}
use dbha.Takeover.Cluster.{
  Member, MySqlSwitchCluster, member_key, collect_members, set_standby_slave_map,
  new_mysql_switch_cluster,
}

-- An entry of the cluster, under its own key.
abbrev pub Belongs : Text → Text × Member → Type 0
Belongs cluster_key (key, m) =
    (key ≡ member_key m) × (generate_cluster_key m.bk_cloud_id m.cluster_id ≡ cluster_key)

-- The entry that an instance leaves in the collected ones: its own or an earlier one.
abbrev collected : Map Text Member → Member → Map Text Member
collected acc m = if has (member_key m) acc then acc else insert (member_key m) m acc

collected-Distinct :
    (acc : Map Text Member) (m : Member) → Distinct acc → Distinct (collected acc m)
collected-Distinct acc m d = elim (Bool-cases (has (member_key m) acc)) [
  | inl e ↦ rw e d
  | inr e ↦ rw e (insert-Distinct (member_key m) m acc d)
]

collected-Belongs :
    (cluster_key : Text) (acc : Map Text Member) (m : Member)
    → generate_cluster_key m.bk_cloud_id m.cluster_id ≡ cluster_key
    → All (Belongs cluster_key) acc
    → All (Belongs cluster_key) (collected acc m)
collected-Belongs cluster_key acc m e h = elim (Bool-cases (has (member_key m) acc)) [
  | inl q ↦ rw q h
  | inr q ↦ rw q (All-insert (Belongs cluster_key) (member_key m) m acc (refl, e) h)
]

collect_members_lem :
    (cluster_key : Text) (acc acc' : Map Text Member) (ms : List Member)
    → collect_members cluster_key acc ms ≡ ok acc'
    → Distinct acc
    → All (Belongs cluster_key) acc
    → Distinct acc' × All (Belongs cluster_key) acc'
unfolding collect_members
collect_members_lem cluster_key acc acc' [] h d b =
    let same : acc ≡ acc' = cc in subst (λ l. Distinct l × All (Belongs cluster_key) l) same (d, b)
collect_members_lem cluster_key acc acc' (m ∷ rest) h d b =
    elim (Bool-cases (generate_cluster_key m.bk_cloud_id m.cluster_id == cluster_key)) [
      | inl e ↦
          collect_members_lem cluster_key (collected acc m) acc' rest (ground arith)
            (collected-Distinct acc m d)
            (collected-Belongs cluster_key acc m ((text_beq_iff _ cluster_key).0 e) b)
      | inr e ↦ ground arith
    ]

-- The standby slave of a key, by the instances.
abbrev pub standby_at : Map Text Member → Text → Option SlaveInfo
standby_at members key = elim (lookup key members) [
  | none ↦ none
  | some m ↦ if m.instance_role == backend_master then standby_of m.receiver else none
]

lookup-set_standby_slave_map :
    (members : Map Text Member) (key : Text)
    → Distinct members
    → lookup key (set_standby_slave_map members) ≡ standby_at members key
unfolding set_standby_slave_map lookup
lookup-set_standby_slave_map [] key d = refl
lookup-set_standby_slave_map ((k, m) ∷ rest) key d =
    ground (arith, text_beq_iff k key, lookup-set_standby_slave_map rest key d.1)

-- The first of the given instances with a key.
abbrev pub first_with : Text → List Member → Option Member
first_with key [] = none
first_with key (m ∷ ms) = if member_key m == key then some m else first_with key ms

-- The member of a key: the one that is collected already, or the first of those to come.
abbrev or_first : Option Member → Text → List Member → Option Member
or_first none key ms = first_with key ms
or_first (some m) key ms = some m

or_first-collected :
    (acc : Map Text Member) (m : Member) (key : Text) (ms : List Member)
    → or_first (lookup key (collected acc m)) key ms ≡ or_first (lookup key acc) key (m ∷ ms)
or_first-collected acc m key ms = elim (Bool-cases (member_key m == key)) [
  | inl e ↦
      let same : member_key m ≡ key = (text_beq_iff (member_key m) key).0 e in
      at_key same e (lookup key acc) refl
  | inr e ↦ elim (Bool-cases (has (member_key m) acc)) [
    | inl q ↦ rw q (skip e (lookup key acc))
    | inr q ↦ rw (q, lookup-insert (member_key m) key m acc, e) (skip e (lookup key acc))
  ]
]
  where
    skip :
        (member_key m == key) ≡ false
        → (o : Option Member) → or_first o key ms ≡ or_first o key (m ∷ ms)
    skip e none = rw e refl
    skip e (some m') = refl

    at_key :
        member_key m ≡ key
        → (member_key m == key) ≡ true
        → (o : Option Member) → lookup key acc ≡ o
        → or_first (lookup key (collected acc m)) key ms ≡ or_first o key (m ∷ ms)
    at_key same e none absent =
        let q : has (member_key m) acc ≡ false = ground arith in
        rw (q, lookup-insert (member_key m) key m acc, e) refl
    at_key same e (some m') present =
        let q : has (member_key m) acc ≡ true = ground arith in rw (q, present) refl

lookup-collect_members :
    (cluster_key : Text) (acc acc' : Map Text Member) (ms : List Member) (key : Text)
    → collect_members cluster_key acc ms ≡ ok acc'
    → lookup key acc' ≡ or_first (lookup key acc) key ms
unfolding collect_members
lookup-collect_members cluster_key acc acc' [] key h =
    let same : acc ≡ acc' = cc in ap (lookup key) (sym same) ∙ sym (or_none (lookup key acc))
  where
    or_none : (o : Option Member) → or_first o key [] ≡ o
    or_none none = refl
    or_none (some m) = refl
lookup-collect_members cluster_key acc acc' (m ∷ rest) key h =
    elim (Bool-cases (generate_cluster_key m.bk_cloud_id m.cluster_id == cluster_key)) [
      | inl e ↦
          lookup-collect_members cluster_key (collected acc m) acc' rest key (ground arith)
          ∙ or_first-collected acc m key rest
      | inr e ↦ ground arith
    ]

-- What a new cluster holds.
pub record IsMade (cluster_key : Text) (ms : List Member) (c : MySqlSwitchCluster) : Type 0 where
  pub once : Distinct c.switch_instances
  pub belong : All (Belongs cluster_key) c.switch_instances
  pub first : (key : Text) → lookup key c.switch_instances ≡ first_with key ms
  pub standby : (key : Text) → lookup key c.standby_slave_map ≡ standby_at c.switch_instances key

-- A new cluster that is made of some instances: it holds under every key the first of them with the
-- key, and nothing if there is none; every key stands once, every instance is of the cluster and
-- under its own key, and the standby slave of a key is that of the master with the key.
pub new_mysql_switch_cluster_lem :
    (cluster_key : Text) (ms : List Member) (c : MySqlSwitchCluster)
    → new_mysql_switch_cluster cluster_key ms ≡ ok c
    → IsMade cluster_key ms c
unfolding new_mysql_switch_cluster
new_mysql_switch_cluster_lem cluster_key [] c h = cc
new_mysql_switch_cluster_lem cluster_key (m ∷ rest) c h =
    made (collect_members cluster_key [] (m ∷ rest)) refl h
  where
    with_members : Map Text Member → MySqlSwitchCluster
    with_members members = record {
      switch_instances = members;
      standby_slave_map = set_standby_slave_map members;
      backend_master_key_list = [];
      backend_slave_key_list = [];
      proxy_key_list = [];
    }

    made :
        (r : Result Text (Map Text Member))
        → collect_members cluster_key [] (m ∷ rest) ≡ r
        → elim r as (λ _. Result Text MySqlSwitchCluster) [
          | fail why ↦ fail why
          | ok members ↦ ok (with_members members)
        ]
          ≡ ok c
        → IsMade cluster_key (m ∷ rest) c
    made (fail why) e q = cc
    made (ok members) e q =
        let (d, b) = collect_members_lem cluster_key [] members (m ∷ rest) e tt tt in
        let same : with_members members ≡ c = cc in
        subst (λ (c : MySqlSwitchCluster). IsMade cluster_key (m ∷ rest) c) same
          (record {
            once = d;
            belong = b;
            first = λ key.
                lookup-collect_members cluster_key [] members (m ∷ rest) key e
                ∙ ap (λ o. or_first o key (m ∷ rest)) (lookup_nil key);
            standby = λ key. lookup-set_standby_slave_map members key d;
          })
