-- ===== src/Takeover/Cluster/Sorting.antt =====
-- `CheckBeforeSwitch` of a cluster: every failed instance meets its fate.
use mathlib.Core.List.{append-nil, append_assoc}
use dbha.Prelude.{
  ℕ, List, [], ◌∷◌, ◌++◌, Option, none, some, Bool, true, false, ◌==◌, ◌&&◌, Text, text_eq,
  if◌then◌else◌, is_empty, Map, lookup, ◌≡◌, refl, ap, sym, ◌∙◌, All, Distinct, arith, Bool-cases,
  inl, inr, lookup_of_mem, All-of_mem,
}
use dbha.Switch.{switch_required, switch_not_needed, switch_check_unpass}
use dbha.Slave.{SlaveLimits, SlaveDb}
use dbha.Takeover.Instance.{backend_master, backend_slave, backend_repeater, CheckFault}
use dbha.Takeover.Cluster.{Member, MySqlSwitchCluster, machine_proxy, machine_backend}
use dbha.Takeover.Cluster.Checks.{
  check_storage_master, check_mysql_backend, check_member, check_members, has_switch_required_node,
  verdict, check_before_switch,
}

-- What becomes of a failed instance.
pub data Fate : Type 0 where
  as_proxy : Fate
  as_slave : Fate
  as_master : Fate
  as_repeater : Fate
  rejected : Fate

abbrev pub is_fate : Fate → Fate → Bool
is_fate as_proxy as_proxy = true
is_fate as_slave as_slave = true
is_fate as_master as_master = true
is_fate as_repeater as_repeater = true
is_fate rejected rejected = true
is_fate f g = false

abbrev pub backend_fate : Text → Option CheckFault → Fate
backend_fate role checked =
    if role == backend_slave
    then as_slave
    else (if role == backend_repeater
        then as_repeater
        else (if role == backend_master
            then elim checked [ none ↦ as_master | some why ↦ rejected ]
            else rejected))

module _ (cfg : SlaveLimits) (dbs : Text → ℕ → SlaveDb) (cluster : MySqlSwitchCluster) where
  -- By its machine and its role; a master must pass its check.
  abbrev pub fate : Text → Member → Fate
  fate key m =
      if m.machine_type == machine_proxy
      then as_proxy
      else (if m.machine_type == machine_backend
          then backend_fate m.instance_role
              (check_storage_master cfg dbs cluster.switch_instances cluster.standby_slave_map key)
          else rejected)

  -- The keys of the instances with a fate, in order.
  abbrev pub keys_of_fate : Fate → Map Text Member → List Text
  keys_of_fate f [] = []
  keys_of_fate f ((key, m) ∷ rest) =
      if is_fate f (fate key m) then key ∷ keys_of_fate f rest else keys_of_fate f rest

  one : Fate → Text → Member → List Text
  one f key m = if is_fate f (fate key m) then key ∷ [] else []

  -- A state of the loop that keeps the instances and the standby slaves.
  abbrev pub Keeps : MySqlSwitchCluster → Type 0
  Keeps c =
      (c.switch_instances ≡ cluster.switch_instances)
      × (c.standby_slave_map ≡ cluster.standby_slave_map)

  Sorted : MySqlSwitchCluster × List Text → (Fate → List Text) → Type 0
  Sorted (c, unpass) lists =
      Keeps c
      × (c.proxy_key_list ≡ lists as_proxy)
      × (c.backend_slave_key_list ≡ lists as_slave)
      × (c.backend_master_key_list ≡ lists as_master)
      × (unpass ≡ lists rejected)

  check_member-Sorted :
      (acc : MySqlSwitchCluster × List Text) (lists : Fate → List Text) (key : Text) (m : Member)
      → lookup key cluster.switch_instances ≡ some m
      → Sorted acc lists
      → Sorted (check_member cfg dbs acc key m) (λ f. lists f ++ one f key m)
  unfolding check_member check_mysql_backend Sorted one
  check_member-Sorted (c, unpass) lists key m found ((ki, ks), hp, hs, hm, hr) =
      let here : lookup key c.switch_instances ≡ some m = ap (lookup key) ki ∙ found in
      let same : check_storage_master cfg dbs c.switch_instances c.standby_slave_map key
          ≡ check_storage_master cfg dbs cluster.switch_instances cluster.standby_slave_map key =
        ap (λ l. check_storage_master cfg dbs l c.standby_slave_map key) ki
        ∙ ap (λ l. check_storage_master cfg dbs cluster.switch_instances l key) ks in
      ground (
        arith,
        append-nil (lists as_proxy),
        append-nil (lists as_slave),
        append-nil (lists as_master),
        append-nil (lists rejected),
      )

  keys_of_fate-cons :
      (f : Fate) (key : Text) (m : Member) (rest : Map Text Member) (l : List Text)
      → (l ++ one f key m) ++ keys_of_fate f rest ≡ l ++ keys_of_fate f ((key, m) ∷ rest)
  unfolding one
  keys_of_fate-cons f key m rest l = elim (Bool-cases (is_fate f (fate key m))) [
    | inl e ↦ rw e (append_assoc l (key ∷ []) (keys_of_fate f rest))
    | inr e ↦ rw e (ap (λ x. x ++ keys_of_fate f rest) (append-nil l))
  ]

  Sorted-ext :
      (acc : MySqlSwitchCluster × List Text) (lists lists' : Fate → List Text)
      → ((f : Fate) → lists f ≡ lists' f)
      → Sorted acc lists
      → Sorted acc lists'
  unfolding Sorted
  Sorted-ext (c, unpass) lists lists' same (k, hp, hs, hm, hr) =
      (k, hp ∙ same as_proxy, hs ∙ same as_slave, hm ∙ same as_master, hr ∙ same rejected)

  check_members-Sorted :
      (acc : MySqlSwitchCluster × List Text) (lists : Fate → List Text) (rest : Map Text Member)
      → All (λ (kv : Text × Member). lookup kv.0 cluster.switch_instances ≡ some kv.1) rest
      → Sorted acc lists
      → Sorted (check_members cfg dbs acc rest) (λ f. lists f ++ keys_of_fate f rest)
  unfolding check_members
  check_members-Sorted acc lists [] found h =
      Sorted-ext acc lists (λ f. lists f ++ []) (λ f. sym (append-nil (lists f))) h
  check_members-Sorted acc lists ((key, m) ∷ rest) found h =
      Sorted-ext (check_members cfg dbs (check_member cfg dbs acc key m) rest)
        (λ f. (lists f ++ one f key m) ++ keys_of_fate f rest)
        (λ f. lists f ++ keys_of_fate f ((key, m) ∷ rest))
        (λ f. keys_of_fate-cons f key m rest (lists f))
        (check_members-Sorted (check_member cfg dbs acc key m) (λ f. lists f ++ one f key m) rest
          found.1 (check_member-Sorted acc lists key m found.0 h))

  -- The code for the instances of each fate.
  abbrev pub code_of_fates : (Fate → List Text) → ℕ
  code_of_fates lists =
      if is_empty (lists rejected)
      then (if is_empty (lists as_master) && is_empty (lists as_slave) && is_empty (lists as_proxy)
          then switch_not_needed
          else switch_required)
      else switch_check_unpass

  -- What a cluster with the same instances, a code and the keys in the error say of the fates.
  pub record Tells (told : MySqlSwitchCluster × (ℕ × List Text)) (lists : Fate → List Text)
      : Type 0 where
    pub keeps : Keeps told.0
    pub proxies : told.0.proxy_key_list ≡ lists as_proxy
    pub slaves : told.0.backend_slave_key_list ≡ lists as_slave
    pub masters : told.0.backend_master_key_list ≡ lists as_master
    pub errors : told.1.1 ≡ lists rejected
    pub code : told.1.0 ≡ code_of_fates lists

  verdict-Tells :
      (acc : MySqlSwitchCluster × List Text) (lists : Fate → List Text)
      → Sorted acc lists
      → Tells (verdict cfg dbs acc) lists
  unfolding verdict has_switch_required_node Sorted
  verdict-Tells (c, unpass) lists (k, hp, hs, hm, hr) = ground arith

  -- Where every key stands once: the lists hold the failed proxies, slaves and masters that have
  -- passed, each in order, the error holds all the others but repeaters, and the code says whether
  -- there is an error and whether there is anything to switch.
  pub check_before_switch_lem :
      Distinct cluster.switch_instances
      → Tells (check_before_switch cfg dbs cluster) (λ f. keys_of_fate f cluster.switch_instances)
  unfolding check_before_switch Sorted
  check_before_switch_lem d =
      verdict-Tells _ (λ f. keys_of_fate f cluster.switch_instances)
        (check_members-Sorted _ (λ f. []) cluster.switch_instances
          (All-of_mem _ cluster.switch_instances
            (λ kv mem. lookup_of_mem cluster.switch_instances d mem))
          ((refl, refl), refl, refl, refl, refl))
