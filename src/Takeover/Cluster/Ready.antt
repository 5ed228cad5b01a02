-- ===== src/Takeover/Cluster/Ready.antt =====
-- What the check of a cluster has made sure of when its master is switched.
use dbha.Prelude.{
  ℕ, List, [], ◌∷◌, none, some, Bool, true, false, Text, ◌≡◌, ap, sym, ◌∙◌, subst, arith, keep, any,
  is_empty, Map, lookup, text_eq, Distinct, ok, Option-cases, Bool-cases, inl, inr,
}
use dbha.Slave.{SlaveLimits, SlaveDb}
use dbha.Takeover.{SlaveInfo, ProxyInstance}
use dbha.Takeover.Cluster.{Member, MySqlSwitchCluster, is_available, get_available_proxies}
use dbha.Takeover.Cluster.Checks.{check_storage_standby, check_storage_master, check_before_switch}
use dbha.Takeover.Cluster.Sorting.{as_master, is_fate, fate, keys_of_fate, check_before_switch_lem}

-- A master with a standby slave and available proxies.
abbrev pub IsReady : MySqlSwitchCluster → Text → Type 0
IsReady c key =
    (standby : SlaveInfo) × (proxies : List ProxyInstance) × (lookup key c.standby_slave_map
      ≡ some standby)
    × (get_available_proxies c key ≡ ok proxies)

is_empty-keep :
    (p : ProxyInstance → Bool) (xs : List ProxyInstance)
    → any p xs ≡ true
    → is_empty (keep p xs) ≡ false
is_empty-keep p [] h = cc
is_empty-keep p (x ∷ xs) h = ground (arith, is_empty-keep p xs)

module _ (cfg : SlaveLimits) (dbs : Text → ℕ → SlaveDb) where
  check_storage_standby-passed :
      (members : Map Text Member) (m : Member) (standby : SlaveInfo)
      → check_storage_standby cfg dbs members m standby ≡ none
      → (is_empty m.proxy_instance_set ≡ false)
        × (any (is_available members m.bk_cloud_id) m.proxy_instance_set ≡ true)
  unfolding check_storage_standby
  check_storage_standby-passed members m standby h = ground arith

  check_storage_master-passed :
      (c : MySqlSwitchCluster) (key : Text)
      → check_storage_master cfg dbs c.switch_instances c.standby_slave_map key ≡ none
      → IsReady c key
  unfolding check_storage_master get_available_proxies
  check_storage_master-passed c key h = elim (Option-cases (lookup key c.switch_instances)) [
    | inl e ↦ ground arith
    | inr (m, e) ↦ elim (Option-cases (lookup key c.standby_slave_map)) [
      | inl e' ↦ ground arith
      | inr (standby, e') ↦
          let (some_proxy, usable) =
            check_storage_standby-passed c.switch_instances m standby (ground arith) in
          (
            standby,
            keep (is_available c.switch_instances m.bk_cloud_id) m.proxy_instance_set,
            e',
            ground (
              arith,
              is_empty-keep (is_available c.switch_instances m.bk_cloud_id) m.proxy_instance_set
                  usable,
            ),
          )
    ]
  ]

  fate-master :
      (c : MySqlSwitchCluster) (k : Text) (m : Member)
      → is_fate as_master (fate cfg dbs c k m) ≡ true
      → check_storage_master cfg dbs c.switch_instances c.standby_slave_map k ≡ none
  fate-master c k m h = ground arith

  keys_of_fate-master :
      (c : MySqlSwitchCluster) (members : Map Text Member) (key : Text) (more : List Text)
      → keys_of_fate cfg dbs c as_master members ≡ key ∷ more
      → check_storage_master cfg dbs c.switch_instances c.standby_slave_map key ≡ none
  keys_of_fate-master c [] key more h = cc
  keys_of_fate-master c ((k, m) ∷ rest) key more h =
      elim (Bool-cases (is_fate as_master (fate cfg dbs c k m))) [
        | inl e ↦
            let same : k ≡ key = ground arith in
            subst
              (λ k. check_storage_master cfg dbs c.switch_instances c.standby_slave_map k ≡ none)
              same (fate-master c k m e)
        | inr e ↦ keys_of_fate-master c rest key more (ground arith)
      ]

  -- Where every key stands once: the first master that the check of a cluster gives to the switch has
  -- a standby slave and available proxies.
  pub check_before_switch-IsReady :
      (cluster : MySqlSwitchCluster) (key : Text) (more : List Text)
      → Distinct cluster.switch_instances
      → (check_before_switch cfg dbs cluster).0.backend_master_key_list ≡ key ∷ more
      → IsReady (check_before_switch cfg dbs cluster).0 key
  unfolding get_available_proxies
  check_before_switch-IsReady cluster key more d h =
      let told = check_before_switch_lem cfg dbs cluster d in
      let (standby, proxies, at, found) =
        check_storage_master-passed cluster key
          (keys_of_fate-master cluster cluster.switch_instances key more (sym told.masters ∙ h)) in
      (
        standby,
        proxies,
        ap (lookup key) told.keeps.1 ∙ at,
        ap (λ l. get_available_proxies (record cluster { switch_instances = l }) key) told.keeps.0
            ∙ found,
      )
