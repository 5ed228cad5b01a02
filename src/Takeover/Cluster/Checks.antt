-- ===== src/Takeover/Cluster/Checks.antt =====
-- internal/analysis/switcher/mysql/mysql_switch_cluster.go: `CheckBeforeSwitch`, which sorts the
-- failed instances of a cluster.
use dbha.Prelude.{
  ℕ, List, [], ◌∷◌, ◌++◌, Option, none, some, Bool, not, ◌==◌, ◌||◌, Text, text_eq, if◌then◌else◌,
  ok, fail, is_empty, any, Map, lookup,
}
use dbha.Switch.{switch_required, switch_not_needed, switch_check_unpass}
use dbha.Slave.{SlaveLimits, MySqlSlaveChecker, SlaveDb}
use dbha.Slave.Checks.{check}
use dbha.Takeover.{
  SlaveInfo, no_available_proxy, no_proxies, nil_standby, standby_unavailable, bad_role, not_found,
  unavailable,
}
use dbha.Takeover.Instance.{
  backend_master, backend_slave, backend_repeater, CheckFault, fault, slave_check,
}
use dbha.Takeover.Cluster.{Member, MySqlSwitchCluster, machine_proxy, machine_backend, is_available}

module _ (cfg : SlaveLimits) (dbs : Text → ℕ → SlaveDb) where
  -- `CheckMySQLStorageMaster` of an instance and its standby slave.
  unfoldable pub check_storage_standby : Map Text Member → Member → SlaveInfo → Option CheckFault
  check_storage_standby members m standby =
      let checker : MySqlSlaveChecker = record { master_ip = m.ip; master_port = m.port } in
      if standby.status == unavailable
      then some (fault standby_unavailable)
      else elim (check cfg checker (dbs standby.ip standby.port)) [
        | fail why ↦ some (slave_check why)
        | ok _ ↦
            if is_empty m.proxy_instance_set
            then some (fault no_proxies)
            else (if any (is_available members m.bk_cloud_id) m.proxy_instance_set
                then none
                else some (fault no_available_proxy))
      ]

  -- `CheckMySQLStorageMaster`
  unfoldable pub check_storage_master :
      Map Text Member → Map Text SlaveInfo → Text → Option CheckFault
  check_storage_master members standbys key = elim (lookup key members) [
    | none ↦ some (fault (not_found key))
    | some m ↦ elim (lookup key standbys) [
      | none ↦ some (fault nil_standby)
      | some standby ↦ check_storage_standby members m standby
    ]
  ]

  -- `CheckMySQLBackend`
  unfoldable pub check_mysql_backend :
      MySqlSwitchCluster → Text → MySqlSwitchCluster × Option CheckFault
  check_mysql_backend c key = elim (lookup key c.switch_instances) [
    | none ↦ (c, some (fault (not_found key)))
    | some m ↦
        if m.instance_role == backend_slave
        then (record c { backend_slave_key_list = c.backend_slave_key_list ++ key ∷ [] }, none)
        else (if m.instance_role == backend_repeater
            then (c, none)
            else (if m.instance_role == backend_master
                then elim (check_storage_master c.switch_instances c.standby_slave_map key) [
                  | some why ↦ (c, some why)
                  | none ↦ (
                    record c { backend_master_key_list = c.backend_master_key_list ++ key ∷ [] },
                    none,
                  )
                ]
                else (c, some (fault (bad_role m.instance_role)))))
  ]

  -- One round of the loop of `CheckBeforeSwitch`, with the keys that have not passed.
  unfoldable pub check_member :
      MySqlSwitchCluster × List Text → Text → Member → MySqlSwitchCluster × List Text
  check_member (c, unpass) key m =
      if m.machine_type == machine_proxy
      then (record c { proxy_key_list = c.proxy_key_list ++ key ∷ [] }, unpass)
      else (if m.machine_type == machine_backend
          then (let (c', err) = check_mysql_backend c key in
              elim err [ none ↦ (c', unpass) | some why ↦ (c', unpass ++ key ∷ []) ])
          else (c, unpass ++ key ∷ []))

  unfoldable pub check_members :
      MySqlSwitchCluster × List Text → Map Text Member → MySqlSwitchCluster × List Text
  check_members acc [] = acc
  check_members acc ((key, m) ∷ rest) = check_members (check_member acc key m) rest

  -- `HasSwitchRequiredNode`
  unfoldable pub has_switch_required_node : MySqlSwitchCluster → Bool
  has_switch_required_node c =
      not (is_empty c.backend_master_key_list)
      || not (is_empty c.backend_slave_key_list)
      || not (is_empty c.proxy_key_list)

  -- What `CheckBeforeSwitch` gives after its loop: the code, and the keys in its error.
  unfoldable pub verdict : MySqlSwitchCluster × List Text → MySqlSwitchCluster × (ℕ × List Text)
  verdict (c, unpass) =
      if not (is_empty unpass)
      then (c, (switch_check_unpass, unpass))
      else (if not (has_switch_required_node c)
          then (c, (switch_not_needed, []))
          else (c, (switch_required, [])))

  -- `CheckBeforeSwitch`
  unfoldable pub check_before_switch : MySqlSwitchCluster → MySqlSwitchCluster × (ℕ × List Text)
  check_before_switch cluster =
      let cleared : MySqlSwitchCluster = record cluster {
        backend_master_key_list = [];
        backend_slave_key_list = [];
        proxy_key_list = [];
      } in
      verdict (check_members (cleared, []) cluster.switch_instances)
