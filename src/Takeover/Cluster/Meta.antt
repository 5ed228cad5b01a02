-- ===== src/Takeover/Cluster/Meta.antt =====
-- internal/analysis/switcher/mysql/mysql_switch_cluster.go: what follows the switch of a cluster, the
-- roles in the metadata and the binlog dumpers.
use dbha.Prelude.{
  ℕ, List, [], ◌∷◌, ◌++◌, none, some, not, ◌==◌, ◌||◌, Text, text_eq, if◌then◌else◌, is_empty, Map,
  lookup, insert,
}
use dbha.Takeover.{
  Servers, swapped_role, nil_standby, swap_failed, World, Call, pure, throw, effect,
}
use dbha.Takeover.Instance.{backend_master, move_dumpers}
use dbha.Takeover.Cluster.{MySqlSwitchCluster, none_failed}

-- `SwitchRequiredNodes`
unfoldable pub switch_required_nodes : MySqlSwitchCluster → List Text
switch_required_nodes c = c.backend_master_key_list ++ c.backend_slave_key_list ++ c.proxy_key_list

-- The body of the loop of `UpdateMetaInfo`.
unfoldable pub swap_one : Servers → MySqlSwitchCluster → Text → Call (Unit {0})
swap_one s cluster key = elim (lookup key cluster.switch_instances) [
  | none ↦ pure tt
  | some m ↦
      if not (m.instance_role == backend_master)
      then pure tt
      else elim (lookup key cluster.standby_slave_map) [
        | none ↦ throw nil_standby
        | some standby ↦
            effect (s.swap_role m.ip m.port standby.ip standby.port)
              (swapped_role m.ip m.port standby.ip standby.port) (swap_failed m.ip m.port)
      ]
]

-- `UpdateMetaInfo`
unfoldable pub update_meta_info : Servers → MySqlSwitchCluster → Call (Unit {0})
update_meta_info s cluster = none_failed (swap_one s cluster) (switch_required_nodes cluster)

-- The body of the loop of `DoFinal`.
unfoldable pub finish_one : Servers → MySqlSwitchCluster → Text → Call (Unit {0})
finish_one s cluster key = elim (lookup key cluster.switch_instances) [
  | none ↦ pure tt
  | some m ↦
      if not (m.instance_role == backend_master) || is_empty m.binlog_dumpers
      then pure tt
      else move_dumpers s m.binlog_dumpers
]

-- `DoFinal`
unfoldable pub do_final : Servers → MySqlSwitchCluster → Call (Unit {0})
do_final s cluster = none_failed (finish_one s cluster) (switch_required_nodes cluster)

-- The loop of `GetNewMasterInfos`, by the master's key: the address and the position.
unfoldable pub new_master_infos :
    MySqlSwitchCluster
    → World
    → Map Text ((Text × ℕ) × (Text × ℕ))
    → List Text
    → Map Text ((Text × ℕ) × (Text × ℕ))
new_master_infos cluster w res [] = res
new_master_infos cluster w res (key ∷ rest) = elim (lookup key cluster.standby_slave_map) [
  | none ↦ new_master_infos cluster w res rest
  | some standby ↦
      let position : Text × ℕ = (w.new_master_binlog_file, w.new_master_binlog_pos) in
      new_master_infos cluster w (insert key ((standby.ip, standby.port), position) res) rest
]

-- `GetNewMasterInfos`
unfoldable pub get_new_master_infos :
    MySqlSwitchCluster → World → Map Text ((Text × ℕ) × (Text × ℕ))
get_new_master_infos cluster w = new_master_infos cluster w [] cluster.backend_master_key_list
