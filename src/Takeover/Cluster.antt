-- ===== src/Takeover/Cluster.antt =====
-- internal/analysis/switcher/mysql/mysql_switch_cluster.go: `MySQLSwitchCluster`, the failed instances
-- of one cluster that are switched together. A map of Go is iterated in the order of its list, which
-- may be any.
pub mod Checks
pub mod Sorting
pub mod Creation
pub mod Names
pub mod Serving
pub mod Ready
pub mod Meta
mod Tests
use dbha.Prelude.{
  ℕ, List, [], ◌∷◌, ◌++◌, Option, none, some, Bool, true, false, not, ◌==◌, ◌||◌, ◌&&◌, Text, codes,
  text_eq, if◌then◌else◌, Result, ok, fail, keep, is_empty, map, any, Map, lookup, insert, has,
}
use dbha.Failure.{generate_metadata_key, generate_cluster_key}
use dbha.Switch.{switch_required, switch_not_needed, switch_check_unpass}
use dbha.Slave.{SlaveLimits, MySqlSlaveChecker, SlaveDb, CheckError}
use dbha.Slave.Checks.{check}
use dbha.Takeover.{
  ProxyInstance, SlaveInfo, Effect, swapped_role, switched_dumpers, deleted_name_service, Servers,
  Fault, no_available_proxy, no_proxies, nil_standby, standby_unavailable, bad_role, not_found,
  swap_failed, dumpers_failed, name_service_failed, some_failed, World, Call, pure, throw, ◌>>=◌,
  ◌>>◌, effect, unavailable, do_reset_slave_with_binlog_pos, set_position, refresh_each, fence_ip,
  fence_port,
}
use dbha.Takeover.Instance.{
  backend_master, backend_slave, backend_repeater, standby_of, CheckFault, fault, slave_check,
  move_dumpers,
}

-- The fields of `DbInstMetadata` that the switch of a cluster reads.
pub record Member : Type 0 where
  pub bk_cloud_id : ℕ
  pub cluster_id : ℕ
  pub ip : Text
  pub port : ℕ
  pub machine_type : Text
  pub instance_role : Text
  pub is_stand_by : Bool
  pub receiver : List SlaveInfo
  pub proxy_instance_set : List ProxyInstance
  pub binlog_dumpers : List (Text × ℕ)

pub record MySqlSwitchCluster : Type 0 where
  pub switch_instances : Map Text Member
  pub standby_slave_map : Map Text SlaveInfo
  pub backend_master_key_list : List Text
  pub backend_slave_key_list : List Text
  pub proxy_key_list : List Text

abbrev pub machine_proxy : Text
machine_proxy = codes "proxy"

abbrev pub machine_backend : Text
machine_backend = codes "backend"

abbrev pub member_key : Member → Text
member_key m = generate_metadata_key m.bk_cloud_id m.ip m.port

-- The loop of `NewMySQLSwitchCluster`: the first of two instances with one key stays, and one of
-- another cluster is an error, given by its key.
unfoldable pub collect_members :
    Text → Map Text Member → List Member → Result Text (Map Text Member)
collect_members cluster_key acc [] = ok acc
collect_members cluster_key acc (m ∷ rest) =
    let more =
      collect_members cluster_key
        (if has (member_key m) acc then acc else insert (member_key m) m acc) rest in
    if not (generate_cluster_key m.bk_cloud_id m.cluster_id == cluster_key)
    then fail (member_key m)
    else more

-- `SetStandbySlaveMap`: a master without slaves has no entry.
unfoldable pub set_standby_slave_map : Map Text Member → Map Text SlaveInfo
set_standby_slave_map [] = []
set_standby_slave_map ((key, m) ∷ rest) =
    let more = set_standby_slave_map rest in
    if not (m.instance_role == backend_master)
    then more
    else elim (standby_of m.receiver) [ none ↦ more | some standby ↦ (key, standby) ∷ more ]

-- `NewMySQLSwitchCluster`
unfoldable pub new_mysql_switch_cluster : Text → List Member → Result Text MySqlSwitchCluster
new_mysql_switch_cluster cluster_key [] = fail cluster_key
new_mysql_switch_cluster cluster_key (m ∷ rest) = elim (collect_members cluster_key [] (m ∷ rest)) [
  | fail why ↦ fail why
  | ok members ↦ ok (record {
    switch_instances = members;
    standby_slave_map = set_standby_slave_map members;
    backend_master_key_list = [];
    backend_slave_key_list = [];
    proxy_key_list = [];
  })
]

-- A proxy that is neither switched itself nor unavailable.
abbrev pub is_available : Map Text Member → ℕ → ProxyInstance → Bool
is_available members cloud proxy =
    not (has (generate_metadata_key cloud proxy.ip proxy.port) members)
    && not (proxy.status == unavailable)

-- `DeleteOneInstanceNameService`
unfoldable pub delete_one_instance_name_service :
    Servers → MySqlSwitchCluster → Text → Call (Unit {0})
delete_one_instance_name_service s cluster key = elim (lookup key cluster.switch_instances) [
  | none ↦ throw (not_found key)
  | some m ↦
      effect (s.delete_name_service m.ip m.port) (deleted_name_service m.ip m.port)
        name_service_failed
]

-- A loop that goes on after an error: the keys whose call has failed.
unfoldable pub failed_keys : (Text → Call (Unit {0})) → List Text → Call (List Text)
failed_keys call [] w = (ok [], w)
failed_keys call (key ∷ rest) w =
    let (r, w1) = call key w in
    let (more, w2) = failed_keys call rest w1 in
    elim more [
      | fail why ↦ (fail why, w2)
      | ok keys ↦ elim r [ fail why ↦ (ok (key ∷ keys), w2) | ok _ ↦ (ok keys, w2) ]
    ]

-- The end of such a loop.
unfoldable pub none_failed : (Text → Call (Unit {0})) → List Text → Call (Unit {0})
none_failed call keys = do
  failed ← failed_keys call keys
  if is_empty failed then pure tt else throw (some_failed failed)

-- `DeleteProxyNameService`
unfoldable pub delete_proxy_name_service : Servers → MySqlSwitchCluster → Call (Unit {0})
delete_proxy_name_service s cluster =
    none_failed (delete_one_instance_name_service s cluster) cluster.proxy_key_list

-- The body of the loop of `DeleteBackendNameService`: the standby slave keeps its names.
unfoldable pub delete_one_backend : Servers → MySqlSwitchCluster → Text → Call (Unit {0})
delete_one_backend s cluster key = elim (lookup key cluster.switch_instances) [
  | none ↦ pure tt
  | some m ↦ if m.is_stand_by then pure tt else delete_one_instance_name_service s cluster key
]

-- `DeleteBackendNameService`
unfoldable pub delete_backend_name_service : Servers → MySqlSwitchCluster → Call (Unit {0})
delete_backend_name_service s cluster =
    none_failed (delete_one_backend s cluster) cluster.backend_slave_key_list

-- `GetAvailableProxies`
unfoldable pub get_available_proxies : MySqlSwitchCluster → Text → Result Fault (List ProxyInstance)
get_available_proxies cluster key = elim (lookup key cluster.switch_instances) [
  | none ↦ fail (not_found key)
  | some m ↦
      let found = keep (is_available cluster.switch_instances m.bk_cloud_id) m.proxy_instance_set in
      if is_empty m.proxy_instance_set
      then fail no_proxies
      else (if is_empty found then fail no_available_proxy else ok found)
]

abbrev pub lift : {A : Type 0} → Result Fault A → Call A
lift r w = (r, w)

-- `RefreshProxiesBackends` for the first master, behind its proxies.
unfoldable pub refresh_to_standby :
    Servers → MySqlSwitchCluster → Text → List ProxyInstance → Call (Unit {0})
refresh_to_standby s cluster key proxies = do
  refresh_each s proxies fence_ip fence_port
  elim (lookup key cluster.standby_slave_map) [
    | none ↦ throw nil_standby
    | some standby ↦ do
      position ← do_reset_slave_with_binlog_pos s standby.ip standby.port
      set_position position
      refresh_each s proxies standby.ip standby.port
  ]

-- `RefreshProxiesBackends`
unfoldable pub refresh_proxies_backends : Servers → MySqlSwitchCluster → Call (Unit {0})
refresh_proxies_backends s cluster = elim cluster.backend_master_key_list [
  | [] ↦ pure tt
  | key ∷ more ↦ do
    proxies ← lift (get_available_proxies cluster key)
    refresh_to_standby s cluster key proxies
]

-- `DoSwitch`
unfoldable pub do_switch : Servers → MySqlSwitchCluster → Call (Unit {0})
do_switch s cluster = do
  delete_proxy_name_service s cluster
  delete_backend_name_service s cluster
  refresh_proxies_backends s cluster
