-- ===== src/Takeover/Instance.antt =====
-- internal/analysis/switcher/mysql/mysql_switch_instance.go: `MySQLStorageSwitchInstance`, a storage
-- instance that is switched, by its role.
use dbha.Prelude.{
  ℕ, List, [], ◌∷◌, Option, none, some, Bool, not, ◌==◌, ◌||◌, Text, codes, text_eq, if◌then◌else◌,
  ok, fail, keep, is_empty,
}
use dbha.Switch.{switch_required, switch_not_needed, switch_check_unpass}
use dbha.Slave.{SlaveLimits, MySqlSlaveChecker, SlaveDb, CheckError}
use dbha.Slave.Checks.{check}
use dbha.Takeover.{
  ProxyInstance, SlaveInfo, swapped_role, switched_dumpers, deleted_name_service, Servers, Fault,
  no_available_proxy, no_proxies, nil_standby, standby_unavailable, bad_role, swap_failed,
  dumpers_failed, name_service_failed, World, Call, pure, throw, ◌>>=◌, ◌>>◌, effect, unavailable,
  do_reset_slave_with_binlog_pos, set_position, refresh_each, fence_ip, fence_port,
}

abbrev pub backend_master : Text
backend_master = codes "backend_master"

abbrev pub backend_slave : Text
backend_slave = codes "backend_slave"

abbrev pub backend_repeater : Text
backend_repeater = codes "backend_repeater"

pub record StorageInstance : Type 0 where
  pub ip : Text
  pub port : ℕ
  pub instance_role : Text
  pub standby_slave : Option SlaveInfo
  pub is_stand_by : Bool
  pub proxy_instance_set : List ProxyInstance
  pub binlog_dumper_set : List (Text × ℕ)

-- The first slave that is the standby one.
unfoldable pub find_standby : List SlaveInfo → Option SlaveInfo
find_standby [] = none
find_standby (slave ∷ rest) = if slave.is_stand_by then some slave else find_standby rest

-- `SetStandbySlave`: the standby slave, or else the first.
unfoldable pub standby_of : List SlaveInfo → Option SlaveInfo
standby_of [] = none
standby_of (first ∷ rest) = elim (find_standby (first ∷ rest)) [
  | none ↦ some first
  | some slave ↦ some slave
]

pub data CheckFault : Type 0 where
  fault : Fault → CheckFault
  slave_check : CheckError → CheckFault

-- `CheckMySQLStorageMaster` of a master with a standby slave: the code and the error.
unfoldable pub check_standby :
    SlaveLimits → (Text → ℕ → SlaveDb) → StorageInstance → SlaveInfo → ℕ × Option CheckFault
check_standby cfg dbs sw standby =
    let checker : MySqlSlaveChecker = record { master_ip = sw.ip; master_port = sw.port } in
    if standby.status == unavailable
    then (switch_check_unpass, some (fault standby_unavailable))
    else elim (check cfg checker (dbs standby.ip standby.port)) [
      | fail why ↦ (switch_check_unpass, some (slave_check why))
      | ok _ ↦
          if is_empty sw.proxy_instance_set
          then (switch_check_unpass, some (fault no_proxies))
          else (switch_required, none)
    ]

-- `CheckMySQLStorageMaster`; `dbs` gives the server at an address.
unfoldable pub check_mysql_storage_master :
    SlaveLimits → (Text → ℕ → SlaveDb) → StorageInstance → ℕ × Option CheckFault
check_mysql_storage_master cfg dbs sw = elim sw.standby_slave [
  | none ↦ (switch_check_unpass, some (fault nil_standby))
  | some standby ↦ check_standby cfg dbs sw standby
]

-- `CheckBeforeSwitch`
unfoldable pub check_before_switch :
    SlaveLimits → (Text → ℕ → SlaveDb) → StorageInstance → ℕ × Option CheckFault
check_before_switch cfg dbs sw =
    if sw.instance_role == backend_slave
    then (switch_required, none)
    else (if sw.instance_role == backend_repeater
        then (switch_not_needed, none)
        else (if sw.instance_role == backend_master
            then check_mysql_storage_master cfg dbs sw
            else (switch_check_unpass, some (fault (bad_role sw.instance_role)))))

abbrev pub is_usable : ProxyInstance → Bool
is_usable proxy = not (proxy.status == unavailable)

-- `BatchRefreshProxiesBackends`: the loop passes over the proxies that are unavailable.
unfoldable pub batch_refresh_proxies_backends :
    Servers → List ProxyInstance → Text → ℕ → Call (Unit {0})
batch_refresh_proxies_backends s proxies backend_ip backend_port = do
  refresh_each s (keep is_usable proxies) backend_ip backend_port
  if is_empty (keep is_usable proxies) then throw no_available_proxy else pure tt

-- `DoMasterSwitch`; a standby slave that is nil would be a nil dereference.
unfoldable pub do_master_switch : Servers → StorageInstance → Call (Unit {0})
do_master_switch s sw = do
  batch_refresh_proxies_backends s sw.proxy_instance_set fence_ip fence_port
  elim sw.standby_slave [
    | none ↦ throw nil_standby
    | some standby ↦ do
      position ← do_reset_slave_with_binlog_pos s standby.ip standby.port
      set_position position
      batch_refresh_proxies_backends s sw.proxy_instance_set standby.ip standby.port
  ]

abbrev delete_entries : Servers → StorageInstance → Call (Unit {0})
delete_entries s sw =
    effect (s.delete_name_service sw.ip sw.port) (deleted_name_service sw.ip sw.port)
      name_service_failed

-- `DoSlaveSwitch`
unfoldable pub do_slave_switch : Servers → StorageInstance → Call (Unit {0})
do_slave_switch s sw = if sw.is_stand_by then pure tt else delete_entries s sw

-- `DoSwitch`
unfoldable pub do_switch : Servers → StorageInstance → Call (Unit {0})
do_switch s sw =
    if sw.instance_role == backend_slave
    then do_slave_switch s sw
    else (if sw.instance_role == backend_master
        then do_master_switch s sw
        else throw (bad_role sw.instance_role))

-- `UpdateMetaInfo`
unfoldable pub update_meta_info : Servers → StorageInstance → Call (Unit {0})
update_meta_info s sw =
    if not (sw.instance_role == backend_master) then pure tt else elim sw.standby_slave [
      | none ↦ throw nil_standby
      | some standby ↦
          effect (s.swap_role sw.ip sw.port standby.ip standby.port)
            (swapped_role sw.ip sw.port standby.ip standby.port) (swap_failed sw.ip sw.port)
    ]

-- The dumpers move to the position that the new master had.
abbrev pub move_dumpers : Servers → List (Text × ℕ) → Call (Unit {0})
move_dumpers s dumpers w =
    effect (s.switch_dumpers w.new_master_binlog_file w.new_master_binlog_pos dumpers)
      (switched_dumpers w.new_master_binlog_file w.new_master_binlog_pos dumpers) dumpers_failed w

-- `DoFinal`
unfoldable pub do_final : Servers → StorageInstance → Call (Unit {0})
do_final s sw =
    if not (sw.instance_role == backend_master) || is_empty sw.binlog_dumper_set
    then pure tt
    else move_dumpers s sw.binlog_dumper_set

-- `GetNewMasterInfo`: the address and the position of the new master.
unfoldable pub get_new_master_info : StorageInstance → World → Option ((Text × ℕ) × (Text × ℕ))
get_new_master_info sw w =
    if not (sw.instance_role == backend_master) then none else elim sw.standby_slave [
      | none ↦ none
      | some standby ↦
          some ((standby.ip, standby.port), (w.new_master_binlog_file, w.new_master_binlog_pos))
    ]
