-- ===== src/Takeover.antt =====
-- internal/analysis/switcher/mysql/mysql_switch_instance.go: the calls by which the standby slave of
-- a failed master takes over, for the switch of an instance and of a cluster. A call that changes a
-- server or the metadata is an effect; what a server answers is an argument that depends on the
-- effects so far, the newest first. A query has no effect. Log lines are left out.
pub mod Instance
pub mod Effects
pub mod Fencing
pub mod Serving
pub mod Standby
pub mod Cluster
mod Tests
use dbha.Prelude.{
  ℕ, List, [], ◌∷◌, ◌++◌, Option, none, some, Bool, true, false, not, ◌==◌, Text, codes, decimal,
  text_eq, if◌then◌else◌, Result, ok, fail, keep,
}

-- `DbmMetadataProxyInstance`
pub record ProxyInstance : Type 0 where
  pub ip : Text
  pub port : ℕ
  pub admin_port : ℕ
  pub status : Text

-- `DbmMetadataSlaveInfo`
pub record SlaveInfo : Type 0 where
  pub ip : Text
  pub port : ℕ
  pub is_stand_by : Bool
  pub status : Text

-- The calls that change something, with their success.
pub data Effect : Type 0 where
  refreshed_backends : (ip : Text) → (admin_port : ℕ) → (backend : Text) → Bool → Effect
  stopped_slave : (ip : Text) → (port : ℕ) → Bool → Effect
  reset_slave : (ip : Text) → (port : ℕ) → Bool → Effect
  swapped_role : (ip : Text) → (port : ℕ) → (slave_ip : Text) → (slave_port : ℕ) → Bool → Effect
  switched_dumpers : (file : Text) → (pos : ℕ) → (dumpers : List (Text × ℕ)) → Bool → Effect
  deleted_name_service : (ip : Text) → (port : ℕ) → Bool → Effect

-- What the servers and the metadata service answer at an address.
pub record Servers : Type 0 where
  pub proxy_connects : Text → ℕ → List Effect → Bool
  pub refresh : Text → ℕ → Text → List Effect → Bool
  pub backends : Text → ℕ → List Effect → Option (List Text)
  pub slave_connects : Text → ℕ → List Effect → Bool
  pub stop : Text → ℕ → List Effect → Bool
  pub master_status : Text → ℕ → List Effect → Option (Text × ℕ)
  pub reset : Text → ℕ → List Effect → Bool
  pub swap_role : Text → ℕ → Text → ℕ → List Effect → Bool
  pub switch_dumpers : Text → ℕ → List (Text × ℕ) → List Effect → Bool
  pub delete_name_service : Text → ℕ → List Effect → Bool

pub data Fault : Type 0 where
  connect_failed : Text → ℕ → Fault
  sql_failed : Text → ℕ → Text → Fault
  wrong_backend : Text → Fault
  no_available_proxy : Fault
  no_proxies : Fault
  nil_standby : Fault
  standby_unavailable : Fault
  bad_role : Text → Fault
  not_found : Text → Fault
  swap_failed : Text → ℕ → Fault
  dumpers_failed : Fault
  name_service_failed : Fault
  some_failed : List Text → Fault

-- What a chain of calls works on: the effects so far, and the position that the new master had when
-- it took over, `NewMasterBinlogFile` and `NewMasterBinlogPos`.
pub record World : Type 0 where
  pub effects : List Effect
  pub new_master_binlog_file : Text
  pub new_master_binlog_pos : ℕ

abbrev pub Call : Type 0 → Type 0
Call A = World → Result Fault A × World

abbrev pub pure : {A : Type 0} → A → Call A
pure a w = (ok a, w)

abbrev pub throw : {A : Type 0} → Fault → Call A
throw why w = (fail why, w)

-- `if err != nil { return err }` between two calls
infixl 5 ◌>>=◌ ◌>>◌
unfoldable pub ◌>>=◌ : {A B : Type 0} → Call A → (A → Call B) → Call B
◌>>=◌ call rest w = let (r, w') = call w in elim r [ fail why ↦ (fail why, w') | ok a ↦ rest a w' ]

abbrev pub ◌>>◌ : {B : Type 0} → Call (Unit {0}) → Call B → Call B
call >> rest = call >>= λ _. rest

-- A call that changes something, and fails with `why` if it does not succeed.
abbrev pub effect : (List Effect → Bool) → (Bool → Effect) → Fault → Call (Unit {0})
effect succeeds event why w =
    let done = succeeds w.effects in
    let w' = record w { effects = event done ∷ w.effects } in (if done then ok tt else fail why, w')

-- A query.
abbrev pub query : {A : Type 0} → (List Effect → Option A) → Fault → Call A
query answer why w = elim (answer w.effects) [ none ↦ (fail why, w) | some a ↦ (ok a, w) ]

abbrev pub require : (List Effect → Bool) → Fault → Call (Unit {0})
require holds why w = if holds w.effects then (ok tt, w) else (fail why, w)

-- fmt.Sprintf("%s:%d", ip, port)
abbrev pub address : Text → ℕ → Text
address ip port = ip ++ (b':' ∷ decimal port)

abbrev pub unavailable : Text
unavailable = codes "unavailable"

-- The first backend that is not at the address.
unfoldable pub other_backend : Text → List Text → Option Text
other_backend backend [] = none
other_backend backend (found ∷ rest) =
    if not (found == backend) then some found else other_backend backend rest

-- `ProxyRefreshBackends`
unfoldable pub proxy_refresh_backends : Servers → Text → ℕ → Text → ℕ → Call (Unit {0})
proxy_refresh_backends s ip admin_port backend_ip backend_port = do
  let backend = address backend_ip backend_port
  require (s.proxy_connects ip admin_port) (connect_failed ip admin_port)
  effect (s.refresh ip admin_port backend) (refreshed_backends ip admin_port backend)
      (sql_failed ip admin_port (codes "refresh_backends"))
  list ← query (s.backends ip admin_port) (sql_failed ip admin_port (codes "select"))
  elim (other_backend backend list) [ none ↦ pure tt | some found ↦ throw (wrong_backend found) ]

-- `DoStopSlave`
unfoldable pub do_stop_slave : Servers → Text → ℕ → Call (Unit {0})
do_stop_slave s ip port =
    effect (s.stop ip port) (stopped_slave ip port) (sql_failed ip port (codes "STOP SLAVE"))

-- `DoShowMasterStatus`: the file and the position
unfoldable pub do_show_master_status : Servers → Text → ℕ → Call (Text × ℕ)
do_show_master_status s ip port =
    query (s.master_status ip port) (sql_failed ip port (codes "SHOW MASTER STATUS"))

-- `DoResetSlave`
unfoldable pub do_reset_slave : Servers → Text → ℕ → Call (Unit {0})
do_reset_slave s ip port =
    effect (s.reset ip port) (reset_slave ip port) (sql_failed ip port (codes "RESET SLAVE"))

-- `DoResetSlaveWithBinlogPos`
unfoldable pub do_reset_slave_with_binlog_pos : Servers → Text → ℕ → Call (Text × ℕ)
do_reset_slave_with_binlog_pos s ip port = do
  require (s.slave_connects ip port) (connect_failed ip port)
  do_stop_slave s ip port
  position ← do_show_master_status s ip port
  do_reset_slave s ip port
  pure position

abbrev pub set_position : Text × ℕ → Call (Unit {0})
set_position (file, pos) w =
    (ok tt, record w { new_master_binlog_file = file; new_master_binlog_pos = pos })

-- The loop over proxies that refreshes the backends of each.
unfoldable pub refresh_each : Servers → List ProxyInstance → Text → ℕ → Call (Unit {0})
refresh_each s [] backend_ip backend_port = pure tt
refresh_each s (proxy ∷ rest) backend_ip backend_port = do
  proxy_refresh_backends s proxy.ip proxy.admin_port backend_ip backend_port
  refresh_each s rest backend_ip backend_port

-- The backend that serves nobody, `1.1.1.1:3306`.
abbrev pub fence_ip : Text
fence_ip = codes "1.1.1.1"

abbrev pub fence_port : ℕ
fence_port = 3306
