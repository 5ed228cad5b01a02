-- ===== src/Takeover/Tests.antt =====
-- A master with two slaves and three proxies, one of which is unavailable.
use dbha.Prelude.{
  decimal, ℕ, ◌+◌, List, [], ◌∷◌, none, some, true, false, Text, codes, ◌≡◌, ◌↔◌, refl, pos, length,
  Memᴰ, any, ok, fail, keep,
}
use dbha.Switch.{switch_required}
use dbha.Slave.{SlaveLimits, SlaveDb}
use dbha.Takeover.{
  ProxyInstance, SlaveInfo, refreshed_backends, Servers, World, wrong_backend, unavailable, address,
  ◌>>=◌, other_backend, proxy_refresh_backends, do_stop_slave, do_show_master_status,
  do_reset_slave, do_reset_slave_with_binlog_pos, refresh_each,
}
use dbha.Takeover.Instance.{
  StorageInstance, backend_master, is_usable, standby_of, check_before_switch,
  batch_refresh_proxies_backends, do_master_switch,
}
use dbha.Takeover.Fencing.{last_backend}
use dbha.Takeover.Serving.{fence, IsOrderly, IsInPlace, do_master_switch_lem}
use dbha.Takeover.Standby.{Passes, standby_of_lem, check_before_switch-master_iff}

abbrev proxy : Text → Text → ProxyInstance
proxy ip status = record { ip = ip; port = 10000; admin_port = 11000; status = status }

abbrev pub proxies : List ProxyInstance
proxies =
    proxy (codes "10.0.1.1") (codes "running")
    ∷ proxy (codes "10.0.1.2") unavailable
    ∷ proxy (codes "10.0.1.3") (codes "running")
    ∷ []

abbrev pub standby : SlaveInfo
standby = record {
  ip = codes "10.0.0.2";
  port = 20000;
  is_stand_by = true;
  status = codes "running";
}

abbrev pub slaves : List SlaveInfo
slaves = record standby { ip = codes "10.0.0.3"; is_stand_by = false } ∷ standby ∷ []

abbrev master : StorageInstance
master = record {
  ip = codes "10.0.0.1";
  port = 20000;
  instance_role = backend_master;
  standby_slave = some standby;
  is_stand_by = false;
  proxy_instance_set = proxies;
  binlog_dumper_set = [];
}

-- A proxy shows the backend that it has last been refreshed to.
abbrev pub servers : Servers
servers = record {
  proxy_connects = λ ip port l. true;
  refresh = λ ip port backend l. true;
  backends = λ ip port l. elim (last_backend ip port l) [ none ↦ some [] | some b ↦ some (b ∷ []) ];
  slave_connects = λ ip port l. true;
  stop = λ ip port l. true;
  master_status = λ ip port l. some (codes "binlog.000007", 154 + length l);
  reset = λ ip port l. true;
  swap_role = λ ip port slave_ip slave_port l. true;
  switch_dumpers = λ file pos dumpers l. true;
  delete_name_service = λ ip port l. true;
}

abbrev pub at_start : World
at_start = record { effects = []; new_master_binlog_file = []; new_master_binlog_pos = 0 }

-- Both usable proxies serve the standby slave at the end; the position is that after its stop.
switched_over :
    let (r, w) = do_master_switch servers master at_start in
    (r ≡ ok tt)
    × (last_backend (codes "10.0.1.3") 11000 w.effects ≡ some (address standby.ip standby.port))
    × (last_backend (codes "10.0.1.2") 11000 w.effects ≡ none)
    × (length w.effects ≡ 6)
    × (w.new_master_binlog_pos ≡ 157)
unfolding do_master_switch batch_refresh_proxies_backends refresh_each proxy_refresh_backends
    other_backend do_reset_slave_with_binlog_pos do_stop_slave do_show_master_status do_reset_slave
    ◌>>=◌ decimal
switched_over = (refl, refl, refl, refl, refl)

-- A proxy that keeps its backend ends the switch, before the slave is touched.
stuck_proxy :
    do_master_switch
      (record servers { backends = λ ip port l. some (codes "10.0.0.1:20000" ∷ []) })
      master
      at_start
    ≡ (
      fail (wrong_backend (codes "10.0.0.1:20000")),
      record at_start { effects = refreshed_backends (codes "10.0.1.1") 11000 fence true ∷ [] },
    )
unfolding do_master_switch batch_refresh_proxies_backends refresh_each proxy_refresh_backends
    other_backend do_reset_slave_with_binlog_pos do_stop_slave do_show_master_status do_reset_slave
    ◌>>=◌ decimal
stuck_proxy = refl

do_master_switch_lem_example :
    let (r, w) = do_master_switch servers master at_start in
    IsOrderly (keep is_usable proxies) standby.ip standby.port w.effects
    × (r ≡ ok tt → IsInPlace servers master standby w)
do_master_switch_lem_example = do_master_switch_lem servers master standby refl at_start tt

standby_of_lem_example :
    ((standby_of slaves ≡ none) ↔ (slaves ≡ []))
    × ((slave : SlaveInfo)
        → standby_of slaves ≡ some slave
        → Memᴰ slave slaves × (slave.is_stand_by ≡ any (λ other. other.is_stand_by) slaves))
standby_of_lem_example = standby_of_lem slaves

abbrev pub limits : SlaveLimits
limits = record {
  ignore_check_sum = false;
  ignore_slave_delay = false;
  slow_bytes = pos 0;
  max_checksum_fail_cnt = pos 2;
  max_seconds_behind_master = pos 600;
}

-- The standby slave at its address, without user databases and far ahead of nothing.
abbrev pub dbs : Text → ℕ → SlaveDb
dbs ip port = record {
  connects = true;
  max_binlog_size = some (codes "1073741824");
  slave_status = λ n. some (record {
    master_host = codes "10.0.0.1";
    master_port = 20000;
    master_log_file = codes "binlog.000007";
    relay_master_log_file = codes "binlog.000007";
    slave_sql_running = codes "Yes";
    read_master_log_pos = 154;
    exec_master_log_pos = 154;
    seconds_behind_master = none;
  });
  databases = some [];
  checksum_cnt = none;
  checksum_fail_cnt = none;
}

check_before_switch-master_iff_example :
    ((check_before_switch limits dbs master).0 ≡ switch_required)
    ↔ (slave : SlaveInfo) × (master.standby_slave ≡ some slave) × Passes limits dbs master slave
check_before_switch-master_iff_example = check_before_switch-master_iff limits dbs master refl
