-- ===== src/Slave/Tests.antt =====
-- A slave that catches up while the check waits.
use dbha.Prelude.{
  ℕ, ◌+◌, ◌*◌, ◌/◌, ◌≤◌, ◌≡◌, ◌↔◌, refl, pos, [], ◌∷◌, none, some, true, false, codes, arith, ltb,
  if◌then◌else◌, ok, fail, parse_uint64, parse_digits, split, atoi,
}
use dbha.Slave.{
  SlaveLimits, SlaveStatusInfo, SlaveStatusPartialInfo, MySqlSlaveChecker, SlaveDb, behind_master,
  still_delayed, other_master, cal_slow_bytes, parse_master_log_file_index, is_yes, partial_info,
  get_slave_status_partial_info, allowed_slow_bytes, allowed_max_checksum_fail_cnt,
  allowed_max_seconds_behind_master,
}
use dbha.Slave.Checks.{
  check, check_connected, wait_repl_pos_delay, query_max_binlog_size, after_first, wait_loop,
  run_slave_check_sum, has_user_created_database, get_slave_check_sum, check_slave_check_sum,
  run_repl_time_delay, check_seconds_behind_master,
}
use dbha.Slave.Lag.{cal_slow_bytes-le_iff}

abbrev limits : SlaveLimits
limits = record {
  ignore_check_sum = false;
  ignore_slave_delay = false;
  slow_bytes = pos 0;
  max_checksum_fail_cnt = pos 2;
  max_seconds_behind_master = pos 600;
}

abbrev checker : MySqlSlaveChecker
checker = record { master_ip = codes "10.0.0.1"; master_port = 20000 }

-- The slave has executed up to `exec` of the master's second log file.
abbrev status : ℕ → ℕ → SlaveStatusInfo
status exec sec = record {
  master_host = codes "10.0.0.1";
  master_port = 20000;
  master_log_file = codes "binlog.000002";
  relay_master_log_file = codes "binlog.000002";
  slave_sql_running = codes "yes";
  read_master_log_pos = 4096;
  exec_master_log_pos = exec;
  seconds_behind_master = some (pos sec);
}

abbrev slave : ℕ → ℕ → SlaveDb
slave round sec = record {
  connects = true;
  max_binlog_size = some (codes "268435456");
  slave_status = λ n. some (status (if ltb n round then 1024 else 4096) sec);
  databases = some (codes "mysql" ∷ codes "orders" ∷ []);
  checksum_cnt = some (pos 12);
  checksum_fail_cnt = some (pos 1);
}

index_of_file : parse_master_log_file_index (codes "binlog.000002") ≡ some (pos 2)
unfolding parse_master_log_file_index split atoi parse_digits
index_of_file = refl

index_of_dotted_file : parse_master_log_file_index (codes "mysql-bin.db1.000002") ≡ none
unfolding parse_master_log_file_index split atoi parse_digits
index_of_dotted_file = refl

-- It catches up in time, or too late; is too old; or follows another master.
runs_of_check :
    (check limits checker (slave 3 5) ≡ ok tt)
    × (check limits checker (slave 11 5) ≡ fail still_delayed)
    × (check limits checker (slave 0 600) ≡ fail (behind_master (pos 600) (pos 600)))
    × (check limits (record checker { master_port = 20001 }) (slave 0 5)
        ≡ fail (other_master (codes "10.0.0.1") 20000))
unfolding check check_connected wait_repl_pos_delay query_max_binlog_size parse_uint64 parse_digits
    after_first wait_loop get_slave_status_partial_info partial_info parse_master_log_file_index
    split atoi is_yes cal_slow_bytes allowed_slow_bytes allowed_max_checksum_fail_cnt
    allowed_max_seconds_behind_master run_slave_check_sum has_user_created_database
    get_slave_check_sum check_slave_check_sum run_repl_time_delay check_seconds_behind_master
runs_of_check = (refl, refl, refl, refl)

-- One file behind, of 256 megabytes.
abbrev one_behind : SlaveStatusPartialInfo
one_behind = record {
  master_host = codes "10.0.0.1";
  master_port = 20000;
  master_log_file_index = pos 3;
  relay_master_log_file_index = pos 2;
  read_master_log_pos = 2048;
  exec_master_log_pos = 268434432;
  seconds_behind_master = none;
}

lag_of_one_behind : cal_slow_bytes one_behind 268435456 ≡ 3
unfolding cal_slow_bytes
lag_of_one_behind = refl

cal_slow_bytes-le_iff_example :
    (cal_slow_bytes one_behind 268435456 ≤ 5)
    ↔ (268434432 / 1024 ≤ 1 * (268435456 / 1024) + 2048 / 1024)
      × (1 * (268435456 / 1024) + 2048 / 1024 ≤ 268434432 / 1024 + 5)
cal_slow_bytes-le_iff_example =
    cal_slow_bytes-le_iff one_behind 268435456 2 1 5 refl refl (omega arith) (omega arith)
      (omega arith) (omega arith)
