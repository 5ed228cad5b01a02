-- ===== src/Slave/Checks.antt =====
-- internal/analysis/switcher/mysql/mysql_slave_checker.go: the checks, in the order of `Check`.
use dbha.Prelude.{
  ℕ, suc, zero, ℤ, pos, ltb_ℤ, leb, Option, none, some, Bool, not, ◌&&◌, ◌==◌, codes, text_eq,
  nat_eq, if◌then◌else◌, elem, any, ok, fail, ◌>>=◌, ◌>>◌, parse_uint64,
}
use dbha.Slave.{
  SlaveLimits, SlaveStatusPartialInfo, MySqlSlaveChecker, SlaveDb, connect_failed, bad_binlog_size,
  other_master, still_delayed, no_checksum, checksum_failures, behind_master, Checked, asked,
  allowed_slow_bytes, allowed_max_checksum_fail_cnt, allowed_max_seconds_behind_master, system_dbs,
  get_slave_status_partial_info, cal_slow_bytes,
}

-- `queryMaxBinlogSize`
unfoldable pub query_max_binlog_size : SlaveDb → Checked ℕ
query_max_binlog_size db = do
  value ← asked (codes "max_binlog_size") db.max_binlog_size
  elim (parse_uint64 value) [ none ↦ fail (bad_binlog_size value) | some size ↦ ok size ]

-- The loop of `WaitReplPosDelay` with `left` rounds to go; the n-th question is the next.
unfoldable pub wait_loop : SlaveDb → ℕ → ℕ → (left n : ℕ) → Checked SlaveStatusPartialInfo
wait_loop db size allowed zero n = fail still_delayed
wait_loop db size allowed (suc left) n = do
  st ← get_slave_status_partial_info db n
  let rest = wait_loop db size allowed left (suc n)
  if leb (cal_slow_bytes st size) allowed then ok st else rest

-- What `WaitReplPosDelay` does once it has read the size and the first status.
unfoldable pub after_first :
    SlaveLimits
    → MySqlSlaveChecker
    → SlaveDb
    → Bool
    → ℕ
    → SlaveStatusPartialInfo
    → Checked SlaveStatusPartialInfo
after_first cfg checker db ignore_delay size st =
    let allowed = allowed_slow_bytes cfg in
    let waited = wait_loop db size allowed 10 1 in
    if not (st.master_host == checker.master_ip && st.master_port == checker.master_port)
    then fail (other_master st.master_host st.master_port)
    else (if ignore_delay
        then ok st
        else (if leb (cal_slow_bytes st size) allowed then ok st else waited))

-- `WaitReplPosDelay`
unfoldable pub wait_repl_pos_delay :
    SlaveLimits → MySqlSlaveChecker → SlaveDb → Bool → Checked SlaveStatusPartialInfo
wait_repl_pos_delay cfg checker db ignore_delay = do
  size ← query_max_binlog_size db
  st ← get_slave_status_partial_info db 0
  after_first cfg checker db ignore_delay size st

-- `CheckSecondsBehindMaster`
unfoldable pub check_seconds_behind_master : SlaveLimits → Option ℤ → Checked (Unit {0})
check_seconds_behind_master cfg none = ok tt
check_seconds_behind_master cfg (some sec) =
    let allowed = allowed_max_seconds_behind_master cfg in
    if not (ltb_ℤ sec allowed) then fail (behind_master sec allowed) else ok tt

-- `runReplTimeDelay`, with the status that the wait has read.
unfoldable pub run_repl_time_delay : SlaveLimits → SlaveStatusPartialInfo → Checked (Unit {0})
run_repl_time_delay cfg st = check_seconds_behind_master cfg st.seconds_behind_master

-- `HasUserCreatedDatabase`
unfoldable pub has_user_created_database : SlaveDb → Checked Bool
has_user_created_database db = do
  names ← asked (codes "show databases") db.databases
  ok (any (λ name. not (elem name system_dbs)) names)

-- `GetSlaveCheckSum`
unfoldable pub get_slave_check_sum : SlaveDb → Checked (ℤ × ℤ)
get_slave_check_sum db = do
  cnt ← asked (codes "checksum") db.checksum_cnt
  fail_cnt ← asked (codes "checksum failures") db.checksum_fail_cnt
  ok (cnt, fail_cnt)

-- `CheckSlaveCheckSum`
unfoldable pub check_slave_check_sum : SlaveLimits → ℤ → ℤ → Checked (Unit {0})
check_slave_check_sum cfg cnt fail_cnt =
    let most = allowed_max_checksum_fail_cnt cfg in
    if ltb_ℤ cnt (pos 1)
    then fail no_checksum
    else (if ltb_ℤ most fail_cnt then fail (checksum_failures fail_cnt most) else ok tt)

-- `runSlaveCheckSum`
unfoldable pub run_slave_check_sum : SlaveLimits → SlaveDb → Checked (Unit {0})
run_slave_check_sum cfg db = do
  has_biz_dbs ← has_user_created_database db
  if not has_biz_dbs
      then ok tt
      else (do counts ← get_slave_check_sum db; check_slave_check_sum cfg counts.0 counts.1)

-- What `Check` does once it has connected.
unfoldable pub check_connected : SlaveLimits → MySqlSlaveChecker → SlaveDb → Checked (Unit {0})
check_connected cfg checker db = do
  st ← wait_repl_pos_delay cfg checker db cfg.ignore_slave_delay
  if cfg.ignore_check_sum then ok tt else run_slave_check_sum cfg db
  if cfg.ignore_slave_delay then ok tt else run_repl_time_delay cfg st

-- `Check`
unfoldable pub check : SlaveLimits → MySqlSlaveChecker → SlaveDb → Checked (Unit {0})
check cfg checker db =
    if not db.connects then fail connect_failed else check_connected cfg checker db
