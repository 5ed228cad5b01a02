-- ===== src/Slave.antt =====
-- internal/analysis/switcher/mysql/mysql_slave_checker.go: whether the standby slave of a failed
-- master may take over. What its MySQL server answers is an argument: each query is asked once, but
-- `SHOW SLAVE STATUS`, whose n-th answer is `slave_status n`. A uint64 is a number that wraps at
-- 2 ^ 64. Log lines are left out, and so are the tests for a connection that is nil, since the only
-- caller has connected.
pub mod Checks
pub mod Waiting
pub mod Lag
pub mod Passing
mod Tests
use dbha.Prelude.{
  ℕ, suc, zero, ◌+◌, ◌-◌, ◌*◌, ◌/◌, ◌%◌, ◌^◌, ℤ, pos, pos_part, neg_part, ltb_ℤ, leb, List, [], ◌∷◌,
  Option, none, some, Bool, true, false, not, ◌&&◌, ◌||◌, ◌==◌, Text, codes, text_eq, nat_eq,
  if◌then◌else◌, is_empty, elem, map, any, Result, ok, fail, ◌>>=◌, ◌>>◌, split, atoi, parse_uint64,
}

-- The settings of `config.Cfg.Workflow.SwitchFlow` for slaves.
pub record SlaveLimits : Type 0 where
  pub ignore_check_sum : Bool
  pub ignore_slave_delay : Bool
  pub slow_bytes : ℤ
  pub max_checksum_fail_cnt : ℤ
  pub max_seconds_behind_master : ℤ

-- The columns of `SHOW SLAVE STATUS` that are read; Seconds_Behind_Master is none for NULL.
pub record SlaveStatusInfo : Type 0 where
  pub master_host : Text
  pub master_port : ℕ
  pub master_log_file : Text
  pub relay_master_log_file : Text
  pub slave_sql_running : Text
  pub read_master_log_pos : ℕ
  pub exec_master_log_pos : ℕ
  pub seconds_behind_master : Option ℤ

pub record SlaveStatusPartialInfo : Type 0 where
  pub master_host : Text
  pub master_port : ℕ
  pub master_log_file_index : ℤ
  pub relay_master_log_file_index : ℤ
  pub read_master_log_pos : ℕ
  pub exec_master_log_pos : ℕ
  pub seconds_behind_master : Option ℤ

-- The fields of `MySQLSlaveChecker` that the checks read.
pub record MySqlSlaveChecker : Type 0 where
  pub master_ip : Text
  pub master_port : ℕ

-- What the slave's server answers; none is an error of the query.
pub record SlaveDb : Type 0 where
  pub connects : Bool
  pub max_binlog_size : Option Text
  pub slave_status : ℕ → Option SlaveStatusInfo
  pub databases : Option (List Text)
  pub checksum_cnt : Option ℤ
  pub checksum_fail_cnt : Option ℤ

pub data CheckError : Type 0 where
  connect_failed : CheckError
  query_failed : Text → CheckError
  bad_binlog_size : Text → CheckError
  sql_not_running : Text → CheckError
  bad_log_file : Text → CheckError
  other_master : Text → ℕ → CheckError
  still_delayed : CheckError
  no_checksum : CheckError
  checksum_failures : ℤ → ℤ → CheckError
  behind_master : ℤ → ℤ → CheckError

abbrev pub Checked : Type 0 → Type 0
Checked A = Result CheckError A

abbrev pub asked {ℓ} : {A : Type ℓ} → Text → Option A → Result CheckError A
asked query none = fail (query_failed query)
asked query (some answer) = ok answer

-- `allowedSlowBytes`
unfoldable pub allowed_slow_bytes : SlaveLimits → ℕ
allowed_slow_bytes cfg = if ltb_ℤ cfg.slow_bytes (pos 0) then 0 else pos_part cfg.slow_bytes

-- `allowedMaxChecksumFailCnt`
unfoldable pub allowed_max_checksum_fail_cnt : SlaveLimits → ℤ
allowed_max_checksum_fail_cnt cfg =
    let v = cfg.max_checksum_fail_cnt in if ltb_ℤ v (pos 0) then pos 2 else v

-- `allowedMaxSecondsBehindMaster`
unfoldable pub allowed_max_seconds_behind_master : SlaveLimits → ℤ
allowed_max_seconds_behind_master cfg =
    let v = cfg.max_seconds_behind_master in if ltb_ℤ (pos 0) v then v else pos 600

-- `systemDbs`
abbrev pub system_dbs : List Text
system_dbs =
    codes "mysql"
    ∷ codes "information_schema"
    ∷ codes "performance_schema"
    ∷ codes "test"
    ∷ codes "infodba_schema"
    ∷ codes "sys"
    ∷ []

-- `parseMasterLogFileIndex`; none stands for each of its errors.
unfoldable pub parse_master_log_file_index : Text → Option ℤ
parse_master_log_file_index file = if not (elem b'.' file) then none else elim (split b'.' file) [
  | [] ↦ none
  | first ∷ [] ↦ none
  | first ∷ index_str ∷ more ↦ if is_empty index_str then none else atoi index_str
]

abbrev lower : ℕ → ℕ
lower c = if leb b'A' c && leb c b'Z' then c + 32 else c

-- `strings.EqualFold(s, "Yes")`; U+017F, the long s, folds to an s.
unfoldable pub is_yes : Text → Bool
is_yes s = map lower s == codes "yes" || map lower s == b'y' ∷ b'e' ∷ 197 ∷ 191 ∷ []

abbrev log_index : Text → Checked ℤ
log_index file = elim (parse_master_log_file_index file) [
  | none ↦ fail (bad_log_file file)
  | some index ↦ ok index
]

-- What `GetSlaveStatusPartialInfo` makes of the answer.
unfoldable pub partial_info : SlaveStatusInfo → Checked SlaveStatusPartialInfo
unfolding log_index
partial_info st =
    if not (is_yes st.slave_sql_running) then fail (sql_not_running st.slave_sql_running) else (do
      master ← log_index st.master_log_file
      relay ← log_index st.relay_master_log_file
      ok (record {
        master_host = st.master_host;
        master_port = st.master_port;
        master_log_file_index = master;
        relay_master_log_file_index = relay;
        read_master_log_pos = st.read_master_log_pos;
        exec_master_log_pos = st.exec_master_log_pos;
        seconds_behind_master = st.seconds_behind_master;
      }))

-- `GetSlaveStatusPartialInfo`, at the n-th question.
unfoldable pub get_slave_status_partial_info : SlaveDb → ℕ → Checked SlaveStatusPartialInfo
get_slave_status_partial_info db n = do
  st ← asked (codes "SHOW SLAVE STATUS") (db.slave_status n)
  partial_info st

-- `CalSlowBytes`, in uint64.
unfoldable pub cal_slow_bytes : SlaveStatusPartialInfo → ℕ → ℕ
cal_slow_bytes st size =
    let newer = pos_part st.master_log_file_index + neg_part st.relay_master_log_file_index in
    let older = pos_part st.relay_master_log_file_index + neg_part st.master_log_file_index in
    let files = (newer + 2 ^ 64 - older) % 2 ^ 64 in
    let gap = (files * (size / 1024) + 2 ^ 64 - st.exec_master_log_pos / 1024) % 2 ^ 64 in
    (gap + st.read_master_log_pos / 1024) % 2 ^ 64
