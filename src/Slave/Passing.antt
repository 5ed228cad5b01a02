-- ===== src/Slave/Passing.antt =====
-- `Check` passes a slave exactly if it may take over.
use dbha.Prelude.{
  ℕ, ◌<◌, ◌≡◌, refl, ap, ◌∙◌, ◌↔◌, inl, inr, Bool, true, false, not, ltb_ℤ, ℤ, pos, arith,
  Bool-cases, Option-cases, if◌then◌else◌, ok, fail, ok_of_bind, ◌>>=◌, List, Option, none, some,
  Text, codes, any, elem, text_eq, nat_eq, parse_uint64, text_beq_iff,
}
use dbha.Slave.{
  SlaveLimits, SlaveStatusPartialInfo, MySqlSlaveChecker, SlaveDb, Checked, connect_failed, asked,
  allowed_slow_bytes, allowed_max_checksum_fail_cnt, allowed_max_seconds_behind_master, system_dbs,
  get_slave_status_partial_info,
}
use dbha.Slave.Checks.{
  query_max_binlog_size, after_first, wait_loop, wait_repl_pos_delay, check_seconds_behind_master,
  run_repl_time_delay, has_user_created_database, get_slave_check_sum, check_slave_check_sum,
  run_slave_check_sum, check_connected, check,
}
use dbha.Slave.Waiting.{CatchesUp, wait_loop-CatchesUp, CatchesUp-wait_loop, wait_loop-suc}

-- `max_binlog_size` is answered, and is a number.
abbrev pub HasBinlogSize : SlaveDb → ℕ → Type 0
HasBinlogSize db size =
    (value : Text) × (db.max_binlog_size ≡ some value) × (parse_uint64 value ≡ some size)

-- A NULL passes, and so does what is below the limit.
abbrev pub IsRecent : SlaveLimits → Option ℤ → Type 0
IsRecent cfg none = Unit
IsRecent cfg (some sec) = ltb_ℤ sec (allowed_max_seconds_behind_master cfg) ≡ true

-- The databases are all the system's, or some checksum was done and not too many have failed.
abbrev pub IsSummed : SlaveLimits → SlaveDb → Type 0
IsSummed cfg db =
    (names : List Text) × (db.databases ≡ some names)
    × (any (λ name. not (elem name system_dbs)) names ≡ true
        → (cnt failed : ℤ) × (db.checksum_cnt ≡ some cnt)
          × (db.checksum_fail_cnt ≡ some failed)
          × (ltb_ℤ cnt (pos 1) ≡ false)
          × (ltb_ℤ (allowed_max_checksum_fail_cnt cfg) failed ≡ false))

-- The slave replicates the failed master: its first status can be read and names it.
abbrev pub Follows : MySqlSlaveChecker → SlaveDb → SlaveStatusPartialInfo → Type 0
Follows checker db st =
    (get_slave_status_partial_info db 0 ≡ ok st)
    × (st.master_host ≡ checker.master_ip)
    × (st.master_port ≡ checker.master_port)

asked_iff {ℓ} :
    {A : Type ℓ} (query : Text) (o : Option A) (a : A) → (asked query o ≡ ok a) ↔ (o ≡ some a)
asked_iff query none a = (λ h. cc, λ h. cc)
asked_iff query (some x) a = (λ h. cc, λ h. cc)

query_max_binlog_size_iff :
    (db : SlaveDb) (size : ℕ) → (query_max_binlog_size db ≡ ok size) ↔ HasBinlogSize db size
unfolding query_max_binlog_size
query_max_binlog_size_iff db size = (to, λ (value, e, p). rw (e, ◌>>=◌, p) refl)
  where
    to : query_max_binlog_size db ≡ ok size → HasBinlogSize db size
    to h =
        let (value, e, rest) =
          ok_of_bind (asked (codes "max_binlog_size") db.max_binlog_size) _ h in
        elim (Option-cases (parse_uint64 value)) [
          | inl q ↦ ground arith
          | inr (n, q) ↦ (value, (asked_iff _ _ value).0 e, ground arith)
        ]

check_seconds_behind_master_iff :
    (cfg : SlaveLimits) (sec : Option ℤ)
    → (check_seconds_behind_master cfg sec ≡ ok tt) ↔ IsRecent cfg sec
unfolding check_seconds_behind_master
check_seconds_behind_master_iff cfg none = (λ h. tt, λ h. refl)
check_seconds_behind_master_iff cfg (some sec) = ground arith

run_slave_check_sum_iff :
    (cfg : SlaveLimits) (db : SlaveDb) → (run_slave_check_sum cfg db ≡ ok tt) ↔ IsSummed cfg db
unfolding run_slave_check_sum has_user_created_database get_slave_check_sum check_slave_check_sum
run_slave_check_sum_iff cfg db = (to, from)
  where
    to : run_slave_check_sum cfg db ≡ ok tt → IsSummed cfg db
    to h = elim (Option-cases db.databases) [
      | inl q ↦ ground arith
      | inr (names, q) ↦ (
        names,
        q,
        λ user. elim (Option-cases db.checksum_cnt) [
          | inl missing ↦ ground arith
          | inr (cnt, p) ↦ elim (Option-cases db.checksum_fail_cnt) [
            | inl missing ↦ ground arith
            | inr (failed, r) ↦ (cnt, failed, p, r, ground arith, ground arith)
          ]
        ],
      )
    ]

    from : IsSummed cfg db → run_slave_check_sum cfg db ≡ ok tt
    from (names, e, user) = elim (Bool-cases (any (λ name. not (elem name system_dbs)) names)) [
      | inl q ↦
          let (cnt, failed, p, r, low, high) = user q in rw (e, ◌>>=◌, q, p, r, low, high) refl
      | inr q ↦ rw (e, ◌>>=◌, q) refl
    ]

-- What `WaitReplPosDelay` gives: the first status if delays are ignored, and else the first of
-- eleven that is not too far behind.
abbrev pub IsWaitedFor : SlaveLimits → MySqlSlaveChecker → SlaveDb → SlaveStatusPartialInfo → Type 0
IsWaitedFor cfg checker db st =
    (size : ℕ) × HasBinlogSize db size
    × (first : SlaveStatusPartialInfo) × Follows checker db first
    × (cfg.ignore_slave_delay ≡ true → st ≡ first)
    × (cfg.ignore_slave_delay ≡ false
        → (k : ℕ) × (k < 11) × CatchesUp db size (allowed_slow_bytes cfg) 0 k st)

-- A slave that may take over.
pub record MayTakeOver (cfg : SlaveLimits) (checker : MySqlSlaveChecker) (db : SlaveDb)
    : Type 0 where
  pub connects : db.connects ≡ true
  pub status : SlaveStatusPartialInfo
  pub waited_for : IsWaitedFor cfg checker db status
  pub summed : cfg.ignore_check_sum ≡ false → IsSummed cfg db
  pub recent : cfg.ignore_slave_delay ≡ false → IsRecent cfg status.seconds_behind_master

after_first_iff :
    (cfg : SlaveLimits) (checker : MySqlSlaveChecker) (db : SlaveDb) (size : ℕ)
    (first st : SlaveStatusPartialInfo)
    → get_slave_status_partial_info db 0 ≡ ok first
    → (after_first cfg checker db cfg.ignore_slave_delay size first ≡ ok st)
      ↔ (first.master_host ≡ checker.master_ip)
        × (first.master_port ≡ checker.master_port)
        × (cfg.ignore_slave_delay ≡ true → st ≡ first)
        × (cfg.ignore_slave_delay ≡ false → wait_loop db size (allowed_slow_bytes cfg) 11 0 ≡ ok st)
unfolding after_first
after_first_iff cfg checker db size first st read = ground (
  arith,
  text_beq_iff first.master_host checker.master_ip,
  wait_loop-suc db size (allowed_slow_bytes cfg) 10 0 first read,
)

wait_repl_pos_delay_iff :
    (cfg : SlaveLimits) (checker : MySqlSlaveChecker) (db : SlaveDb) (st : SlaveStatusPartialInfo)
    → (wait_repl_pos_delay cfg checker db cfg.ignore_slave_delay ≡ ok st)
      ↔ IsWaitedFor cfg checker db st
unfolding wait_repl_pos_delay
wait_repl_pos_delay_iff cfg checker db st = (to, from)
  where
    to :
        wait_repl_pos_delay cfg checker db cfg.ignore_slave_delay ≡ ok st
        → IsWaitedFor cfg checker db st
    to h =
        let (size, sized, h1) = ok_of_bind (query_max_binlog_size db) _ h in
        let (first, read, h2) = ok_of_bind (get_slave_status_partial_info db 0) _ h1 in
        let (host, port, now, later) = (after_first_iff cfg checker db size first st read).0 h2 in
        (
          size,
          (query_max_binlog_size_iff db size).0 sized,
          first,
          (read, host, port),
          now,
          λ e. wait_loop-CatchesUp db size (allowed_slow_bytes cfg) 11 0 st (later e),
        )

    from :
        IsWaitedFor cfg checker db st
        → wait_repl_pos_delay cfg checker db cfg.ignore_slave_delay ≡ ok st
    from (size, sized, first, (read, host, port), now, later) =
        rw ((query_max_binlog_size_iff db size).1 sized, ◌>>=◌, read, ◌>>=◌)
          ((after_first_iff cfg checker db size first st read).1 (
            host,
            port,
            now,
            λ e.
                let (k, near, c) = later e in
                CatchesUp-wait_loop db size (allowed_slow_bytes cfg) 11 0 k st near c,
          ))

-- Two steps that each may be left out.
steps_iff :
    (skip skip' : Bool) (m n : Checked (Unit {0}))
    → (((if skip then ok tt else m) >>= λ _. if skip' then ok tt else n) ≡ ok tt)
      ↔ (skip ≡ false → m ≡ ok tt) × (skip' ≡ false → n ≡ ok tt)
steps_iff true skip' m n = ground arith
steps_iff false skip' (fail why) n = ground arith
steps_iff false skip' (ok x) n = ground arith

pub check-ok_iff :
    (cfg : SlaveLimits) (checker : MySqlSlaveChecker) (db : SlaveDb)
    → (check cfg checker db ≡ ok tt) ↔ MayTakeOver cfg checker db
unfolding check check_connected run_repl_time_delay
check-ok_iff cfg checker db = (to, from)
  where
    to : check cfg checker db ≡ ok tt → MayTakeOver cfg checker db
    to h = elim (Bool-cases db.connects) [
      | inl e ↦
          (let connected : check_connected cfg checker db ≡ ok tt = unfold check in ground arith in
            let (st, waited, rest) =
              ok_of_bind (wait_repl_pos_delay cfg checker db cfg.ignore_slave_delay) _ connected in
            let (sum, delay) = (steps_iff _ _ _ _).0 rest in
            record {
              connects = e;
              status = st;
              waited_for = (wait_repl_pos_delay_iff cfg checker db st).0 waited;
              summed = λ p. (run_slave_check_sum_iff cfg db).0 (sum p);
              recent = λ p. (check_seconds_behind_master_iff cfg _).0 (delay p);
            })
      | inr e ↦ ground arith
    ]

    from : MayTakeOver cfg checker db → check cfg checker db ≡ ok tt
    from may =
        ap (λ b. if not b then fail connect_failed else check_connected cfg checker db) may.connects
        ∙ rw ((wait_repl_pos_delay_iff cfg checker db may.status).1 may.waited_for, ◌>>=◌)
            ((steps_iff _ _ _ _).1 (
              λ p. (run_slave_check_sum_iff cfg db).1 (may.summed p),
              λ p. (check_seconds_behind_master_iff cfg _).1 (may.recent p),
            ))
