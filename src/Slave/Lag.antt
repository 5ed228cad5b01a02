-- ===== src/Slave/Lag.antt =====
-- `CalSlowBytes`: its arithmetic in uint64 against the backlog in kilobytes.
use dbha.Prelude.{ℕ, ◌+◌, ◌-◌, ◌*◌, ◌/◌, ◌%◌, ◌^◌, ◌≤◌, ◌<◌, ◌≡◌, ◌↔◌, arith, pos}
use dbha.Slave.{SlaveStatusPartialInfo, cal_slow_bytes}

-- The uint64 arithmetic, with `low` the files' kilobytes per file.
wrapped_files :
    (relay files : ℕ)
    → relay + files < 2 ^ 63
    → ((relay + files + 0) + 2 ^ 64 - (relay + 0)) % 2 ^ 64 ≡ files
wrapped_files relay files h = omega arith

wrapped_sum :
    (x r e allowed : ℕ)
    → e < 2 ^ 54
    → x + r < 2 ^ 63
    → allowed < 2 ^ 63
    → (((x + 2 ^ 64 - e) % 2 ^ 64 + r) % 2 ^ 64 ≤ allowed) ↔ (e ≤ x + r) × (x + r ≤ e + allowed)
wrapped_sum x r e allowed h h1 h2 = (λ p. (omega arith, omega arith), λ p. omega arith)

-- Where the logs' indexes are not negative and the master's is `files` past the relay's, with less
-- than 2 ^ 63 kilobytes before the read position: the lag is allowed exactly if the slave has not
-- executed past what it has read, and what is left is at most the allowed number of kilobytes.
pub cal_slow_bytes-le_iff :
    (st : SlaveStatusPartialInfo) (size relay files allowed : ℕ)
    → st.relay_master_log_file_index ≡ pos relay
    → st.master_log_file_index ≡ pos (relay + files)
    → relay + files < 2 ^ 63
    → st.exec_master_log_pos < 2 ^ 64
    → files * (size / 1024) + st.read_master_log_pos / 1024 < 2 ^ 63
    → allowed < 2 ^ 63
    → (cal_slow_bytes st size ≤ allowed)
      ↔ (st.exec_master_log_pos / 1024 ≤ files * (size / 1024) + st.read_master_log_pos / 1024)
        × (files * (size / 1024) + st.read_master_log_pos / 1024
            ≤ st.exec_master_log_pos / 1024 + allowed)
unfolding cal_slow_bytes
cal_slow_bytes-le_iff st size relay files allowed hr hm h h1 h2 h3 =
    rw (hr, hm, wrapped_files relay files h)
      (wrapped_sum (files * (size / 1024)) (st.read_master_log_pos / 1024)
        (st.exec_master_log_pos / 1024) allowed (omega arith) h2 h3)
