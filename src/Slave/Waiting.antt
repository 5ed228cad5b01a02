-- ===== src/Slave/Waiting.antt =====
-- `WaitReplPosDelay`: which status ends the wait.
use dbha.Prelude.{
  ℕ, suc, zero, ◌+◌, ◌≤◌, ◌<◌, ◌≡◌, refl, subst, inl, inr, leb, arith, Bool-cases, if◌then◌else◌,
  ok, ok_of_bind, ◌>>=◌,
}
use dbha.Slave.{SlaveStatusPartialInfo, SlaveDb, get_slave_status_partial_info, cal_slow_bytes}
use dbha.Slave.Checks.{wait_loop}

module _ (db : SlaveDb) (size allowed : ℕ) where
  -- The n-th answer can be read, and is too far behind.
  abbrev pub IsLagging : ℕ → Type 0
  IsLagging n =
      (st : SlaveStatusPartialInfo) × (get_slave_status_partial_info db n ≡ ok st)
      × (allowed < cal_slow_bytes st size)

  -- The answer `st`, `k` questions after the n-th, is the first that is not too far behind.
  abbrev pub CatchesUp : (n k : ℕ) → SlaveStatusPartialInfo → Type 0
  CatchesUp n k st =
      (get_slave_status_partial_info db (n + k) ≡ ok st)
      × (cal_slow_bytes st size ≤ allowed)
      × ((j : ℕ) → j < k → IsLagging (n + j))

  pub CatchesUp-suc :
      (n k : ℕ) (st : SlaveStatusPartialInfo)
      → IsLagging n
      → CatchesUp (suc n) k st
      → CatchesUp n (suc k) st
  CatchesUp-suc n k st lag (at, low, before) =
      (subst (λ i. get_slave_status_partial_info db i ≡ ok st) (omega arith) at, low, earlier)
    where
      earlier : (j : ℕ) → j < suc k → IsLagging (n + j)
      earlier zero h = subst IsLagging (omega arith) lag
      earlier (suc j) h = subst IsLagging (omega arith) (before j (omega arith))

  pub CatchesUp-pred :
      (n k : ℕ) (st : SlaveStatusPartialInfo) → CatchesUp n (suc k) st → CatchesUp (suc n) k st
  CatchesUp-pred n k st (at, low, before) = (
    subst (λ i. get_slave_status_partial_info db i ≡ ok st) (omega arith) at,
    low,
    λ j h. subst IsLagging (omega arith) (before (suc j) (omega arith)),
  )

  -- The loop ends well exactly at the first answer in time that is not too far behind.
  pub wait_loop-CatchesUp :
      (left n : ℕ) (st : SlaveStatusPartialInfo)
      → wait_loop db size allowed left n ≡ ok st
      → (k : ℕ) × (k < left) × CatchesUp n k st
  unfolding wait_loop
  wait_loop-CatchesUp zero n st h = cc
  wait_loop-CatchesUp (suc left) n st h =
      let (s, read, rest) = ok_of_bind (get_slave_status_partial_info db n) _ h in
      elim (Bool-cases (leb (cal_slow_bytes s size) allowed)) [
        | inl e ↦
            let same : s ≡ st = ground arith in
            let at : get_slave_status_partial_info db (n + 0) ≡ ok st = ground arith in
            (0, omega arith, (at, ground arith, λ j k. elim k [ ]))
        | inr e ↦
            let (k, more, c) = wait_loop-CatchesUp left (suc n) st (ground arith) in
            (suc k, omega arith, CatchesUp-suc n k st (s, read, ground arith) c)
      ]

  pub CatchesUp-wait_loop :
      (left n k : ℕ) (st : SlaveStatusPartialInfo)
      → k < left
      → CatchesUp n k st
      → wait_loop db size allowed left n ≡ ok st
  unfolding wait_loop
  CatchesUp-wait_loop zero n k st h c = elim h [ ]
  CatchesUp-wait_loop (suc left) n zero st h (at, low, before) =
      let now : get_slave_status_partial_info db n ≡ ok st = ground arith in
      rw (now, ◌>>=◌) (ground arith)
  CatchesUp-wait_loop (suc left) n (suc k) st h c =
      let (s, read, far) = c.2 0 (omega arith) in
      let now : get_slave_status_partial_info db n ≡ ok s = ground arith in
      rw (now, ◌>>=◌)
        (ground
          (arith, CatchesUp-wait_loop left (suc n) k st (omega arith) (CatchesUp-pred n k st c)))

  pub wait_loop-suc :
      (left n : ℕ) (st : SlaveStatusPartialInfo)
      → get_slave_status_partial_info db n ≡ ok st
      → wait_loop db size allowed (suc left) n ≡ (
          if leb (cal_slow_bytes st size) allowed
          then ok st
          else wait_loop db size allowed left (suc n))
  unfolding wait_loop
  wait_loop-suc left n st e = rw (e, ◌>>=◌) refl
