-- ===== src/Switch/Single/Protocol.antt =====
-- A run of `SwitchSingleInstance` keeps to the protocol and ends with the lock released.
use dbha.Prelude.{
  Bool-cases, if◌then◌else◌, ap, ◌∙◌, inl, inr, nat_beq, ℕ, List, ◌∷◌, [], Option, none, some, Bool,
  true, false, Text, ◌≡◌, arith, beq_refl, text_eq, refl,
}
use dbha.Failure.{generate_cluster_key}
use dbha.Switch.{
  switch_failed, update_meta_failed, final_failed, set_unavailable_failed, Event, set_unavailable,
  unlocked, switched, updated_meta, finalized, SwitchError, Context, Locks, SwitchableInstance,
  guarded, attempt, Phase, ready, announced, locked, passed, moved, updated, final, released,
  phase_of, switch_not_needed, switch_check_unpass,
}
use dbha.Switch.Steps.{
  ok_of, err_if_ctx_done_lem, guarded_lem, lock_cluster_with_timeout_lem, Returned, last_phase,
  attempt_lem, attempt_error, on_return_lem, on_return_error,
}
use dbha.Switch.Single.{
  check_before, check_status, set_status, do_check_before_instance_switch,
  do_switch_in_instance_switch, do_update_meta_info_in_instance_switch, do_final_in_instance_switch,
  switch_steps, after_check, switch_locked, switch_body, switch_single_instance,
}

switch_steps_lem :
    (ctx : Context) (ins : SwitchableInstance) (key : Text) (t : List Event) (code : ℕ)
    → nat_beq code switch_not_needed ≡ false
    → nat_beq code switch_check_unpass ≡ false
    → phase_of key t ≡ some (passed code)
    → let r = switch_steps ctx ins t in
      (phase_of key (unlocked key ∷ r.1) ≡ some (released r.0.0)) × (ok_of r.0.1 ≡ r.0.0)
unfolding switch_steps attempt do_switch_in_instance_switch do_update_meta_info_in_instance_switch
    do_final_in_instance_switch phase_of
switch_steps_lem ctx ins key t code n u h = ground (
  arith,
  beq_refl key,
  guarded_lem ctx ins.calls.do_switch switched switch_failed key t (passed code) moved
      (rw (n, u) refl) (rw (n, u) refl) h,
  guarded_lem ctx ins.calls.update_meta_info updated_meta update_meta_failed key
      (guarded ctx ins.calls.do_switch switched switch_failed t).1 moved updated refl refl,
  guarded_lem ctx ins.calls.do_final finalized final_failed key
      (guarded ctx ins.calls.update_meta_info updated_meta update_meta_failed
        (guarded ctx ins.calls.do_switch switched switch_failed t).1).1
      updated final refl refl,
)

-- The trace and the code that a check leaves, where the lock is held.
record Checked (key : Text) (c : ℕ × Option SwitchError) (t : List Event) : Type 0 where
  failing :
      nat_beq c.0 switch_check_unpass ≡ true
      → (phase_of key (unlocked key ∷ t) ≡ some (released false)) × (ok_of c.1 ≡ false)
  needless :
      nat_beq c.0 switch_not_needed ≡ true
      → (phase_of key (unlocked key ∷ t) ≡ some (released true)) × (ok_of c.1 ≡ true)
  required :
      nat_beq c.0 switch_not_needed ≡ false
      → nat_beq c.0 switch_check_unpass ≡ false
      → phase_of key t ≡ some (passed c.0)

after_check_lem :
    (ctx : Context) (ins : SwitchableInstance) (key : Text) (c : ℕ × Option SwitchError)
    (t : List Event)
    → Checked key c t
    → let r = after_check ctx ins c t in
      (phase_of key (unlocked key ∷ r.1) ≡ some (released r.0.0)) × (ok_of r.0.1 ≡ r.0.0)
unfolding after_check
after_check_lem ctx ins key (c, err) t h = elim (Bool-cases (nat_beq c switch_check_unpass)) [
  | inl u ↦ rw u (h.failing u)
  | inr u ↦ elim (Bool-cases (nat_beq c switch_not_needed)) [
    | inl n ↦ rw (u, n) (h.needless n)
    | inr n ↦ rw (u, n) (switch_steps_lem ctx ins key t c n u (h.required n u))
  ]
]

do_check_lem :
    (ctx : Context) (ins : SwitchableInstance) (key : Text) (t : List Event)
    → phase_of key t ≡ some locked
    → let r = do_check_before_instance_switch ctx ins t in Checked key r.0 r.1
unfolding do_check_before_instance_switch check_before phase_of
do_check_lem ctx ins key t h = record {
  failing = λ u. ground (arith, u, beq_refl key, err_if_ctx_done_lem ctx key t);
  needless = λ u. ground (arith, u, beq_refl key, err_if_ctx_done_lem ctx key t);
  required = λ u v. ground (arith, u, v, err_if_ctx_done_lem ctx key t);
}

switch_locked_lem :
    (ctx : Context) (ins : SwitchableInstance) (key : Text) (t : List Event)
    → phase_of key t ≡ some locked
    → let r = switch_locked ctx ins key t in
      (phase_of key r.1 ≡ some (released r.0.0)) × (ok_of r.0.1 ≡ r.0.0)
unfolding switch_locked
switch_locked_lem ctx ins key t h = after_check_lem ctx ins key _ _ (do_check_lem ctx ins key t h)

switch_locked-Returned :
    (key : Text) (r : (Bool × Option SwitchError) × List Event)
    → phase_of key r.1 ≡ some (released r.0.0)
    → Returned key r
unfolding Returned
switch_locked-Returned key ((true, err), t) h = h
switch_locked-Returned key ((false, err), t) h = (released false, h, refl)

check_status_lem :
    (ctx : Context) (ins : SwitchableInstance) (key : Text) (t : List Event)
    → phase_of key (check_status ctx ins t).1 ≡ phase_of key t
unfolding check_status
check_status_lem ctx ins key t = ground (arith, err_if_ctx_done_lem ctx key t)

if_same : (b : Bool) (p : Phase) → p ≡ (if b then p else p)
if_same true p = refl
if_same false p = refl

switch_body_lem :
    (ctx : Context) (locks : Locks) (ins : SwitchableInstance)
    → Returned (generate_cluster_key ins.bk_cloud_id ins.cluster_id) (switch_body ctx locks ins [])
unfolding switch_body set_status phase_of
switch_body_lem ctx locks ins =
    let key = generate_cluster_key ins.bk_cloud_id ins.cluster_id in
    attempt_lem key _ _ ready ready (check_status_lem ctx ins key [] ∙ ap some (if_same _ ready))
      refl
      (λ t1 h1.
        attempt_lem key _ _ ready announced
          (guarded_lem ctx ins.calls.set_instance_unavailable set_unavailable set_unavailable_failed
            key t1 ready announced refl refl h1)
          refl
          (λ t2 h2.
            attempt_lem key _ _ announced announced
              (err_if_ctx_done_lem ctx key t2 ∙ h2 ∙ ap some (if_same _ announced)) refl
              (λ t3 h3.
                attempt_lem key _ _ announced locked (lock_cluster_with_timeout_lem locks key t3 h3)
                  refl
                  (λ t4 h4. switch_locked-Returned key _ (switch_locked_lem ctx ins key t4 h4).0))))

switch_steps_error :
    (ctx : Context) (ins : SwitchableInstance) (t : List Event)
    → (switch_steps ctx ins t).0.0 ≡ true
    → (switch_steps ctx ins t).0.1 ≡ none
unfolding switch_steps
switch_steps_error ctx ins t =
    attempt_error _ _ (λ t1. attempt_error _ _ (λ t2. attempt_error _ _ (λ t3 h. refl)))

after_check_error :
    (ctx : Context) (ins : SwitchableInstance) (c : ℕ × Option SwitchError) (t : List Event)
    → (nat_beq c.0 switch_not_needed ≡ true → c.1 ≡ none)
    → (after_check ctx ins c t).0.0 ≡ true
    → (after_check ctx ins c t).0.1 ≡ none
unfolding after_check
after_check_error ctx ins (c, err) t h = elim (Bool-cases (nat_beq c switch_check_unpass)) [
  | inl u ↦ rw u (λ e. cc)
  | inr u ↦ elim (Bool-cases (nat_beq c switch_not_needed)) [
    | inl n ↦ rw (u, n) (λ e. h n)
    | inr n ↦ rw (u, n) (switch_steps_error ctx ins t)
  ]
]

check_error :
    (ctx : Context) (ins : SwitchableInstance) (t : List Event)
    → let c = (do_check_before_instance_switch ctx ins t).0 in
      nat_beq c.0 switch_not_needed ≡ true → c.1 ≡ none
unfolding do_check_before_instance_switch check_before
check_error ctx ins t h = ground arith

switch_locked_error :
    (ctx : Context) (ins : SwitchableInstance) (key : Text) (t : List Event)
    → (switch_locked ctx ins key t).0.0 ≡ true
    → (switch_locked ctx ins key t).0.1 ≡ none
unfolding switch_locked
switch_locked_error ctx ins key t = after_check_error ctx ins _ _ (check_error ctx ins t)

body_error :
    (ctx : Context) (locks : Locks) (ins : SwitchableInstance)
    → let r = switch_body ctx locks ins [] in r.0.0 ≡ true → r.0.1 ≡ none
unfolding switch_body
body_error ctx locks ins = attempt_error _ _ (λ t1.
    attempt_error _ _
      (λ t2. attempt_error _ _ (λ t3. attempt_error _ _ (λ t4. switch_locked_error ctx ins _ t4))))

-- Whatever the context, the lock and the instance answer, a run of `SwitchSingleInstance` keeps to
-- the protocol: unavailable first, then the lock, the check, the switch, the metadata and the last
-- step, each at most once and only after the one before has succeeded; no switch after a check that
-- says that none is needed or that does not pass. A success ends with the lock released and without
-- a rollback, a failure ends with one rollback, made after a lock that was taken is released. An
-- error is returned exactly on failure.
pub switch_single_instance_lem :
    (ctx : Context) (locks : Locks) (ins : SwitchableInstance)
    → let key = generate_cluster_key ins.bk_cloud_id ins.cluster_id in
      let ((success, err), t) = switch_single_instance ctx locks ins [] in
      (phase_of key t ≡ some (last_phase success)) × (ok_of err ≡ success)
unfolding switch_single_instance
switch_single_instance_lem ctx locks ins =
    let key = generate_cluster_key ins.bk_cloud_id ins.cluster_id in
    let ((success, err), t) = switch_body ctx locks ins [] in
    (
      (on_return_lem ins.calls.roll_back key (success, err) t (switch_body_lem ctx locks ins)).0,
      on_return_error ins.calls.roll_back (success, err) t (body_error ctx locks ins),
    )
