-- ===== src/Switch/Cluster/Protocol.antt =====
-- A run of `SwitchSameClusterInstances` keeps to the protocol and ends with the lock released.
use dbha.Prelude.{
  Bool-cases, if◌then◌else◌, ap, ◌∙◌, inl, inr, nat_beq, ℕ, List, ◌∷◌, [], Option, none, some, Bool,
  true, false, Text, ◌≡◌, ◌≢◌, arith, beq_refl, text_eq, refl,
}
use dbha.Failure.{generate_cluster_key}
use dbha.Switch.{
  switch_failed, update_meta_failed, final_failed, cluster_unavailable_failed, Event,
  set_unavailable, unlocked, switched, updated_meta, finalized, SwitchError, Context, Locks,
  SwitchableCluster, guarded, attempt, on_return, Phase, ready, announced, locked, passed, moved,
  updated, final, released, phase_of, switch_not_needed, switch_check_unpass,
}
use dbha.Switch.Steps.{
  err_if_ctx_done_lem, guarded_lem, lock_cluster_with_timeout_lem, Returned, last_phase,
  attempt_lem, on_return_lem,
}
use dbha.Switch.Cluster.{
  check_status, set_status, do_check_before_cluster_switch, do_switch_in_cluster_switch,
  do_update_meta_info_in_cluster_switch, do_final_in_cluster_switch, switch_steps, after_check,
  switch_locked, switch_body, switch_same_cluster_instances,
}

switch_steps_lem :
    (ctx : Context) (cluster : SwitchableCluster) (key : Text) (t : List Event) (code : ℕ)
    → nat_beq code switch_not_needed ≡ false
    → nat_beq code switch_check_unpass ≡ false
    → phase_of key t ≡ some (passed code)
    → let r = switch_steps ctx cluster t in
      phase_of key (unlocked key ∷ r.1) ≡ some (released r.0.0)
unfolding switch_steps attempt do_switch_in_cluster_switch do_update_meta_info_in_cluster_switch
    do_final_in_cluster_switch phase_of
switch_steps_lem ctx cluster key t code n u h = ground (
  arith,
  beq_refl key,
  guarded_lem ctx cluster.calls.do_switch switched switch_failed key t (passed code) moved
      (rw (n, u) refl) (rw (n, u) refl) h,
  guarded_lem ctx cluster.calls.update_meta_info updated_meta update_meta_failed key
      (guarded ctx cluster.calls.do_switch switched switch_failed t).1 moved updated refl refl,
  guarded_lem ctx cluster.calls.do_final finalized final_failed key
      (guarded ctx cluster.calls.update_meta_info updated_meta update_meta_failed
        (guarded ctx cluster.calls.do_switch switched switch_failed t).1).1
      updated final refl refl,
)

-- The trace and the code that a check leaves, where the lock is held.
record Checked (key : Text) (c : ℕ × Option SwitchError) (t : List Event) : Type 0 where
  failing :
      nat_beq c.0 switch_check_unpass ≡ true
      → phase_of key (unlocked key ∷ t) ≡ some (released false)
  needless :
      nat_beq c.0 switch_not_needed ≡ true → phase_of key (unlocked key ∷ t) ≡ some (released true)
  required :
      nat_beq c.0 switch_not_needed ≡ false
      → nat_beq c.0 switch_check_unpass ≡ false
      → phase_of key t ≡ some (passed c.0)

after_check_lem :
    (ctx : Context) (cluster : SwitchableCluster) (key : Text) (c : ℕ × Option SwitchError)
    (t : List Event)
    → Checked key c t
    → let r = after_check ctx cluster c t in
      phase_of key (unlocked key ∷ r.1) ≡ some (released r.0.0)
unfolding after_check
after_check_lem ctx cluster key (c, err) t h = elim (Bool-cases (nat_beq c switch_check_unpass)) [
  | inl u ↦ rw u (h.failing u)
  | inr u ↦ elim (Bool-cases (nat_beq c switch_not_needed)) [
    | inl n ↦ rw (u, n) (h.needless n)
    | inr n ↦ rw (u, n) (switch_steps_lem ctx cluster key t c n u (h.required n u))
  ]
]

do_check_lem :
    (ctx : Context) (cluster : SwitchableCluster) (key : Text) (t : List Event)
    → phase_of key t ≡ some locked
    → let r = do_check_before_cluster_switch ctx cluster t in Checked key r.0 r.1
unfolding do_check_before_cluster_switch phase_of
do_check_lem ctx cluster key t h = record {
  failing = λ u. ground (arith, u, beq_refl key, err_if_ctx_done_lem ctx key t);
  needless = λ u. ground (arith, u, beq_refl key, err_if_ctx_done_lem ctx key t);
  required = λ u v. ground (arith, u, v, err_if_ctx_done_lem ctx key t);
}

switch_locked_lem :
    (ctx : Context) (cluster : SwitchableCluster) (key : Text) (t : List Event)
    → phase_of key t ≡ some locked
    → let r = switch_locked ctx cluster key t in phase_of key r.1 ≡ some (released r.0.0)
unfolding switch_locked
switch_locked_lem ctx cluster key t h =
    after_check_lem ctx cluster key _ _ (do_check_lem ctx cluster key t h)

switch_locked-Returned :
    (key : Text) (r : (Bool × Option SwitchError) × List Event)
    → phase_of key r.1 ≡ some (released r.0.0)
    → Returned key r
unfolding Returned
switch_locked-Returned key ((true, err), t) h = h
switch_locked-Returned key ((false, err), t) h = (released false, h, refl)

check_status_lem :
    (ctx : Context) (cluster : SwitchableCluster) (key : Text) (t : List Event)
    → phase_of key (check_status ctx cluster t).1 ≡ phase_of key t
unfolding check_status
check_status_lem ctx cluster key t = ground (arith, err_if_ctx_done_lem ctx key t)

if_same : (b : Bool) (p : Phase) → p ≡ (if b then p else p)
if_same true p = refl
if_same false p = refl

switch_body_lem :
    (ctx : Context) (locks : Locks) (cluster : SwitchableCluster)
    → Returned
        (generate_cluster_key cluster.bk_cloud_id cluster.cluster_id)
        (switch_body ctx locks cluster [])
unfolding switch_body set_status phase_of
switch_body_lem ctx locks cluster =
    let key = generate_cluster_key cluster.bk_cloud_id cluster.cluster_id in
    attempt_lem key _ _ ready ready
      (check_status_lem ctx cluster key [] ∙ ap some (if_same _ ready)) refl
      (λ t1 h1.
        attempt_lem key _ _ ready announced
          (guarded_lem ctx cluster.calls.set_instance_unavailable set_unavailable
            cluster_unavailable_failed key t1 ready announced refl refl h1)
          refl
          (λ t2 h2.
            attempt_lem key _ _ announced announced
              (err_if_ctx_done_lem ctx key t2 ∙ h2 ∙ ap some (if_same _ announced)) refl
              (λ t3 h3.
                attempt_lem key _ _ announced locked (lock_cluster_with_timeout_lem locks key t3 h3)
                  refl
                  (λ t4 h4.
                    switch_locked-Returned key _ (switch_locked_lem ctx cluster key t4 h4)))))

error_on_failure :
    (roll_back : List Event → Option Text) (r : Bool × Option SwitchError) (t : List Event)
    → (on_return roll_back r t).0.0 ≡ false
    → (on_return roll_back r t).0.1 ≢ none
unfolding on_return
error_on_failure roll_back (true, err) t h = cc
error_on_failure roll_back (false, err) t h = ground arith

-- Whatever the context, the lock and the cluster answer, a run of `SwitchSameClusterInstances` keeps
-- to the protocol of a switch. A success ends with the lock released and without a rollback; a
-- failure ends with one rollback, made after a lock that was taken is released, and with an error.
pub switch_same_cluster_instances_lem :
    (ctx : Context) (locks : Locks) (cluster : SwitchableCluster)
    → let key = generate_cluster_key cluster.bk_cloud_id cluster.cluster_id in
      let ((success, err), t) = switch_same_cluster_instances ctx locks cluster [] in
      (phase_of key t ≡ some (last_phase success)) × (success ≡ false → err ≢ none)
unfolding switch_same_cluster_instances
switch_same_cluster_instances_lem ctx locks cluster =
    let key = generate_cluster_key cluster.bk_cloud_id cluster.cluster_id in
    let ((success, err), t) = switch_body ctx locks cluster [] in
    (
      (on_return_lem cluster.calls.roll_back key (success, err) t
          (switch_body_lem ctx locks cluster)).0,
      error_on_failure cluster.calls.roll_back (success, err) t,
    )
