-- ===== src/Window/Once.antt =====
-- An instance that has been popped is not popped again for its business before it is released.
use dbha.Prelude.{
  ℕ, ◌+◌, ◌<◌, ◌≤◌, ◌≡◌, ◌≢◌, refl, ◌∙◌, List, [], ◌∷◌, none, some, Bool, true, false, Text, lookup,
  delete, All, All_mem, arith, Bool-cases, ◌==◌, text_eq, nat_eq, text_beq_iff, inl, inr,
  lookup-delete_ne, any, mem_of_any,
}
use dbha.Failure.{FailureInstanceInfo, window_key_of}
use dbha.Window.{
  FailureWindowEntry, BizWindowManager, push, push_into_window, get_or_create_window,
  pop_and_mark_start, mark_done, store_or_drop, matured,
}
use dbha.Window.Manager.{
  entry_at, ManagerIsValid, push-refused_iff, push_refused_same, entry_at-push,
}
use dbha.Window.Popping.{pop_and_mark_start_lem, popped-All, pop_and_mark_start-ManagerIsValid}
use dbha.Window.Inflight.{
  Call, pushes, pops, dones, after_call, run_calls, after_call-ManagerIsValid,
  inflight-pop_and_mark_start,
}

push_into_window_rest :
    (m : BizWindowManager) (biz : ℕ) (inst : FailureInstanceInfo) (at : ℕ)
    → let p = push_into_window m biz inst at in
      (p.inflight ≡ m.inflight) × (p.inflight_ttl ≡ m.inflight_ttl)
unfolding push_into_window get_or_create_window
push_into_window_rest m biz inst at = ground arith

inflight-push :
    (m : BizWindowManager) (clock biz : ℕ) (inst : FailureInstanceInfo) (at : ℕ) (k : Text)
    → window_key_of inst ≢ k
    → let p = (push m clock biz inst at).0 in
      (lookup k p.inflight ≡ lookup k m.inflight) × (p.inflight_ttl ≡ m.inflight_ttl)
unfolding push
inflight-push m clock biz inst at k h = ground (
  arith,
  push_into_window_rest m biz inst at,
  push_into_window_rest (record m { inflight = delete (window_key_of inst) m.inflight }) biz inst
      at,
  lookup-delete_ne (window_key_of inst) k m.inflight h,
)

ttl-pop_and_mark_start :
    (m : BizWindowManager) (biz now : ℕ)
    → (pop_and_mark_start m biz now).1.inflight_ttl ≡ m.inflight_ttl
unfolding pop_and_mark_start store_or_drop
ttl-pop_and_mark_start m biz now = ground arith

-- The instance is marked since `t` or later, and stands in no window of the business.
record IsHeld (k : Text) (biz t ttl : ℕ) (m : BizWindowManager) : Type 0 where
  valid : ManagerIsValid m
  ttl_same : m.inflight_ttl ≡ ttl
  marked : (s : ℕ) × (lookup k m.inflight ≡ some s) × (t ≤ s)
  gone : entry_at m biz k ≡ none

-- A call that does not release the instance: pushes before the mark's end, pops not before `t`,
-- and `MarkDone` of other instances.
abbrev pub Keeps : Text → ℕ → ℕ → Call → Type 0
Keeps k t ttl (pushes clock biz inst at) = clock < t + ttl
Keeps k t ttl (pops biz now) = t ≤ now
Keeps k t ttl (dones key) = key ≢ k

push-IsHeld :
    (k : Text) (biz t ttl : ℕ) (m : BizWindowManager) (clock b : ℕ) (inst : FailureInstanceInfo)
    (at : ℕ)
    → clock < t + ttl
    → IsHeld k biz t ttl m
    → IsHeld k biz t ttl (after_call m (pushes clock b inst at))
unfolding after_call
push-IsHeld k biz t ttl m clock b inst at before h = elim (Bool-cases (push m clock b inst at).1) [
  | inl taken ↦
      let other : window_key_of inst ≢ k = λ same. absurd (not_taken same taken) in
      let (i, l) = inflight-push m clock b inst at k other in
      let (s, mark, le) = h.marked in
      record {
        valid = after_call-ManagerIsValid m (pushes clock b inst at) h.valid;
        ttl_same = l ∙ h.ttl_same;
        marked = (s, i ∙ mark, le);
        gone =
            entry_at-push m clock b inst at biz k taken
            ∙ ground (arith, h.gone, text_beq_iff (window_key_of inst) k, other);
      }
  | inr refused ↦ rw (push_refused_same m clock b inst at refused) h
]
  where
    not_taken : window_key_of inst ≡ k → (push m clock b inst at).1 ≡ true → ⊥
    not_taken same taken =
        let (s, mark, le) = h.marked in
        let refused : (push m clock b inst at).1 ≡ false =
          (push-refused_iff m clock b inst at).1 (s, rw same mark, omega (arith, h.ttl_same)) in
        cc (refused, taken)

pop-IsHeld :
    (k : Text) (biz t ttl : ℕ) (m : BizWindowManager) (b now : ℕ)
    → t ≤ now
    → IsHeld k biz t ttl m
    → IsHeld k biz t ttl (after_call m (pops b now))
unfolding after_call
pop-IsHeld k biz t ttl m b now after h = record {
  valid = unfold after_call in after_call-ManagerIsValid m (pops b now) h.valid;
  ttl_same = ttl-pop_and_mark_start m b now ∙ h.ttl_same;
  marked = remark (any (λ e. window_key_of e.inst == k) (pop_and_mark_start m b now).0) refl;
  gone = (pop_and_mark_start_lem m b now h.valid).2 biz k ∙ ground (arith, h.gone);
}
  where
    remark :
        (c : Bool)
        → any (λ e. window_key_of e.inst == k) (pop_and_mark_start m b now).0 ≡ c
        → (s : ℕ) × (lookup k (pop_and_mark_start m b now).1.inflight ≡ some s) × (t ≤ s)
    remark true e = (now, rw (inflight-pop_and_mark_start m b now k, e) refl, after)
    remark false e =
        let (s, at, le) = h.marked in (s, rw (inflight-pop_and_mark_start m b now k, e) at, le)

done-IsHeld :
    (k : Text) (biz t ttl : ℕ) (m : BizWindowManager) (key : Text)
    → key ≢ k
    → IsHeld k biz t ttl m
    → IsHeld k biz t ttl (after_call m (dones key))
unfolding after_call mark_done entry_at
done-IsHeld k biz t ttl m key other h =
    let (s, mark, le) = h.marked in
    record {
      valid = record { distinct = h.valid.distinct; each = h.valid.each };
      ttl_same = h.ttl_same;
      marked = (s, lookup-delete_ne key k m.inflight other ∙ mark, le);
      gone = h.gone;
    }

run_calls-IsHeld :
    (k : Text) (biz t ttl : ℕ) (m : BizWindowManager) (cs : List Call)
    → All (Keeps k t ttl) cs
    → IsHeld k biz t ttl m
    → IsHeld k biz t ttl (run_calls m cs)
unfolding run_calls
run_calls-IsHeld k biz t ttl m [] q h = h
run_calls-IsHeld k biz t ttl m (pushes clock b inst at ∷ cs) q h =
    run_calls-IsHeld k biz t ttl (after_call m (pushes clock b inst at)) cs q.1
      (push-IsHeld k biz t ttl m clock b inst at q.0 h)
run_calls-IsHeld k biz t ttl m (pops b now ∷ cs) q h =
    run_calls-IsHeld k biz t ttl (after_call m (pops b now)) cs q.1
      (pop-IsHeld k biz t ttl m b now q.0 h)
run_calls-IsHeld k biz t ttl m (dones key ∷ cs) q h =
    run_calls-IsHeld k biz t ttl (after_call m (dones key)) cs q.1
      (done-IsHeld k biz t ttl m key q.0 h)

-- The popped list holds the instance of the key.
abbrev pub is_popped : Text → List FailureWindowEntry → Bool
is_popped k = any (λ e. window_key_of e.inst == k)

abbrev Popped : BizWindowManager → ℕ → ℕ → FailureWindowEntry → Type 0
Popped m biz now e =
    (entry_at m biz (window_key_of e.inst) ≡ some e) × (matured m.window_duration now e ≡ true)

popped_was_there :
    (k : Text) (biz now : ℕ) (m : BizWindowManager)
    → ManagerIsValid m
    → is_popped k (pop_and_mark_start m biz now).0 ≡ true
    → entry_at m biz k ≢ none
popped_was_there k biz now m v h gone =
    let (e, mem, test) =
      mem_of_any (λ x. window_key_of x.inst == k) (pop_and_mark_start m biz now).0 h in
    let (at, ripe) =
      All_mem (Popped m biz now) (popped-All m biz now (Popped m biz now) (λ x p q. (p, q)) v)
        mem in
    ground (arith, at, gone, test, text_beq_iff (window_key_of e.inst) k)

popped-IsHeld :
    (k : Text) (biz now : ℕ) (m : BizWindowManager)
    → ManagerIsValid m
    → is_popped k (pop_and_mark_start m biz now).0 ≡ true
    → IsHeld k biz now m.inflight_ttl (pop_and_mark_start m biz now).1
popped-IsHeld k biz now m v h =
    let (e, mem, test) =
      mem_of_any (λ x. window_key_of x.inst == k) (pop_and_mark_start m biz now).0 h in
    let (at, ripe) =
      All_mem (Popped m biz now) (popped-All m biz now (Popped m biz now) (λ x p q. (p, q)) v)
        mem in
    record {
      valid = pop_and_mark_start-ManagerIsValid m biz now v;
      ttl_same = ttl-pop_and_mark_start m biz now;
      marked = (now, rw (inflight-pop_and_mark_start m biz now k, h) refl, omega arith);
      gone =
          (pop_and_mark_start_lem m biz now v).2 biz k
          ∙ ground (arith, at, ripe, test, text_beq_iff (window_key_of e.inst) k);
    }

-- Once an instance has been popped for switching from a well-formed manager, no later pop of its
-- business returns it, whatever calls the loops make in between, as long as the clock has not gone
-- back before the pop, no push comes after the mark's time to live, and `MarkDone` has not been called
-- for it.
pub pop_once :
    (m : BizWindowManager) (biz now : ℕ) (k : Text) (cs : List Call) (later : ℕ)
    → ManagerIsValid m
    → is_popped k (pop_and_mark_start m biz now).0 ≡ true
    → All (Keeps k now m.inflight_ttl) cs
    → is_popped k (pop_and_mark_start (run_calls (pop_and_mark_start m biz now).1 cs) biz later).0
      ≡ false
pop_once m biz now k cs later v h q = elim (Bool-cases _) [
  | inr absent ↦ absent
  | inl again ↦
      let held =
        run_calls-IsHeld k biz now m.inflight_ttl (pop_and_mark_start m biz now).1 cs q
          (popped-IsHeld k biz now m v h) in
      absurd (popped_was_there k biz later _ held.valid again held.gone)
]
