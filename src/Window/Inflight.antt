-- ===== src/Window/Inflight.antt =====
-- The inflight marks: what has been popped for switching is not taken in again before `MarkDone` or
-- the end of its mark's time to live, in whatever order the scan and the pop loops make their calls.
use dbha.Prelude.{
  ℕ, ◌≡◌, refl, ap, ◌∙◌, List, [], ◌∷◌, some, Text, Map, lookup, insert, if◌then◌else◌, arith, ◌==◌,
  text_eq, nat_eq, inl, inr, lookup-insert, Option-cases, any,
}
use dbha.Failure.{FailureInstanceInfo, window_key_of}
use dbha.Window.{
  FailureWindowEntry, BizWindowManager, push, push_into_window, get_or_create_window, pop,
  pop_and_mark_start, mark_done, mark_all, store_or_drop, window_pop, matured,
  new_biz_window_manager,
}
use dbha.Window.Manager.{ManagerIsValid, push-ManagerIsValid}
use dbha.Window.Popping.{pop_and_mark_start-ManagerIsValid}

-- One call on the manager, with the instants that it reads.
pub data Call : Type 0 where
  pushes : (clock biz : ℕ) (inst : FailureInstanceInfo) (at : ℕ) → Call
  pops : (biz now : ℕ) → Call
  dones : Text → Call

unfoldable pub after_call : BizWindowManager → Call → BizWindowManager
after_call m (pushes clock biz inst at) = (push m clock biz inst at).0
after_call m (pops biz now) = (pop_and_mark_start m biz now).1
after_call m (dones key) = mark_done m key

unfoldable pub run_calls : BizWindowManager → List Call → BizWindowManager
unfolding after_call
run_calls m [] = m
run_calls m (c ∷ cs) = run_calls (after_call m c) cs

mark_done-ManagerIsValid :
    (m : BizWindowManager) (key : Text) → ManagerIsValid m → ManagerIsValid (mark_done m key)
unfolding mark_done
mark_done-ManagerIsValid m key v = record { distinct = v.distinct; each = v.each }

pub after_call-ManagerIsValid :
    (m : BizWindowManager) (c : Call) → ManagerIsValid m → ManagerIsValid (after_call m c)
unfolding after_call
after_call-ManagerIsValid m (pushes clock biz inst at) v = push-ManagerIsValid m clock biz inst at v
after_call-ManagerIsValid m (pops biz now) v = pop_and_mark_start-ManagerIsValid m biz now v
after_call-ManagerIsValid m (dones key) v = mark_done-ManagerIsValid m key v

-- Every manager that calls reach from a valid one is valid.
pub run_calls-ManagerIsValid :
    (m : BizWindowManager) (cs : List Call) → ManagerIsValid m → ManagerIsValid (run_calls m cs)
unfolding run_calls
run_calls-ManagerIsValid m [] v = v
run_calls-ManagerIsValid m (c ∷ cs) v =
    run_calls-ManagerIsValid (after_call m c) cs (after_call-ManagerIsValid m c v)

pub new-ManagerIsValid :
    (duration ttl : ℕ) (service : Text)
    → ManagerIsValid (new_biz_window_manager duration ttl service)
unfolding new_biz_window_manager
new-ManagerIsValid duration ttl service = record { distinct = tt; each = tt }

-- Whatever calls the two loops make, in any order, the windows stay well-formed.
pub reached-ManagerIsValid :
    (duration ttl : ℕ) (service : Text) (cs : List Call)
    → ManagerIsValid (run_calls (new_biz_window_manager duration ttl service) cs)
reached-ManagerIsValid duration ttl service cs =
    run_calls-ManagerIsValid _ cs (new-ManagerIsValid duration ttl service)

inflight-mark_all :
    (now : ℕ) (es : List FailureWindowEntry) (i : Map Text ℕ) (k : Text)
    → lookup k (mark_all now es i)
      ≡ (if any (λ e. window_key_of e.inst == k) es then some now else lookup k i)
unfolding mark_all
inflight-mark_all now [] i k = refl
inflight-mark_all now (e ∷ es) i k = ground (
  arith,
  inflight-mark_all now es (insert (window_key_of e.inst) now i) k,
  lookup-insert (window_key_of e.inst) k now i,
)

inflight-store_or_drop :
    (m : BizWindowManager) (biz : ℕ) (w : dbha.Window.SlidingWindow)
    → (store_or_drop m biz w).inflight ≡ m.inflight
unfolding store_or_drop
inflight-store_or_drop m biz w = ground arith

-- Popping marks the popped instances, and no others, at the instant of the pop.
pub inflight-pop_and_mark_start :
    (m : BizWindowManager) (biz now : ℕ) (k : Text)
    → lookup k (pop_and_mark_start m biz now).1.inflight ≡ (
        if any (λ e. window_key_of e.inst == k) (pop_and_mark_start m biz now).0
        then some now
        else lookup k m.inflight)
unfolding pop_and_mark_start
inflight-pop_and_mark_start m biz now k = elim (Option-cases (lookup biz m.windows)) [
  | inl e ↦ rw (e, pop_and_mark_start) refl
  | inr (w, e) ↦
      rw (e, pop_and_mark_start)
        (ap (lookup k) (
            inflight-store_or_drop
              (record m { inflight = mark_all now (window_pop w now).0 m.inflight }) biz
              (window_pop w now).1)
          ∙ inflight-mark_all now (window_pop w now).0 m.inflight k)
]
