-- ===== src/Switch/Steps.antt =====
-- The phase that the shared steps of a switch lead to.
use dbha.Prelude.{
  List, Option, none, some, Bool, true, false, Text, ◌≡◌, arith, beq_refl, text_eq, refl,
  if◌then◌else◌,
}
use dbha.Switch.{
  Event, SwitchError, Context, rolled_back, Locks, err_if_ctx_done, guarded, attempt,
  lock_cluster_with_timeout, on_return, Phase, announced, locked, released, over, next, phase_of,
}

abbrev pub ok_of : Option SwitchError → Bool
ok_of none = true
ok_of (some e) = false

pub err_if_ctx_done_lem :
    (ctx : Context) (key : Text) (t : List Event)
    → phase_of key (err_if_ctx_done ctx t).1 ≡ phase_of key t
unfolding err_if_ctx_done phase_of
err_if_ctx_done_lem none key t = refl
err_if_ctx_done_lem (some err) key t = ground arith

pub guarded_lem :
    (ctx : Context) (call : List Event → Option Text) (event : Bool → Event)
    (wrap : Text → SwitchError) (key : Text) (t : List Event) (p q : Phase)
    → next key (event false) p ≡ some p
    → next key (event true) p ≡ some q
    → phase_of key t ≡ some p
    → let r = guarded ctx call event wrap t in phase_of key r.1 ≡ some (if ok_of r.0 then q else p)
unfolding guarded phase_of
guarded_lem ctx call event wrap key t p q stay go h = ground (arith, err_if_ctx_done_lem ctx key t)

pub lock_cluster_with_timeout_lem :
    (locks : Locks) (key : Text) (t : List Event)
    → phase_of key t ≡ some announced
    → let r = lock_cluster_with_timeout locks key t in
      phase_of key r.1 ≡ some (if ok_of r.0 then locked else announced)
unfolding lock_cluster_with_timeout phase_of
lock_cluster_with_timeout_lem locks key t h = ground (arith, beq_refl key)

-- What a body leaves behind: a success has released the lock, and a failure stands where a
-- rollback is in order.
unfoldable pub Returned : Text → (Bool × Option SwitchError) × List Event → Type 0
Returned key ((true, err), t) = phase_of key t ≡ some (released true)
Returned key ((false, err), t) =
    (p : Phase) × (phase_of key t ≡ some p) × (next key rolled_back p ≡ some over)

abbrev pub last_phase : Bool → Phase
last_phase true = released true
last_phase false = over

pub on_return_lem :
    (roll_back : List Event → Option Text) (key : Text) (r : Bool × Option SwitchError)
    (t : List Event)
    → Returned key (r, t)
    → let s = on_return roll_back r t in
      (phase_of key s.1 ≡ some (last_phase s.0.0)) × (s.0.0 ≡ r.0)
unfolding on_return phase_of Returned
on_return_lem roll_back key (true, err) t h = (h, refl)
on_return_lem roll_back key (false, err) t (p, at, back) = ground arith

pub on_return_error :
    (roll_back : List Event → Option Text) (r : Bool × Option SwitchError) (t : List Event)
    → (r.0 ≡ true → r.1 ≡ none)
    → let s = on_return roll_back r t in ok_of s.0.1 ≡ s.0.0
unfolding on_return
on_return_error roll_back (true, err) t h = rw (h refl) refl
on_return_error roll_back (false, err) t h = ground arith

-- A step whose failure ends the body: the failure stands where a rollback is in order, and the rest
-- of the body leaves what it should.
pub attempt_lem :
    (key : Text) (step : Option SwitchError × List Event)
    (rest : List Event → (Bool × Option SwitchError) × List Event) (p q : Phase)
    → phase_of key step.1 ≡ some (if ok_of step.0 then q else p)
    → next key rolled_back p ≡ some over
    → ((t : List Event) → phase_of key t ≡ some q → Returned key (rest t))
    → Returned key (attempt step rest)
unfolding attempt Returned
attempt_lem key (none, t) rest p q h back f = f t h
attempt_lem key (some x, t) rest p q h back f = (p, h, back)

-- A body whose rest has no error on success has none.
pub attempt_error :
    (step : Option SwitchError × List Event)
    (rest : List Event → (Bool × Option SwitchError) × List Event)
    → ((t : List Event) → (rest t).0.0 ≡ true → (rest t).0.1 ≡ none)
    → (attempt step rest).0.0 ≡ true
    → (attempt step rest).0.1 ≡ none
unfolding attempt
attempt_error (none, t) rest f = f t
attempt_error (some x, t) rest f = λ h. cc
