-- ===== src/Takeover/Effects.antt =====
-- What holds after a chain of calls, by what holds before it: `after` a result, or on a failure.
use dbha.Prelude.{
  List, ◌∷◌, Option, none, some, Bool, true, false, ◌≡◌, refl, if◌then◌else◌, Result, ok, fail,
}
use dbha.Takeover.{Effect, Fault, World, Call, pure, throw, ◌>>=◌, effect, query, require}

-- `after` on a result, `failed` on a failure.
abbrev pub Ends :
    {A : Type 0} → (A → World → Type 0) → (World → Type 0) → Result Fault A × World → Type 0
Ends after failed (fail why, w) = failed w
Ends after failed (ok a, w) = after a w

-- From every world with `before`, the call ends with `after` or, if it fails, with `failed`.
pub record Runs {A : Type 0} (before : World → Type 0) (call : Call A) (after : A → World → Type 0)
    (failed : World → Type 0) : Type 0 where
  pub ends : (w : World) → before w → Ends after failed (call w)

bind-Ends :
    {A B : Type 0} (mid : A → World → Type 0) (after : B → World → Type 0) (failed : World → Type 0)
    (rest : A → Call B)
    → ((a : A) → Runs (mid a) (rest a) after failed)
    → (r : Result Fault A × World) → Ends mid failed r
    → Ends after failed (elim r.0 [ fail why ↦ (fail why, r.1) | ok a ↦ rest a r.1 ])
bind-Ends mid after failed rest f (fail why, w) h = h
bind-Ends mid after failed rest f (ok a, w) h = (f a).ends w h

pub runs_bind :
    {A B : Type 0} {before failed : World → Type 0} {mid : A → World → Type 0}
    {after : B → World → Type 0} {call : Call A} {rest : A → Call B}
    → Runs before call mid failed
    → ((a : A) → Runs (mid a) (rest a) after failed)
    → Runs before (call >>= rest) after failed
unfolding ◌>>=◌
runs_bind {failed} {mid} {after} {call} {rest} first then_rest = record {
  ends = λ w h. bind-Ends mid after failed rest then_rest (call w) (first.ends w h);
}

Ends-mono :
    {A : Type 0} (after after' : A → World → Type 0) (failed failed' : World → Type 0)
    → ((a : A) (w : World) → after a w → after' a w)
    → ((w : World) → failed w → failed' w)
    → (r : Result Fault A × World) → Ends after failed r
    → Ends after' failed' r
Ends-mono after after' failed failed' f g (fail why, w) h = g w h
Ends-mono after after' failed failed' f g (ok a, w) h = f a w h

pub runs_mono :
    {A : Type 0} {before before' failed failed' : World → Type 0}
    {after after' : A → World → Type 0} {call : Call A}
    → Runs before call after failed
    → ((w : World) → before' w → before w)
    → ((a : A) (w : World) → after a w → after' a w)
    → ((w : World) → failed w → failed' w)
    → Runs before' call after' failed'
runs_mono {failed} {failed'} {after} {after'} {call} run e f g = record {
  ends = λ w h. Ends-mono after after' failed failed' f g (call w) (run.ends w (e w h));
}

pub runs_pure :
    {A : Type 0} {failed : World → Type 0} (after : A → World → Type 0) (a : A)
    → Runs (after a) (pure a) after failed
runs_pure after a = record { ends = λ w h. h }

pub runs_throw :
    {A : Type 0} {failed : World → Type 0} (after : A → World → Type 0) (why : Fault)
    → Runs failed (throw why) after failed
runs_throw after why = record { ends = λ w h. h }

abbrev pub happened : Effect → World → World
happened e w = record w { effects = e ∷ w.effects }

pub runs_effect :
    {before failed after : World → Type 0} (succeeds : List Effect → Bool) (event : Bool → Effect)
    (why : Fault)
    → ((w : World) → before w → failed (happened (event false) w))
    → ((w : World) → before w → after (happened (event true) w))
    → Runs before (effect succeeds event why) (λ _. after) failed
runs_effect {before} {failed} {after} succeeds event why f g = record {
  ends = λ w h. split (succeeds w.effects) w (f w h) (g w h);
}
  where
    split :
        (done : Bool) (w : World)
        → failed (happened (event false) w)
        → after (happened (event true) w)
        → Ends {A = Unit {0}}
            (λ _. after)
            failed
            (if done then ok tt else fail why, happened (event done) w)
    split true w p q = q
    split false w p q = p

pub runs_query :
    {A : Type 0} {before failed : World → Type 0} (answer : List Effect → Option A) (why : Fault)
    → ((w : World) → before w → failed w)
    → Runs before (query answer why) (λ a w. before w × (answer w.effects ≡ some a)) failed
runs_query {A} {before} {failed} answer why f = record {
  ends = λ w h. split w h (answer w.effects) refl;
}
  where
    split :
        (w : World) (h : before w) (o : Option A)
        → answer w.effects ≡ o
        → Ends
            (λ a w. before w × (answer w.effects ≡ some a))
            failed
            (elim o [ none ↦ (fail why, w) | some a ↦ (ok a, w) ])
    split w h none e = f w h
    split w h (some a) e = (h, e)

pub runs_require :
    {before failed : World → Type 0} (holds : List Effect → Bool) (why : Fault)
    → ((w : World) → before w → failed w)
    → Runs before (require holds why) (λ _. before) failed
runs_require {before} {failed} holds why f = record { ends = λ w h. split (holds w.effects) w h }
  where
    split :
        (b : Bool) (w : World)
        → before w
        → Ends {A = Unit {0}} (λ _. before) failed (if b then (ok tt, w) else (fail why, w))
    split true w h = h
    split false w h = f w h
