-- ===== src/Prelude/Results.antt =====
-- Go's pair of a value and an error: a call gives one or the other.
use mathlib.Core.Path.{◌≡◌, refl}

pub data Result {ℓ κ} (E : Type ℓ) (A : Type κ) : Type (ℓ ⊔ κ) where
  fail : E → Result E A
  ok : A → Result E A

-- `if err != nil { return err }` between two calls
infixl 5 ◌>>=◌ ◌>>◌
abbrev pub ◌>>=◌ {ℓ κ ν} :
    {E : Type ℓ} {A : Type κ} {B : Type ν} → Result E A → (A → Result E B) → Result E B
fail why >>= rest = fail why
ok got >>= rest = rest got

abbrev pub ◌>>◌ {ℓ κ} : {E : Type ℓ} {B : Type κ} → Result E (Unit {0}) → Result E B → Result E B
first >> rest = first >>= λ _. rest

-- A chain that succeeds: its first call does, and so does the rest from what that gave.
pub ok_of_bind {ℓ κ ν} :
    {E : Type ℓ} {A : Type κ} {B : Type ν} (m : Result E A) (rest : A → Result E B) {b : B}
    → (m >>= rest) ≡ ok b
    → (a : A) × (m ≡ ok a) × (rest a ≡ ok b)
ok_of_bind (fail why) rest h = cc
ok_of_bind (ok got) rest h = (got, refl, h)
