-- ===== src/Prelude/Texts.antt =====
-- Go's strings as lists of bytes, `==` on them, and `%d` of a number that is not negative.
use Prim.Native.Char.{code}
use Prim.Native.Nat.{ℕ, zero, suc, ◌+◌, ◌*◌, ◌/◌, ◌%◌, ◌<◌, ◌≤◌, ◌-◌}
use Prim.Native.String.{String}
use mathlib.Core.Bool.{Bool, true, false, ◌&&◌}
use mathlib.Core.List.{List, [], ◌∷◌, ◌++◌}
use mathlib.Core.Logic.{◌↔◌, ◌≢◌, inl, inr}
use mathlib.Core.Path.{◌≡◌, refl, ap, sym, ◌∙◌}
use native.Mathlib.Omega.{arith}
use dbha.Prelude.Lists.{All, is_empty}
use dbha.Prelude.Tests.{nat_beq, Equality, if◌then◌else◌, Bool-cases}

abbrev pub Text : Type 0
Text = List ℕ

abbrev pub codes : String → Text
codes (String.◌∷◌ first rest) = code first ∷ codes rest
codes String.[] = []

abbrev pub text_beq : (left right : Text) → Bool
text_beq (x ∷ xs) (y ∷ ys) = text_beq xs ys && nat_beq x y
text_beq (x ∷ xs) [] = false
text_beq [] (y ∷ ys) = false
text_beq [] [] = true

pub text_beq_iff : (left right : Text) → (text_beq left right ≡ true) ↔ (left ≡ right)
text_beq_iff (x ∷ xs) (y ∷ ys) = ground (arith, text_beq_iff xs ys)
text_beq_iff (x ∷ xs) [] = ground arith
text_beq_iff [] (y ∷ ys) = ground arith
text_beq_iff [] [] = ((λ h. refl), (λ h. refl))

instance abbrev pub text_eq : Equality Text
text_eq = record { same = text_beq; same_iff = text_beq_iff }

-- The decimal digits of a number behind a suffix; the fuel bounds their number.
unfoldable pub digits_onto : ℕ → ℕ → Text → Text
digits_onto zero n out = out
digits_onto (suc f) n out =
    let more = digits_onto f (n / 10) ((b'0' + n % 10) ∷ out) in
    if nat_beq (n / 10) 0 then (b'0' + n % 10) ∷ out else more

-- `%d`: a number has at most as many digits as its value plus one.
unfoldable pub decimal : ℕ → Text
unfolding digits_onto
decimal n = digits_onto (suc n) n []

decimal_example : decimal 20306 ≡ codes "20306"
unfolding decimal
decimal_example = refl

-- The number that digits stand for, read from the left after `acc`.
abbrev pub value : ℕ → Text → ℕ
value acc [] = acc
value acc (c ∷ s) = value (acc * 10 + (c - b'0')) s

value-digits_onto : (f n : ℕ) (out : Text) → n < f → value 0 (digits_onto f n out) ≡ value n out
unfolding digits_onto
value-digits_onto zero n out h = elim h [ ]
value-digits_onto (suc f) n out h = elim (Bool-cases (nat_beq (n / 10) 0)) [
  | inl e ↦ rw e (ap (λ m. value m out) (ground arith))
  | inr e ↦ rw e (
      value-digits_onto f (n / 10) ((b'0' + n % 10) ∷ out) (ground arith)
      ∙ ap (λ m. value m out) (omega arith))
]

-- Different numbers have different digits.
pub decimal-injective : (m n : ℕ) → decimal m ≡ decimal n → m ≡ n
unfolding decimal
decimal-injective m n e =
    sym (value-digits_onto (suc m) m [] (omega arith))
    ∙ ap (value 0) e
    ∙ value-digits_onto (suc n) n [] (omega arith)

-- Texts without a given byte.
abbrev pub Lacks : ℕ → Text → Type 0
Lacks d = All (λ c. c ≢ d)

digits_onto-Lacks :
    (d f n : ℕ) (out : Text) → b'9' < d → Lacks d out → Lacks d (digits_onto f n out)
unfolding digits_onto
digits_onto-Lacks d zero n out above h = h
digits_onto-Lacks d (suc f) n out above h = elim (Bool-cases (nat_beq (n / 10) 0)) [
  | inl e ↦ rw e ((omega arith), h)
  | inr e ↦ rw e (digits_onto-Lacks d f (n / 10) ((b'0' + n % 10) ∷ out) above ((omega arith), h))
]

-- A decimal number has no byte above the digits.
pub decimal-Lacks_above : (d n : ℕ) → b'9' < d → Lacks d (decimal n)
unfolding decimal
decimal-Lacks_above d n above = digits_onto-Lacks d (suc n) n [] above tt

pub decimal-Lacks : (n : ℕ) → Lacks b':' (decimal n)
decimal-Lacks n = decimal-Lacks_above b':' n (omega arith)

-- A text is cut in one way at the first byte that its head lacks.
pub cut_first :
    (d : ℕ) (s s' t t' : Text)
    → Lacks d s
    → Lacks d s'
    → s ++ d ∷ t ≡ s' ++ d ∷ t'
    → (s ≡ s') × (t ≡ t')
cut_first d [] [] t t' h h' e = (refl, cc)
cut_first d [] (c ∷ s') t t' h h' e = absurd (h'.0 (cc))
cut_first d (c ∷ s) [] t t' h h' e = absurd (h.0 (cc))
cut_first d (c ∷ s) (c' ∷ s') t t' h h' e =
    let (p, q) = cut_first d s s' t t' h.1 h'.1 (cc) in (cc, q)

Lacks-middle : (d : ℕ) (u v w : Text) → Lacks d w → ¬ (w ≡ u ++ d ∷ v)
Lacks-middle d [] v [] l = λ e. cc
Lacks-middle d [] v (x ∷ w) l = λ e. l.0 (cc)
Lacks-middle d (y ∷ u) v [] l = λ e. cc
Lacks-middle d (y ∷ u) v (x ∷ w) l = λ e. Lacks-middle d u v w l.1 (cc)

-- And in one way at the last byte that its tail lacks.
pub cut_last :
    (d : ℕ) (s s' t t' : Text)
    → Lacks d t
    → Lacks d t'
    → s ++ d ∷ t ≡ s' ++ d ∷ t'
    → (s ≡ s') × (t ≡ t')
cut_last d [] [] t t' h h' e = (refl, cc)
cut_last d [] (c ∷ s') t t' h h' e = absurd (Lacks-middle d s' t' t h (cc))
cut_last d (c ∷ s) [] t t' h h' e = absurd (Lacks-middle d s t t' h' (cc))
cut_last d (c ∷ s) (c' ∷ s') t t' h h' e = let (p, q) = cut_last d s s' t t' h h' (cc) in (cc, q)

-- A decimal number is not empty, and has digits only.
abbrev pub IsDigit : ℕ → Type 0
IsDigit c = (b'0' ≤ c) × (c ≤ b'9')

digits_onto-digits :
    (f n : ℕ) (out : Text)
    → n < f
    → All IsDigit out
    → All IsDigit (digits_onto f n out) × (is_empty (digits_onto f n out) ≡ false)
unfolding digits_onto
digits_onto-digits zero n out below h = elim below [ ]
digits_onto-digits (suc f) n out below h = elim (Bool-cases (nat_beq (n / 10) 0)) [
  | inl e ↦ rw e (((omega arith), h), refl)
  | inr e ↦
      rw e (digits_onto-digits f (n / 10) ((b'0' + n % 10) ∷ out) (ground arith) ((omega arith), h))
]

pub decimal-digits : (n : ℕ) → All IsDigit (decimal n) × (is_empty (decimal n) ≡ false)
unfolding decimal
decimal-digits n = digits_onto-digits (suc n) n [] (omega arith) tt

pub value-decimal : (n : ℕ) → value 0 (decimal n) ≡ n
unfolding decimal
value-decimal n = value-digits_onto (suc n) n [] (omega arith)
