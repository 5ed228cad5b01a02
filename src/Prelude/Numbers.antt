-- ===== src/Prelude/Numbers.antt =====
-- Go's `strings.Split` by one byte, and `strconv` at base ten.
use Prim.Native.Nat.{ℕ, zero, suc, ◌+◌, ◌*◌, ◌-◌, ◌^◌, ◌<◌}
use mathlib.Core.Bool.{false, true, ◌&&◌}
use mathlib.Core.List.{List, [], ◌∷◌}
use mathlib.Core.Option.{Option, none, some}
use dbha.Prelude.Tests.{leb, nat_beq, if◌then◌else◌}
use dbha.Prelude.Lists.{is_empty, All}
use native.Mathlib.Omega.{arith}
use mathlib.Core.Path.{◌≡◌, refl, ap, ◌∙◌}
use dbha.Prelude.Texts.{Text, decimal, value, IsDigit, decimal-digits, value-decimal}
use dbha.Prelude.Int.{ℤ, pos, negsuc}

abbrev pub push_head : ℕ → List Text → List Text
push_head c [] = (c ∷ []) ∷ []
push_head c (part ∷ parts) = (c ∷ part) ∷ parts

-- `strings.Split`: the parts between the separators, one at least.
unfoldable pub split : ℕ → Text → List Text
split d [] = [] ∷ []
split d (c ∷ s) = if nat_beq c d then [] ∷ split d s else push_head c (split d s)

-- The number that digits stand for behind `acc`, none at another byte.
unfoldable pub parse_digits : ℕ → Text → Option ℕ
parse_digits acc [] = some acc
parse_digits acc (c ∷ s) =
    if leb b'0' c && leb c b'9' then parse_digits (acc * 10 + (c - b'0')) s else none

abbrev pub at_most : ℕ → Option ℕ → Option ℕ
at_most limit none = none
at_most limit (some n) = if leb n limit then some n else none

abbrev pub unsigned : ℕ → Text → Option ℕ
unsigned limit s = if is_empty s then none else at_most limit (parse_digits 0 s)

abbrev pub negated : ℕ → ℤ
negated zero = pos 0
negated (suc n) = negsuc n

-- `strconv.ParseUint` at 64 bits
unfoldable pub parse_uint64 : Text → Option ℕ
parse_uint64 s = unsigned (2 ^ 64 - 1) s

abbrev pub positive : Text → Option ℤ
positive s = elim (unsigned (2 ^ 63 - 1) s) [ none ↦ none | some n ↦ some (pos n) ]

-- `strconv.Atoi`: a sign or none, then digits; an int has 64 bits.
unfoldable pub atoi : Text → Option ℤ
atoi [] = none
atoi (c ∷ s) =
    if nat_beq c b'-'
    then elim (unsigned (2 ^ 63) s) [ none ↦ none | some n ↦ some (negated n) ]
    else (if nat_beq c b'+' then positive s else positive (c ∷ s))

parse_digits-value : (acc : ℕ) (s : Text) → All IsDigit s → parse_digits acc s ≡ some (value acc s)
unfolding parse_digits
parse_digits-value acc [] h = refl
parse_digits-value acc (c ∷ s) h = ground (arith, parse_digits-value (acc * 10 + (c - b'0')) s h.1)

-- `Atoi` reads a number back from its decimal digits.
pub atoi-decimal : (n : ℕ) → n < 2 ^ 63 → atoi (decimal n) ≡ some (pos n)
unfolding atoi
atoi-decimal n h = read (decimal n) (decimal-digits n).0 (decimal-digits n).1 (value-decimal n)
  where
    read : (s : Text) → All IsDigit s → is_empty s ≡ false → value 0 s ≡ n → atoi s ≡ some (pos n)
    read [] d some_digit v = cc
    read (c ∷ s) d some_digit v =
        let parsed : parse_digits 0 (c ∷ s) ≡ some n = parse_digits-value 0 (c ∷ s) d ∙ ap some v in
        let minus : nat_beq c b'-' ≡ false = ground arith in
        let plus : nat_beq c b'+' ≡ false = ground arith in
        let small : leb n (2 ^ 63 - 1) ≡ true = ground arith in
        let all : unsigned (2 ^ 63 - 1) (c ∷ s) ≡ some n =
          ap (at_most (2 ^ 63 - 1)) parsed ∙ rw small refl in
        let got : positive (c ∷ s) ≡ some (pos n) =
          ap (λ (o : Option ℕ). elim o as (λ _. Option ℤ) [ none ↦ none | some n ↦ some (pos n) ])
            all in
        rw minus (rw plus got)
