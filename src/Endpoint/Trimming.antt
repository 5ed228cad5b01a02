-- ===== src/Endpoint/Trimming.antt =====
-- `strings.TrimSpace` leaves a text of graphic ASCII bytes as it is.
use dbha.Prelude.{ℕ, ◌≤◌, ◌≡◌, ◌≢◌, refl, arith, [], ◌∷◌, ◌++◌, none, true, false, Text, All}
use dbha.Endpoint.{
  Pending, fresh, c2, e1, e1_9a, e2, e2_80, e2_81, e3, e3_80, space_byte, blank, trim_left,
  trim_right, trim_space, has_scheme,
}

abbrev pub IsGraphic : ℕ → Type 0
IsGraphic c = (33 ≤ c) × (c ≤ 126)

space_byte-IsGraphic : (p : Pending) (c : ℕ) → IsGraphic c → space_byte p c ≡ none
unfolding space_byte
space_byte-IsGraphic fresh c h = ground arith
space_byte-IsGraphic c2 c h = ground arith
space_byte-IsGraphic e1 c h = ground arith
space_byte-IsGraphic e1_9a c h = ground arith
space_byte-IsGraphic e2 c h = ground arith
space_byte-IsGraphic e2_80 c h = ground arith
space_byte-IsGraphic e2_81 c h = ground arith
space_byte-IsGraphic e3 c h = ground arith
space_byte-IsGraphic e3_80 c h = ground arith

trim_right-IsGraphic : (s : Text) → All IsGraphic s → trim_right s ≡ s
unfolding trim_right blank
trim_right-IsGraphic [] h = refl
trim_right-IsGraphic (c ∷ s) h =
    ground (arith, space_byte-IsGraphic fresh c h.0, trim_right-IsGraphic s h.1)

pub trim_space-IsGraphic : (s : Text) → All IsGraphic s → trim_space s ≡ s
unfolding trim_space trim_left trim_right
trim_space-IsGraphic [] h = refl
trim_space-IsGraphic (c ∷ s) h =
    ground (arith, space_byte-IsGraphic fresh c h.0, trim_right-IsGraphic (c ∷ s) h)

-- Without a slash there is no scheme.
pub has_scheme-false : (s : Text) → All (λ c. c ≢ b'/') s → has_scheme s ≡ false
unfolding has_scheme
has_scheme-false [] h = refl
has_scheme-false (a ∷ []) h = refl
has_scheme-false (a ∷ b ∷ []) h = refl
has_scheme-false (a ∷ b ∷ c ∷ s) h = ground (arith, has_scheme-false (b ∷ c ∷ s) h.1)

-- And with its mark there is one.
pub has_scheme-true : (s t : Text) → has_scheme (s ++ (b':' ∷ b'/' ∷ b'/' ∷ t)) ≡ true
unfolding has_scheme
has_scheme-true [] t = refl
has_scheme-true (a ∷ []) t = ground arith
has_scheme-true (a ∷ b ∷ []) t = ground arith
has_scheme-true (a ∷ b ∷ c ∷ s) t = ground (arith, has_scheme-true (b ∷ c ∷ s) t)
