-- ===== src/Sharding/Search.antt =====
-- `sort.Search` finds the first position from which on a monotone test holds.
use dbha.Prelude.{
  ℕ, zero, suc, ◌+◌, ◌/◌, ◌≤◌, ◌<◌, ◌≡◌, Bool, true, false, ltb, arith, Bool-cases, inl, inr,
}
use dbha.Sharding.{search_loop, search}

-- `r` parts the positions below `n` into those that fail the test and those that pass it.
abbrev pub Parts : ℕ → (ℕ → Bool) → ℕ → Type 0
Parts n f r = (r ≤ n) × ((k : ℕ) → k < r → f k ≡ false) × ((k : ℕ) → r ≤ k → k < n → f k ≡ true)

module _ (n : ℕ) (f : ℕ → Bool) (mono : (a b : ℕ) → a ≤ b → b < n → f a ≡ true → f b ≡ true) where
  search_loop-Parts :
      (fuel i j : ℕ)
      → i ≤ j
      → j ≤ n
      → j < fuel + i + 1
      → ((k : ℕ) → k < i → f k ≡ false)
      → ((k : ℕ) → j ≤ k → k < n → f k ≡ true)
      → Parts n f (search_loop fuel f i j)
  unfolding search_loop
  search_loop-Parts zero i j h h1 h2 low high = (omega arith, low, λ k p q. high k (omega arith) q)
  search_loop-Parts (suc fuel) i j h h1 h2 low high = elim (Bool-cases (ltb i j)) [
    | inr e ↦ rw e (omega arith, low, λ k p q. high k (ground arith) q)
    | inl e ↦ elim (Bool-cases (f ((i + j) / 2))) [
      | inl e' ↦
          rw (e, e')
            (search_loop-Parts fuel i ((i + j) / 2) (ground arith) (ground arith) (ground arith) low
              (λ k p q. mono ((i + j) / 2) k p q e'))
      | inr e' ↦
          rw (e, e')
            (search_loop-Parts fuel ((i + j) / 2 + 1) j (ground arith) h1 (ground arith)
              (λ k p. elim (Bool-cases (f k)) [
                | inl t ↦ ground (arith, mono k ((i + j) / 2))
                | inr t ↦ t
              ])
              high)
    ]
  ]

  pub search-Parts : Parts n f (search n f)
  unfolding search
  search-Parts =
      search_loop-Parts n 0 n (omega arith) (omega arith) (omega arith) (λ k p. elim p [ ])
        (λ k p q. absurd (omega arith))
