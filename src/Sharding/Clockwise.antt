-- ===== src/Sharding/Clockwise.antt =====
-- `get` takes the first hash of a sorted ring that is not below the key's, and the least if all are.
use dbha.Prelude.{
  ℕ, zero, suc, ◌≤◌, ◌<◌, ◌≡◌, ◌⊎◌, false, ltb, leb, arith, Bool-cases, inl, inr, length, List, [],
  ◌∷◌, All_mem, Memᴰ, refl, sym, IsSorted, is_empty,
}
use dbha.Sharding.{at, search, position}
use dbha.Sharding.Search.{search-Parts}

-- `x` comes next to `hash` on the ring, clockwise.
abbrev pub IsNext : List ℕ → ℕ → ℕ → Type 0
IsNext ring hash x =
    Memᴰ x ring
    × (((hash ≤ x) × ((y : ℕ) → Memᴰ y ring → hash ≤ y → x ≤ y))
        ⊎ ((y : ℕ) → Memᴰ y ring → (y < hash) × (x ≤ y)))

-- On a smaller ring that still has it, the next hash is the same.
pub IsNext-same :
    (ring ring' : List ℕ) (hash x x' : ℕ)
    → ((y : ℕ) → Memᴰ y ring' → Memᴰ y ring)
    → Memᴰ x ring'
    → IsNext ring hash x
    → IsNext ring' hash x'
    → x ≡ x'
IsNext-same ring ring' hash x x' sub here (m, inl (up, least)) (m', inl (up', least')) =
    let a = least x' (sub x' m') up' in let b = least' x here up in omega arith
IsNext-same ring ring' hash x x' sub here (m, inl (up, least)) (m', inr below') =
    let a = below' x here in omega arith
IsNext-same ring ring' hash x x' sub here (m, inr below) (m', inl (up', least')) =
    let a = below x' (sub x' m') in omega arith
IsNext-same ring ring' hash x x' sub here (m, inr below) (m', inr below') =
    let a = below x' (sub x' m') in let b = below' x here in omega arith

mem-at : (l : List ℕ) (i : ℕ) → i < length l → Memᴰ (at l i) l
mem-at [] i h = absurd (omega arith)
mem-at (x ∷ xs) zero h = Memᴰ.head refl
mem-at (x ∷ xs) (suc i) h = Memᴰ.tail (mem-at xs i (omega arith))

at_of_mem : (l : List ℕ) (y : ℕ) → Memᴰ y l → (i : ℕ) × (i < length l) × (at l i ≡ y)
at_of_mem [] y m = elim m [ ]
at_of_mem (x ∷ xs) y (Memᴰ.head e) = (0, omega arith, sym e)
at_of_mem (x ∷ xs) y (Memᴰ.tail m) = let (i, p, e) = at_of_mem xs y m in (suc i, omega arith, e)

at_mono : (l : List ℕ) (i j : ℕ) → IsSorted ltb l → i ≤ j → j < length l → at l i ≤ at l j
at_mono [] i j s h p = absurd (omega arith)
at_mono (x ∷ xs) zero zero s h p = omega arith
at_mono (x ∷ xs) zero (suc j) s h p =
    let low = All_mem (λ y. ltb y x ≡ false) s.0 (mem-at xs j (omega arith)) in ground arith
at_mono (x ∷ xs) (suc i) zero s h p = absurd (omega arith)
at_mono (x ∷ xs) (suc i) (suc j) s h p = at_mono xs i j s.1 (omega arith) (omega arith)

-- A Boolean search by halving on a sorted ring gives the next hash.
pub position-IsNext :
    (ring : List ℕ) (hash : ℕ)
    → IsSorted ltb ring
    → is_empty ring ≡ false
    → IsNext ring hash (at ring (position ring hash))
unfolding position
position-IsNext ring hash s some_hash =
    let (top, low, high) =
      search-Parts (length ring) (λ i. leb hash (at ring i))
        (λ a b p q t. let m = at_mono ring a b s p q in ground arith) in
    let r = search (length ring) (λ i. leb hash (at ring i)) in
    let filled : 0 < length ring = ground arith in
    elim (Bool-cases (leb (length ring) r)) [
      | inl e ↦ rw e (
        mem-at ring 0 filled,
        inr (λ y m.
            let (i, p, q) = at_of_mem ring y m in
            let below = low i (ground arith) in
            let least = at_mono ring 0 i s (omega arith) p in (ground arith, ground arith)),
      )
      | inr e ↦ rw e (
        mem-at ring r (ground arith),
        inl (
          let up = high r (omega arith) (ground arith) in ground arith,
          λ y m up.
              let (i, p, q) = at_of_mem ring y m in
              elim (Bool-cases (ltb i r)) [
                | inl t ↦ let below = low i (ground arith) in ground arith
                | inr t ↦ let later = at_mono ring r i s (ground arith) p in ground arith
              ],
        ),
      )
    ]
