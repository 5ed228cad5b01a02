-- ===== src/Prelude/Sort.antt =====
-- `sort.Slice` by a test `less`. The order that it leaves to equal elements is that of the input.
use mathlib.Core.Path.{◌≡◌}
use mathlib.Core.Bool.{Bool, true, false}
use mathlib.Core.List.{List, [], ◌∷◌, Perm, Memᴰ}
use mathlib.Core.List.Perm
use mathlib.Core.Logic.{◌⊎◌, inl, inr}
use dbha.Prelude.Tests.{if◌then◌else◌, Bool-cases}
use dbha.Prelude.Lists.{All, All-map}

module _ {ℓ} {A : Type ℓ} (less : A → A → Bool) where
  unfoldable pub insert_by : A → List A → List A
  insert_by x [] = x ∷ []
  insert_by x (y ∷ ys) = if less y x then y ∷ insert_by x ys else x ∷ y ∷ ys

  unfoldable pub sort_by : List A → List A
  unfolding insert_by
  sort_by [] = []
  sort_by (x ∷ xs) = insert_by x (sort_by xs)

  insert_by-perm : (x : A) (ys : List A) → Perm (insert_by x ys) (x ∷ ys)
  unfolding insert_by
  insert_by-perm x [] = Perm.refl (x ∷ [])
  insert_by-perm x (y ∷ ys) = elim (Bool-cases (less y x)) [
    | inl e ↦ rw e (Perm.trans (Perm.cons y (insert_by-perm x ys)) (Perm.swap x y ys))
    | inr e ↦ rw e (Perm.refl (x ∷ y ∷ ys))
  ]

  -- Sorting keeps the elements.
  pub sort_by-perm : (xs : List A) → Perm (sort_by xs) xs
  unfolding sort_by
  sort_by-perm [] = Perm.refl []
  sort_by-perm (x ∷ xs) = Perm.trans (insert_by-perm x (sort_by xs)) (Perm.cons x (sort_by-perm xs))

  insert_by-All {κ} :
      (P : A → Type κ) (x : A) (ys : List A) → P x → All P ys → All P (insert_by x ys)
  unfolding insert_by
  insert_by-All P x [] p h = (p, tt)
  insert_by-All P x (y ∷ ys) p h = elim (Bool-cases (less y x)) [
    | inl e ↦ rw e (h.0, insert_by-All P x ys p h.1)
    | inr e ↦ rw e (p, h)
  ]

  pub sort_by-All {κ} : (P : A → Type κ) (xs : List A) → All P xs → All P (sort_by xs)
  unfolding sort_by
  sort_by-All P [] h = tt
  sort_by-All P (x ∷ xs) h = insert_by-All P x (sort_by xs) h.0 (sort_by-All P xs h.1)

  mem_of_mem-insert_by :
      {a : A} (x : A) (ys : List A) → Memᴰ a (insert_by x ys) → (a ≡ x) ⊎ Memᴰ a ys
  unfolding insert_by
  mem_of_mem-insert_by x [] (Memᴰ.head e) = inl e
  mem_of_mem-insert_by x [] (Memᴰ.tail m) = elim m [ ]
  mem_of_mem-insert_by {a} x (y ∷ ys) m = branch (less y x) m (λ n. mem_of_mem-insert_by x ys n)
    where
      branch :
          (b : Bool)
          → Memᴰ a (if b then y ∷ insert_by x ys else x ∷ y ∷ ys)
          → (Memᴰ a (insert_by x ys) → (a ≡ x) ⊎ Memᴰ a ys)
          → (a ≡ x) ⊎ Memᴰ a (y ∷ ys)
      branch true (Memᴰ.head e) ih = inr (Memᴰ.head e)
      branch true (Memᴰ.tail n) ih = elim (ih n) [ inl e ↦ inl e | inr k ↦ inr (Memᴰ.tail k) ]
      branch false (Memᴰ.head e) ih = inl e
      branch false (Memᴰ.tail n) ih = inr n

  mem-insert_by : {a : A} (x : A) (ys : List A) → (a ≡ x) ⊎ Memᴰ a ys → Memᴰ a (insert_by x ys)
  unfolding insert_by
  mem-insert_by x [] (inl e) = Memᴰ.head e
  mem-insert_by x [] (inr m) = elim m [ ]
  mem-insert_by x (y ∷ ys) (inl e) = elim (Bool-cases (less y x)) [
    | inl q ↦ rw q (Memᴰ.tail (mem-insert_by x ys (inl e)))
    | inr q ↦ rw q (Memᴰ.head e)
  ]
  mem-insert_by x (y ∷ ys) (inr (Memᴰ.head e)) = elim (Bool-cases (less y x)) [
    | inl q ↦ rw q (Memᴰ.head e)
    | inr q ↦ rw q (Memᴰ.tail (Memᴰ.head e))
  ]
  mem-insert_by x (y ∷ ys) (inr (Memᴰ.tail n)) = elim (Bool-cases (less y x)) [
    | inl q ↦ rw q (Memᴰ.tail (mem-insert_by x ys (inr n)))
    | inr q ↦ rw q (Memᴰ.tail (Memᴰ.tail n))
  ]

  pub mem_of_mem-sort_by : {a : A} (xs : List A) → Memᴰ a (sort_by xs) → Memᴰ a xs
  unfolding sort_by
  mem_of_mem-sort_by [] m = m
  mem_of_mem-sort_by (x ∷ xs) m = elim (mem_of_mem-insert_by x (sort_by xs) m) [
    | inl e ↦ Memᴰ.head e
    | inr n ↦ Memᴰ.tail (mem_of_mem-sort_by xs n)
  ]

  pub mem-sort_by : {a : A} (xs : List A) → Memᴰ a xs → Memᴰ a (sort_by xs)
  unfolding sort_by
  mem-sort_by [] m = m
  mem-sort_by (x ∷ xs) (Memᴰ.head e) = mem-insert_by x (sort_by xs) (inl e)
  mem-sort_by (x ∷ xs) (Memᴰ.tail m) = mem-insert_by x (sort_by xs) (inr (mem-sort_by xs m))

  -- No element is less than one before it.
  abbrev pub IsSorted : List A → Type 0
  IsSorted [] = Unit
  IsSorted (x ∷ xs) = All (λ y. less y x ≡ false) xs × IsSorted xs

module _ {ℓ} {A : Type ℓ} (less : A → A → Bool)
    (asym : (x y : A) → less x y ≡ true → less y x ≡ false)
    (trans : (x y z : A) → less y x ≡ false → less z y ≡ false → less z x ≡ false) where
  insert_by-IsSorted :
      (x : A) (ys : List A) → IsSorted less ys → IsSorted less (insert_by less x ys)
  unfolding insert_by
  insert_by-IsSorted x [] h = (tt, tt)
  insert_by-IsSorted x (y ∷ ys) h = elim (Bool-cases (less y x)) [
    | inl e ↦ rw e (
      insert_by-All less (λ z. less z y ≡ false) x ys (asym y x e) h.0,
      insert_by-IsSorted x ys h.1,
    )
    | inr e ↦ rw e ((e, All-map ys (λ z. trans x y z e) h.0), h)
  ]

  pub sort_by-IsSorted : (xs : List A) → IsSorted less (sort_by less xs)
  unfolding sort_by
  sort_by-IsSorted [] = tt
  sort_by-IsSorted (x ∷ xs) = insert_by-IsSorted x (sort_by less xs) (sort_by-IsSorted xs)
