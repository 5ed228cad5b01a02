-- ===== src/Prelude/Maps.antt =====
-- Go's maps as association lists: a write replaces the entry of its key or adds one at the end.
use mathlib.Core.Path.{◌≡◌, refl, ap}
use mathlib.Core.Bool.{Bool, true, false}
use mathlib.Core.List.{List, [], ◌∷◌, Memᴰ}
use mathlib.Core.Logic.{◌≢◌, inl, inr}
use mathlib.Core.Option.{Option, none, some}
use native.Mathlib.Omega.{arith}
use dbha.Prelude.Tests.{Equality, ◌==◌, if◌then◌else◌, Bool-cases, beq_refl}
use dbha.Prelude.Lists.{All}

abbrev pub Map : Type 0 → Type 0 → Type 0
Map K V = List (K × V)

module _ {K V : Type 0} ⦃e : Equality K⦄ where
  unfoldable pub lookup : K → Map K V → Option V
  lookup key ((other, held) ∷ more) = if other == key then some held else lookup key more
  lookup key [] = none

  unfoldable pub insert : K → V → Map K V → Map K V
  insert key new ((other, held) ∷ more) =
      if other == key then (key, new) ∷ more else (other, held) ∷ insert key new more
  insert key new [] = (key, new) ∷ []

  unfoldable pub delete : K → Map K V → Map K V
  delete k [] = []
  delete k ((j, v) ∷ m) = if j == k then delete k m else (j, v) ∷ delete k m

  abbrev pub has : K → Map K V → Bool
  has k m = elim (lookup k m) [ none ↦ false | some v ↦ true ]

  pub lookup_nil : (k : K) → lookup k [] ≡ none
  unfolding lookup
  lookup_nil k = refl

  pub lookup-insert :
      (k j : K) (v : V) (m : Map K V)
      → lookup j (insert k v m) ≡ (if k == j then some v else lookup j m)
  unfolding lookup insert
  lookup-insert k j v ((other, held) ∷ more) =
      ground
        (arith, lookup-insert k j v more, e.same_iff other j, e.same_iff other k, e.same_iff k j)
  lookup-insert k j v [] = refl

  pub lookup-delete :
      (k j : K) (m : Map K V) → lookup j (delete k m) ≡ (if k == j then none else lookup j m)
  unfolding lookup delete
  lookup-delete k j [] = ground arith
  lookup-delete k j ((i, w) ∷ m) =
      ground (arith, e.same_iff k j, e.same_iff i k, e.same_iff i j, lookup-delete k j m)

  pub lookup-insert_self : (k : K) (v : V) (m : Map K V) → lookup k (insert k v m) ≡ some v
  lookup-insert_self k v m = rw (lookup-insert k k v m, beq_refl k)

  pub lookup-insert_ne :
      (k j : K) (v : V) (m : Map K V) → k ≢ j → lookup j (insert k v m) ≡ lookup j m
  lookup-insert_ne k j v m h = ground (arith, lookup-insert k j v m, e.same_iff k j)

  pub lookup-delete_self : (k : K) (m : Map K V) → lookup k (delete k m) ≡ none
  lookup-delete_self k m = rw (lookup-delete k k m, beq_refl k)

  pub lookup-delete_ne : (k j : K) (m : Map K V) → k ≢ j → lookup j (delete k m) ≡ lookup j m
  lookup-delete_ne k j m h = ground (arith, lookup-delete k j m, e.same_iff k j)

  -- The later of two writes to a key counts.
  pub insert-insert : (k : K) (v w : V) (m : Map K V) → insert k v (insert k w m) ≡ insert k v m
  unfolding insert
  insert-insert k v w [] = rw (beq_refl k)
  insert-insert k v w ((j, x) ∷ m) = elim (Bool-cases (j == k)) [
    | inl q ↦ rw (q, beq_refl k)
    | inr q ↦ rw (q, insert) (rw q (ap (◌∷◌ (j, x)) (insert-insert k v w m)))
  ]

  -- Every key stands once.
  abbrev pub Distinct : Map K V → Type 0
  Distinct [] = Unit
  Distinct ((k, v) ∷ m) = (lookup k m ≡ none) × Distinct m

  pub insert-Distinct : (k : K) (v : V) (m : Map K V) → Distinct m → Distinct (insert k v m)
  unfolding insert
  insert-Distinct k v [] d = ((unfold lookup in refl), tt)
  insert-Distinct k v ((j, w) ∷ m) d =
      ground
        (arith, e.same_iff j k, e.same_iff k j, lookup-insert k j v m, insert-Distinct k v m d.1)

  pub delete-Distinct : (k : K) (m : Map K V) → Distinct m → Distinct (delete k m)
  unfolding delete
  delete-Distinct k [] d = tt
  delete-Distinct k ((j, w) ∷ m) d =
      ground (arith, e.same_iff k j, lookup-delete k j m, delete-Distinct k m d.1)

  pub All-insert {κ} :
      (P : K × V → Type κ) (k : K) (v : V) (m : Map K V) → P (k, v) → All P m → All P (insert k v m)
  unfolding insert
  All-insert P k v [] p h = (p, tt)
  All-insert P k v ((j, w) ∷ m) p h = elim (Bool-cases (j == k)) [
    | inl q ↦ rw q (p, h.1)
    | inr q ↦ rw q (h.0, All-insert P k v m p h.1)
  ]

  pub All-delete {κ} : (P : K × V → Type κ) (k : K) (m : Map K V) → All P m → All P (delete k m)
  unfolding delete
  All-delete P k [] h = tt
  All-delete P k ((j, w) ∷ m) h = elim (Bool-cases (j == k)) [
    | inl q ↦ rw q (All-delete P k m h.1)
    | inr q ↦ rw q (h.0, All-delete P k m h.1)
  ]

  -- What is found stands in the list.
  pub mem_of_lookup : (k : K) {v : V} (m : Map K V) → lookup k m ≡ some v → Memᴰ (k, v) m
  unfolding lookup
  mem_of_lookup k [] h = cc
  mem_of_lookup k ((j, w) ∷ m) h = elim (Bool-cases (j == k)) [
    | inl q ↦ Memᴰ.head (ground (arith, e.same_iff j k))
    | inr q ↦ Memᴰ.tail (mem_of_lookup k m (ground arith))
  ]

  pub lookup_of_mem :
      {k : K} {v : V} (m : Map K V) → Distinct m → Memᴰ (k, v) m → lookup k m ≡ some v
  unfolding lookup
  lookup_of_mem [] d h = elim h [ ]
  lookup_of_mem {k} ((j, w) ∷ m) d (Memᴰ.head q) = ground (arith, q, e.same_iff j k)
  lookup_of_mem {k} ((j, w) ∷ m) d (Memᴰ.tail q) =
      ground (arith, lookup_of_mem m d.1 q, e.same_iff j k)
