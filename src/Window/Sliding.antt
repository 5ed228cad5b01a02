-- ===== src/Window/Sliding.antt =====
-- One sliding window: what `slidingWindow.push` and `slidingWindow.pop` do to its entries.
use mathlib.Core.List.{Perm, append_assoc, append-nil}
use dbha.Prelude.{
  ℕ, ◌+◌, ◌<◌, ◌≡◌, refl, sym, ◌∙◌, List, [], ◌∷◌, ◌++◌, map, Option, none, some, Bool, false, ◌&&◌,
  Text, Map, lookup, insert, delete, if◌then◌else◌, length, keep, any, All, sort_by-perm,
  sort_by-IsSorted, sort_by-All, IsSorted, arith, Bool-cases, ◌==◌, text_eq, text_beq_iff, inl, inr,
  lookup-insert, lookup-delete, Distinct, insert-Distinct, mem_of_lookup, All_mem, delete-Distinct,
  All-insert, All-delete, Option-cases,
}
use dbha.Failure.{FailureInstanceInfo, window_key_of}
use dbha.Window.{
  FailureWindowEntry, SlidingWindow, window_push, window_pop, pop_loop, matured, earlier,
}

-- What a failure makes of the entry that its instance has, if any.
abbrev pub merged : Option FailureWindowEntry → FailureInstanceInfo → ℕ → FailureWindowEntry
merged none inst at = record { inst = inst; count = 1; first_at = at }
merged (some e) inst at = record e { count = e.count + 1 }

pub by_key-window_push :
    (w : SlidingWindow) (inst : FailureInstanceInfo) (at : ℕ)
    → (window_push w inst at).by_key
      ≡ insert (window_key_of inst) (merged (lookup (window_key_of inst) w.by_key) inst at) w.by_key
unfolding window_push
by_key-window_push w inst at = elim (Option-cases (lookup (window_key_of inst) w.by_key)) [
  | inl e ↦ rw (e, window_push) refl
  | inr (v, e) ↦ rw (e, window_push) refl
]

abbrev pub values : Map Text FailureWindowEntry → List FailureWindowEntry
values = map (λ p. p.1)

module _ (duration now : ℕ) where
  pop_loop_result :
      (l : List (Text × FailureWindowEntry)) (r : List FailureWindowEntry)
      (left : Map Text FailureWindowEntry)
      → (pop_loop duration now l (r, left)).0 ≡ r ++ keep (matured duration now) (values l)
  unfolding pop_loop
  pop_loop_result [] r left = sym (append-nil r)
  pop_loop_result ((k, e) ∷ l) r left = elim (Bool-cases (matured duration now e)) [
    | inl q ↦
        rw (q, pop_loop)
          (pop_loop_result l (r ++ e ∷ []) (delete k left)
            ∙ append_assoc r (e ∷ []) (keep (matured duration now) (values l)))
    | inr q ↦ rw (q, pop_loop) (pop_loop_result l r left)
  ]

  abbrev pub leaves : Text → List (Text × FailureWindowEntry) → Bool
  leaves k = any (λ p. (p.0 == k) && matured duration now p.1)

  lookup-pop_loop :
      (k : Text) (l : List (Text × FailureWindowEntry)) (r : List FailureWindowEntry)
      (left : Map Text FailureWindowEntry)
      → lookup k (pop_loop duration now l (r, left)).1
        ≡ (if leaves k l then none else lookup k left)
  unfolding pop_loop
  lookup-pop_loop k [] r left = refl
  lookup-pop_loop k ((j, e) ∷ l) r left = ground (
    arith,
    lookup-pop_loop k l (r ++ e ∷ []) (delete j left),
    lookup-pop_loop k l r left,
    lookup-delete j k left,
  )

  leaves-lookup :
      (k : Text) (m : Map Text FailureWindowEntry)
      → Distinct m
      → leaves k m ≡ elim (lookup k m) [ none ↦ false | some e ↦ matured duration now e ]
  unfolding lookup
  leaves-lookup k [] d = refl
  leaves-lookup k ((j, e) ∷ m) d = ground (arith, leaves-lookup k m d.1, text_beq_iff j k, d.0)

  -- An entry stays in the map exactly if it has not matured.
  lookup-pop_loop_all :
      (k : Text) (m : Map Text FailureWindowEntry)
      → Distinct m
      → lookup k (pop_loop duration now m ([], m)).1 ≡ elim (lookup k m) [
        | none ↦ none
        | some e ↦ if matured duration now e then none else some e
      ]
  lookup-pop_loop_all k m d = ground (arith, lookup-pop_loop k m [] m, leaves-lookup k m d)

  pop_loop-Distinct :
      (l : List (Text × FailureWindowEntry)) (r : List FailureWindowEntry)
      (left : Map Text FailureWindowEntry)
      → Distinct left
      → Distinct (pop_loop duration now l (r, left)).1
  unfolding pop_loop
  pop_loop-Distinct [] r left d = d
  pop_loop-Distinct ((j, e) ∷ l) r left d = elim (Bool-cases (matured duration now e)) [
    | inl q ↦
        rw (q, pop_loop)
          (pop_loop-Distinct l (r ++ e ∷ []) (delete j left) (delete-Distinct j left d))
    | inr q ↦ rw (q, pop_loop) (pop_loop-Distinct l r left d)
  ]

  pop_loop-All {κ} :
      (P : Text × FailureWindowEntry → Type κ) (l : List (Text × FailureWindowEntry))
      (r : List FailureWindowEntry) (left : Map Text FailureWindowEntry)
      → All P left
      → All P (pop_loop duration now l (r, left)).1
  unfolding pop_loop
  pop_loop-All P [] r left d = d
  pop_loop-All P ((j, e) ∷ l) r left d = elim (Bool-cases (matured duration now e)) [
    | inl q ↦
        rw (q, pop_loop) (pop_loop-All P l (r ++ e ∷ []) (delete j left) (All-delete P j left d))
    | inr q ↦ rw (q, pop_loop) (pop_loop-All P l r left d)
  ]

-- The window's map has each instance once, under its own key, with a count of at least one.
pub record WindowIsValid (w : SlidingWindow) : Type 0 where
  pub distinct : Distinct w.by_key
  pub keyed : All (λ p. (p.0 ≡ window_key_of p.1.inst) × (0 < p.1.count)) w.by_key

merged_count_pos :
    (o : Option FailureWindowEntry) (inst : FailureInstanceInfo) (at : ℕ)
    → 0 < (merged o inst at).count
merged_count_pos none inst at = omega arith
merged_count_pos (some e) inst at = omega arith

merged-window_key_of :
    (o : Option FailureWindowEntry) (inst : FailureInstanceInfo) (at : ℕ)
    → ((e : FailureWindowEntry) → o ≡ some e → window_key_of inst ≡ window_key_of e.inst)
    → window_key_of inst ≡ window_key_of (merged o inst at).inst
merged-window_key_of none inst at h = refl
merged-window_key_of (some e) inst at h = h e refl

abbrev pub entries : SlidingWindow → List FailureWindowEntry
entries w = values w.by_key

abbrev IsKeyed : Text × FailureWindowEntry → Type 0
IsKeyed p = (p.0 ≡ window_key_of p.1.inst) × (0 < p.1.count)

pub key_of_lookup :
    (w : SlidingWindow) (k : Text) {e : FailureWindowEntry}
    → WindowIsValid w
    → lookup k w.by_key ≡ some e
    → k ≡ window_key_of e.inst
key_of_lookup w k v h = (All_mem IsKeyed v.keyed (mem_of_lookup k w.by_key h)).0

pub window_push-WindowIsValid :
    (w : SlidingWindow) (inst : FailureInstanceInfo) (at : ℕ)
    → WindowIsValid w
    → WindowIsValid (window_push w inst at)
window_push-WindowIsValid w inst at v =
    let key = window_key_of inst in
    let e = merged (lookup key w.by_key) inst at in
    record {
      distinct = rw (by_key-window_push w inst at) (insert-Distinct key e w.by_key v.distinct);
      keyed = rw (by_key-window_push w inst at) (
          All-insert IsKeyed key e w.by_key
            (
              merged-window_key_of _ inst at (λ e'. key_of_lookup w key v),
              merged_count_pos (lookup key w.by_key) inst at,
            )
            v.keyed);
    }

pub window_pop-WindowIsValid :
    (w : SlidingWindow) (now : ℕ) → WindowIsValid w → WindowIsValid (window_pop w now).1
unfolding window_pop
window_pop-WindowIsValid w now v = record {
  distinct = pop_loop-Distinct w.window_duration now w.by_key [] w.by_key v.distinct;
  keyed = pop_loop-All w.window_duration now IsKeyed w.by_key [] w.by_key v.keyed;
}

-- The popped entries are those that have matured.
pub window_pop-perm :
    (w : SlidingWindow) (now : ℕ)
    → Perm (window_pop w now).0 (keep (matured w.window_duration now) (entries w))
unfolding window_pop
window_pop-perm w now =
    rw (pop_loop_result w.window_duration now w.by_key [] w.by_key)
      (sort_by-perm earlier (keep (matured w.window_duration now) (entries w)))

pub window_pop-IsSorted : (w : SlidingWindow) (now : ℕ) → IsSorted earlier (window_pop w now).0
unfolding window_pop
window_pop-IsSorted w now =
    sort_by-IsSorted earlier (λ x y h. ground arith) (λ x y z p q. ground arith) _

pub window_pop-All {κ} :
    (P : FailureWindowEntry → Type κ) (w : SlidingWindow) (now : ℕ)
    → All P (keep (matured w.window_duration now) (entries w))
    → All P (window_pop w now).0
unfolding window_pop
window_pop-All P w now h =
    sort_by-All earlier P _ (rw (pop_loop_result w.window_duration now w.by_key [] w.by_key) h)

-- The entries that stay are those that have not.
pub lookup-window_pop :
    (w : SlidingWindow) (now : ℕ) (k : Text)
    → WindowIsValid w
    → lookup k (window_pop w now).1.by_key ≡ elim (lookup k w.by_key) [
      | none ↦ none
      | some e ↦ if matured w.window_duration now e then none else some e
    ]
unfolding window_pop
lookup-window_pop w now k v = lookup-pop_loop_all w.window_duration now k w.by_key v.distinct

pub lookup-window_push :
    (w : SlidingWindow) (inst : FailureInstanceInfo) (at : ℕ) (k : Text)
    → lookup k (window_push w inst at).by_key ≡ (
        if window_key_of inst == k
        then some (merged (lookup (window_key_of inst) w.by_key) inst at)
        else lookup k w.by_key)
lookup-window_push w inst at k =
    rw (by_key-window_push w inst at) (lookup-insert (window_key_of inst) k _ w.by_key)

pub window_push_fields :
    (w : SlidingWindow) (inst : FailureInstanceInfo) (at : ℕ)
    → let p = window_push w inst at in
      (p.biz_id ≡ w.biz_id) × (p.window_duration ≡ w.window_duration)
unfolding window_push
window_push_fields w inst at = elim (Option-cases (lookup (window_key_of inst) w.by_key)) [
  | inl e ↦ rw (e, window_push) (refl, refl)
  | inr (v, e) ↦ rw (e, window_push) (refl, refl)
]

pub window_pop_fields :
    (w : SlidingWindow) (now : ℕ)
    → let q = (window_pop w now).1 in
      (q.biz_id ≡ w.biz_id) × (q.window_duration ≡ w.window_duration)
unfolding window_pop
window_pop_fields w now = (refl, refl)

length-insert_pos :
    (k : Text) (e : FailureWindowEntry) (m : Map Text FailureWindowEntry)
    → 0 < length (insert k e m)
unfolding insert
length-insert_pos k e [] = omega arith
length-insert_pos k e ((j, x) ∷ m) = ground arith

pub length-window_push_pos :
    (w : SlidingWindow) (inst : FailureInstanceInfo) (at : ℕ)
    → 0 < length (window_push w inst at).by_key
length-window_push_pos w inst at =
    rw (by_key-window_push w inst at) (length-insert_pos _ _ w.by_key)
