-- ===== src/Prelude/Groups.antt =====
-- Grouping by a key: `m[key] = append(m[key], x)` over a slice, and what the map then holds.
use mathlib.Core.Path.{◌≡◌, refl, sym, ap, ◌∙◌, fun_ext}
use mathlib.Core.Bool.{Bool}
use mathlib.Core.List.{List, [], ◌∷◌, ◌++◌, map, append_assoc, append-nil}
use mathlib.Core.Option.{none, some}
use mathlib.Core.Logic.{inl, inr}
use native.Mathlib.Omega.{arith}
use dbha.Prelude.Tests.{Equality, ◌==◌, if◌then◌else◌, Bool-cases}
use dbha.Prelude.Lists.{keep, elem, count_if, All, All-of_mem}
use dbha.Prelude.Maps.{
  Map, lookup, insert, lookup-insert, Distinct, insert-Distinct, lookup_nil, lookup_of_mem,
}

abbrev pub keys : {K V : Type 0} → Map K V → List K
keys = map (λ p. p.0)

module _ {K A : Type 0} ⦃e : Equality K⦄ where
  -- m[k], where the zero value of a slice is nil
  abbrev pub get_list : K → Map K (List A) → List A
  get_list k m = elim (lookup k m) [ none ↦ [] | some xs ↦ xs ]

  unfoldable pub group_from : (A → K) → Map K (List A) → List A → Map K (List A)
  group_from key m [] = m
  group_from key m (x ∷ xs) = group_from key (insert (key x) (get_list (key x) m ++ x ∷ []) m) xs

  -- The keys of a slice, each once, in the order in which they are first seen.
  unfoldable pub seen_from : (A → K) → List K → List A → List K
  seen_from key ks [] = ks
  seen_from key ks (x ∷ xs) = seen_from key (if elem (key x) ks then ks else ks ++ key x ∷ []) xs

  pub get_list-insert :
      (j k : K) (v : List A) (m : Map K (List A))
      → get_list k (insert j v m) ≡ (if j == k then v else get_list k m)
  get_list-insert j k v m = ground (arith, lookup-insert j k v m)

  pub get_list-group_from :
      (key : A → K) (m : Map K (List A)) (xs : List A) (k : K)
      → get_list k (group_from key m xs) ≡ get_list k m ++ keep (λ x. key x == k) xs
  unfolding group_from
  get_list-group_from key m [] k = sym (append-nil _)
  get_list-group_from key m (x ∷ xs) k =
      let v = get_list (key x) m ++ x ∷ [] in
      get_list-group_from key (insert (key x) v m) xs k ∙ elim (Bool-cases (key x == k)) [
        | inl q ↦
            let same : key x ≡ k = (e.same_iff (key x) k).0 q in
            rw (get_list-insert (key x) k v m) (
              rw q (
                ap (λ j. (get_list j m ++ x ∷ []) ++ keep (λ y. key y == k) xs) same
                ∙ append_assoc (get_list k m) (x ∷ []) (keep (λ y. key y == k) xs)))
        | inr q ↦ rw (get_list-insert (key x) k v m) (rw q refl)
      ]

  keys-insert :
      (k : K) (v : List A) (m : Map K (List A))
      → keys (insert k v m) ≡ (if elem k (keys m) then keys m else keys m ++ k ∷ [])
  unfolding insert
  keys-insert k v [] = refl
  keys-insert k v ((j, w) ∷ m) = ground (arith, e.same_iff j k, keys-insert k v m)

  pub keys-group_from :
      (key : A → K) (m : Map K (List A)) (xs : List A)
      → keys (group_from key m xs) ≡ seen_from key (keys m) xs
  unfolding group_from seen_from
  keys-group_from key m [] = refl
  keys-group_from key m (x ∷ xs) =
      keys-group_from key (insert (key x) (get_list (key x) m ++ x ∷ []) m) xs
      ∙ ap (λ ks. seen_from key ks xs) (keys-insert (key x) _ m)

  pub group_from-Distinct :
      (key : A → K) (m : Map K (List A)) (xs : List A) → Distinct m → Distinct (group_from key m xs)
  unfolding group_from
  group_from-Distinct key m [] d = d
  group_from-Distinct key m (x ∷ xs) d =
      group_from-Distinct key (insert (key x) (get_list (key x) m ++ x ∷ []) m) xs
        (insert-Distinct (key x) _ m d)

  count-suffix :
      (good : List A → Bool) (m s : Map K (List A))
      → All (λ p. lookup p.0 m ≡ some p.1) s
      → count_if (λ p. good p.1) s ≡ count_if (λ k. good (get_list k m)) (keys s)
  count-suffix good m [] h = refl
  count-suffix good m ((k, v) ∷ s) h = ground (arith, h.0, count-suffix good m s h.1)

  -- To count groups is to count keys by the elements of the slice that have the key.
  pub count-group_from :
      (good : List A → Bool) (key : A → K) (xs : List A)
      → count_if (λ p. good p.1) (group_from key [] xs)
        ≡ count_if (λ k. good (keep (λ x. key x == k) xs)) (seen_from key [] xs)
  count-group_from good key xs =
      let m = group_from key [] xs in
      count-suffix good m m (
        All-of_mem (λ p. lookup p.0 m ≡ some p.1) m
          (λ p mem. lookup_of_mem m (group_from-Distinct key [] xs tt) mem))
      ∙ ap (count_if (λ k. good (get_list k m))) (keys-group_from key [] xs)
      ∙ ap (λ f. count_if f (seen_from key [] xs))
          (fun_ext (λ k. ap good (get_list-group_from key [] xs k ∙ from_nil k)))
    where
      from_nil : (k : K) → get_list k [] ++ keep (λ x. key x == k) xs ≡ keep (λ x. key x == k) xs
      from_nil k = ground (arith, lookup_nil {K = K} {V = List A} k)
