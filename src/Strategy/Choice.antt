-- ===== src/Strategy/Choice.antt =====
-- Which strategy wins: the best of those whose count reaches their threshold, if there is one.
use mathlib.Core.List.{append_assoc, append-nil}
use dbha.Prelude.{
  ℕ, ◌≤◌, ◌≡◌, ◌↔◌, refl, sym, ◌∙◌, List, [], ◌∷◌, ◌++◌, Option, none, some, Bool, true, false,
  keep, sort_by, sort_by-IsSorted, IsSorted, mem_of_mem-sort_by, mem-sort_by, Memᴰ, All_mem,
  mem-keep, arith, Bool-cases, inl, inr, if◌then◌else◌, All-keep, subst, is_empty,
}
use dbha.Failure.{FailureInstanceInfo, FailureGroup}
use dbha.Strategy.{
  DbSwitchingStrategy, candidate_less, sort_candidates, threshold_of, strategy_count, is_candidate,
  collect_candidates, match_strategy_for_group, head_of,
}

collect_candidates_lem :
    (instances : List FailureInstanceInfo) (cs ss : List DbSwitchingStrategy)
    → collect_candidates instances cs ss ≡ cs ++ keep (is_candidate instances) ss
unfolding collect_candidates
collect_candidates_lem instances cs [] = sym (append-nil cs)
collect_candidates_lem instances cs (s ∷ ss) = elim (Bool-cases (is_candidate instances s)) [
  | inl q ↦
      rw (q, collect_candidates)
        (collect_candidates_lem instances (cs ++ s ∷ []) ss
          ∙ append_assoc cs (s ∷ []) (keep (is_candidate instances) ss))
  | inr q ↦ rw (q, collect_candidates) (collect_candidates_lem instances cs ss)
]

less_asym : (a b : DbSwitchingStrategy) → candidate_less a b ≡ true → candidate_less b a ≡ false
unfolding candidate_less
less_asym a b h = ground arith

less_trans :
    (a b c : DbSwitchingStrategy)
    → candidate_less b a ≡ false
    → candidate_less c b ≡ false
    → candidate_less c a ≡ false
unfolding candidate_less
less_trans a b c h k = ground arith

-- `SortCandidates` puts no strategy before a better one.
pub sort_candidates-IsSorted :
    (cs : List DbSwitchingStrategy) → IsSorted candidate_less (sort_candidates cs)
unfolding sort_candidates
sort_candidates-IsSorted cs = sort_by-IsSorted candidate_less less_asym less_trans cs

-- The strategy is one of those read, reaches its threshold, and none that does is better.
pub record IsBest (instances : List FailureInstanceInfo) (ss : List DbSwitchingStrategy)
    (s : DbSwitchingStrategy) : Type 0 where
  pub read : Memᴰ s ss
  pub reaches : threshold_of s.trigger_count ≤ strategy_count instances s
  pub best :
      (t : DbSwitchingStrategy)
      → Memᴰ t ss
      → threshold_of t.trigger_count ≤ strategy_count instances t
      → candidate_less t s ≡ false

mem_of_mem-keep :
    (p : DbSwitchingStrategy → Bool) {a : DbSwitchingStrategy} (xs : List DbSwitchingStrategy)
    → Memᴰ a (keep p xs)
    → Memᴰ a xs
mem_of_mem-keep p [] m = m
mem_of_mem-keep p {a} (x ∷ xs) m = branch (p x) m (mem_of_mem-keep p xs)
  where
    branch :
        (b : Bool)
        → Memᴰ a (if b then x ∷ keep p xs else keep p xs)
        → (Memᴰ a (keep p xs) → Memᴰ a xs)
        → Memᴰ a (x ∷ xs)
    branch true (Memᴰ.head e) ih = Memᴰ.head e
    branch true (Memᴰ.tail n) ih = Memᴰ.tail (ih n)
    branch false n ih = Memᴰ.tail (ih n)

is_candidate_iff :
    (instances : List FailureInstanceInfo) (s : DbSwitchingStrategy)
    → (is_candidate instances s ≡ true)
      ↔ (threshold_of s.trigger_count ≤ strategy_count instances s)
unfolding is_candidate
is_candidate_iff instances s = ground arith

module _ (instances : List FailureInstanceInfo) (ss : List DbSwitchingStrategy) where
  abbrev candidates : List DbSwitchingStrategy
  candidates = keep (is_candidate instances) ss

  mem_sorted :
      (t : DbSwitchingStrategy)
      → Memᴰ t ss
      → threshold_of t.trigger_count ≤ strategy_count instances t
      → Memᴰ t (sort_candidates candidates)
  unfolding sort_candidates
  mem_sorted t m h =
      mem-sort_by candidate_less candidates
        (mem-keep (is_candidate instances) ss m ((is_candidate_iff instances t).1 h))

  of_mem_sorted :
      (t : DbSwitchingStrategy)
      → Memᴰ t (sort_candidates candidates)
      → Memᴰ t ss × (threshold_of t.trigger_count ≤ strategy_count instances t)
  unfolding sort_candidates
  of_mem_sorted t m =
      let c : Memᴰ t candidates = mem_of_mem-sort_by candidate_less candidates m in
      (
        mem_of_mem-keep (is_candidate instances) ss c,
        (is_candidate_iff instances t).0 (
            All_mem (λ x. is_candidate instances x ≡ true) (All-keep (is_candidate instances) ss)
              c),
      )

  not_less_head :
      (x : DbSwitchingStrategy) (xs : List DbSwitchingStrategy) (t : DbSwitchingStrategy)
      → IsSorted candidate_less (x ∷ xs)
      → Memᴰ t (x ∷ xs)
      → candidate_less t x ≡ false
  not_less_head x xs t h (Memᴰ.head e) =
      rw e (elim (Bool-cases (candidate_less x x)) [ inl q ↦ less_asym x x q | inr q ↦ q ])
  not_less_head x xs t h (Memᴰ.tail m) = All_mem (λ y. candidate_less y x ≡ false) h.0 m

  head-IsBest :
      (sorted : List DbSwitchingStrategy) (s : DbSwitchingStrategy)
      → sort_candidates candidates ≡ sorted
      → head_of sorted ≡ some s
      → IsBest instances ss s
  head-IsBest [] s q h = cc
  head-IsBest (x ∷ xs) s q h =
      let ordered : IsSorted candidate_less (x ∷ xs) =
        subst (IsSorted candidate_less) q (sort_candidates-IsSorted candidates) in
      let (read, reaches) = of_mem_sorted x (rw q (Memᴰ.head refl)) in
      let best : IsBest instances ss x = record {
        read = read;
        reaches = reaches;
        best = λ t m r. not_less_head x xs t ordered (subst (Memᴰ t) q (mem_sorted t m r));
      } in
      subst (IsBest instances ss) (cc) best

  none_reaches :
      (sorted : List DbSwitchingStrategy)
      → sort_candidates candidates ≡ sorted
      → head_of sorted ≡ none
      → (t : DbSwitchingStrategy) → Memᴰ t ss
      → ¬ (threshold_of t.trigger_count ≤ strategy_count instances t)
  none_reaches [] q h t m = λ r. elim (subst (Memᴰ t) q (mem_sorted t m r)) [ ]
  none_reaches (x ∷ xs) q h t m = cc

  reaches_none :
      (sorted : List DbSwitchingStrategy)
      → sort_candidates candidates ≡ sorted
      → ((t : DbSwitchingStrategy)
          → Memᴰ t ss
          → ¬ (threshold_of t.trigger_count ≤ strategy_count instances t))
      → head_of sorted ≡ none
  reaches_none [] q f = refl
  reaches_none (x ∷ xs) q f =
      let (read, reaches) = of_mem_sorted x (rw q (Memᴰ.head refl)) in absurd (f x read reaches)

pick_head :
    (cs : List DbSwitchingStrategy)
    → (if is_empty cs then none else head_of (sort_candidates cs)) ≡ head_of (sort_candidates cs)
unfolding sort_candidates sort_by
pick_head [] = refl
pick_head (c ∷ cs) = refl

module _ (read : ℕ → Option (List DbSwitchingStrategy)) (group : FailureGroup)
    (first : FailureInstanceInfo) (rest : List FailureInstanceInfo) (ss : List DbSwitchingStrategy)
    (e : group.instances ≡ first ∷ rest) (r : read first.bk_biz_id ≡ some ss) where
  matched_head :
      match_strategy_for_group read group
      ≡ head_of (sort_candidates (candidates group.instances ss))
  unfolding match_strategy_for_group
  matched_head = rw e (
      rw (r, match_strategy_for_group)
        (rw (collect_candidates_lem (first ∷ rest) [] ss)
          (pick_head (candidates (first ∷ rest) ss))))

  -- For a group that is not empty and a query for strategies that answers: a strategy that is
  -- matched is one of those read for the group's business, reaches its threshold on the group's
  -- instances, and none that does is better: a business strategy before a global one, then the lower
  -- priority value.
  pub match_strategy_for_group-IsBest :
      (s : DbSwitchingStrategy)
      → match_strategy_for_group read group ≡ some s
      → IsBest group.instances ss s
  match_strategy_for_group-IsBest s m =
      head-IsBest group.instances ss _ s refl (sym matched_head ∙ m)

  -- For a group that is not empty and a query for strategies that answers: no strategy is matched
  -- exactly if none that was read reaches its threshold.
  pub match_strategy_for_group-none_iff : (match_strategy_for_group read group ≡ none) ↔ (
      (t : DbSwitchingStrategy)
      → Memᴰ t ss
      → ¬ (threshold_of t.trigger_count ≤ strategy_count group.instances t))
  match_strategy_for_group-none_iff = (
    (λ m. none_reaches group.instances ss _ refl (sym matched_head ∙ m)),
    (λ f. matched_head ∙ reaches_none group.instances ss _ refl f),
  )
