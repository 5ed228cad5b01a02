-- ===== src/Flow/Grouping.antt =====
-- `groupEntriesByCloudAndDbType`: every popped entry is in the group of its cloud and database type.
use dbha.Prelude.{
  ℕ, List, [], ◌∷◌, ◌++◌, none, some, true, Text, ◌≡◌, sym, refl, arith, text_eq, ◌==◌,
  text_beq_iff, Map, lookup, insert, lookup-insert, lookup-insert_self, Memᴰ, Option-cases, inl,
  inr, sort_by, mem-sort_by, Bool-cases, subst,
}
use dbha.Failure.{FailureInstanceInfo, FailureGroup}
use dbha.Window.{FailureWindowEntry}
use dbha.Flow.Handling.{
  group_with, grown, group_key, group_loop, groups_of, group_entries_by_cloud_and_db_type,
  text_less,
}

mem_append_left : {A : Type 0} {a : A} (xs ys : List A) → Memᴰ a xs → Memᴰ a (xs ++ ys)
mem_append_left [] ys m = elim m [ ]
mem_append_left (x ∷ xs) ys (Memᴰ.head e) = Memᴰ.head e
mem_append_left (x ∷ xs) ys (Memᴰ.tail m) = Memᴰ.tail (mem_append_left xs ys m)

mem_last : {A : Type 0} (xs : List A) (a : A) → Memᴰ a (xs ++ a ∷ [])
mem_last [] a = Memᴰ.head refl
mem_last (x ∷ xs) a = Memᴰ.tail (mem_last xs a)

-- The instance is in the group of its key, which is one of the keys.
record Covered (groups : Map Text FailureGroup) (ks : List Text) (inst : FailureInstanceInfo)
    : Type 0 where
  group : FailureGroup
  found : lookup (group_key inst) groups ≡ some group
  holds : Memᴰ inst group.instances
  keyed : Memᴰ (group_key inst) ks

add_keeps :
    (groups : Map Text FailureGroup) (ks : List Text) (g : FailureGroup)
    (new inst : FailureInstanceInfo)
    → lookup (group_key new) groups ≡ some g
    → Covered groups ks inst
    → Covered
        (insert (group_key new) (record g { instances = g.instances ++ new ∷ [] }) groups)
        ks
        inst
add_keeps groups ks g new inst at c = elim (Bool-cases (group_key new == group_key inst)) [
  | inl e ↦ record {
    group = record g { instances = g.instances ++ new ∷ [] };
    found =
        rw
          (
            lookup-insert (group_key new) (group_key inst)
                (record g { instances = g.instances ++ new ∷ [] }) groups,
            e,
          )
          refl;
    holds = mem_append_left g.instances (new ∷ []) (
        subst (λ (h : FailureGroup). Memᴰ inst h.instances) (same_group c.group c.found e) c.holds);
    keyed = c.keyed;
  }
  | inr e ↦ record {
    group = c.group;
    found =
        rw
          (
            lookup-insert (group_key new) (group_key inst)
                (record g { instances = g.instances ++ new ∷ [] }) groups,
            e,
          )
          c.found;
    holds = c.holds;
    keyed = c.keyed;
  }
]
  where
    same_group :
        (h : FailureGroup)
        → lookup (group_key inst) groups ≡ some h
        → (group_key new == group_key inst) ≡ true
        → h ≡ g
    same_group h found e =
        let q : group_key new ≡ group_key inst =
          (text_beq_iff (group_key new) (group_key inst)).0 e in
        cc (found, at, q)

new_keeps :
    (groups : Map Text FailureGroup) (ks : List Text) (g : FailureGroup)
    (new inst : FailureInstanceInfo)
    → lookup (group_key new) groups ≡ none
    → Covered groups ks inst
    → Covered (insert (group_key new) g groups) (ks ++ group_key new ∷ []) inst
new_keeps groups ks g new inst at c = elim (Bool-cases (group_key new == group_key inst)) [
  | inl e ↦
      let q : group_key new ≡ group_key inst =
        (text_beq_iff (group_key new) (group_key inst)).0 e in
      absurd (cc (c.found, at, q))
  | inr e ↦ record {
    group = c.group;
    found = rw (lookup-insert (group_key new) (group_key inst) g groups, e) c.found;
    holds = c.holds;
    keyed = mem_append_left ks (group_key new ∷ []) c.keyed;
  }
]

-- The keys of the loop are the keys of its map.
Keyed : Map Text FailureGroup → List Text → Type 0
Keyed groups ks = (k : Text) (g : FailureGroup) → lookup k groups ≡ some g → Memᴰ k ks

group_loop_keeps :
    (groups : Map Text FailureGroup) (ks : List Text) (entries : List FailureWindowEntry)
    (inst : FailureInstanceInfo)
    → Covered groups ks inst
    → let r = group_loop groups ks entries in Covered r.0 r.1 inst
unfolding group_loop
group_loop_keeps groups ks [] inst c = c
group_loop_keeps groups ks (entry ∷ rest) inst c =
    elim (Option-cases (lookup (group_key entry.inst) groups)) [
      | inl e ↦
          rw (e, group_loop)
            (group_loop_keeps (insert (group_key entry.inst) (group_with entry.inst) groups)
              (ks ++ group_key entry.inst ∷ []) rest inst
              (new_keeps groups ks _ entry.inst inst e c))
      | inr (g, e) ↦
          rw (e, group_loop)
            (group_loop_keeps (insert (group_key entry.inst) (grown g entry.inst) groups) ks rest
              inst (add_keeps groups ks g entry.inst inst e c))
    ]

add-Keyed :
    (groups : Map Text FailureGroup) (ks : List Text) (g g' : FailureGroup) (key : Text)
    → lookup key groups ≡ some g
    → Keyed groups ks
    → Keyed (insert key g' groups) ks
unfolding Keyed
add-Keyed groups ks g g' key at h k x found = elim (Bool-cases (key == k)) [
  | inl e ↦ subst (λ j. Memᴰ j ks) ((text_beq_iff key k).0 e) (h key g at)
  | inr e ↦ h k x (ground (arith, lookup-insert key k g' groups, found, e))
]

new-Keyed :
    (groups : Map Text FailureGroup) (ks : List Text) (g' : FailureGroup) (key : Text)
    → Keyed groups ks
    → Keyed (insert key g' groups) (ks ++ key ∷ [])
unfolding Keyed
new-Keyed groups ks g' key h k x found = elim (Bool-cases (key == k)) [
  | inl e ↦ subst (λ j. Memᴰ j (ks ++ key ∷ [])) ((text_beq_iff key k).0 e) (mem_last ks key)
  | inr e ↦
      mem_append_left ks (key ∷ [])
        (h k x (ground (arith, lookup-insert key k g' groups, found, e)))
]

add_covers :
    (groups : Map Text FailureGroup) (ks : List Text) (g : FailureGroup) (new : FailureInstanceInfo)
    → lookup (group_key new) groups ≡ some g
    → Keyed groups ks
    → Covered
        (insert (group_key new) (record g { instances = g.instances ++ new ∷ [] }) groups)
        ks
        new
unfolding Keyed
add_covers groups ks g new at h = record {
  group = record g { instances = g.instances ++ new ∷ [] };
  found = lookup-insert_self (group_key new) _ groups;
  holds = mem_last g.instances new;
  keyed = h (group_key new) g at;
}

new_covers :
    (groups : Map Text FailureGroup) (ks : List Text) (cloud : ℕ) (db_type : Text)
    (new : FailureInstanceInfo)
    → let g : FailureGroup = record {
      bk_cloud_id = cloud;
      db_type = db_type;
      instances = new ∷ [];
    } in
      Covered (insert (group_key new) g groups) (ks ++ group_key new ∷ []) new
new_covers groups ks cloud db_type new = record {
  group = record { bk_cloud_id = cloud; db_type = db_type; instances = new ∷ [] };
  found = lookup-insert_self (group_key new) _ groups;
  holds = Memᴰ.head refl;
  keyed = mem_last ks (group_key new);
}

group_loop_covers :
    (groups : Map Text FailureGroup) (ks : List Text) (entries : List FailureWindowEntry)
    (entry : FailureWindowEntry)
    → Keyed groups ks
    → Memᴰ entry entries
    → let r = group_loop groups ks entries in Covered r.0 r.1 entry.inst
unfolding group_loop
group_loop_covers groups ks [] entry h m = elim m [ ]
group_loop_covers groups ks (first ∷ rest) entry h (Memᴰ.head q) =
    elim (Option-cases (lookup (group_key first.inst) groups)) [
      | inl e ↦
          rw (q, e, group_loop)
            (group_loop_keeps _ _ rest first.inst (new_covers groups ks _ _ first.inst))
      | inr (g, e) ↦
          rw (q, e, group_loop)
            (group_loop_keeps _ ks rest first.inst (add_covers groups ks g first.inst e h))
    ]
group_loop_covers groups ks (first ∷ rest) entry h (Memᴰ.tail m) =
    elim (Option-cases (lookup (group_key first.inst) groups)) [
      | inl e ↦
          rw (e, group_loop)
            (group_loop_covers (insert (group_key first.inst) (group_with first.inst) groups)
              (ks ++ group_key first.inst ∷ []) rest entry (new-Keyed groups ks _ _ h) m)
      | inr (g, e) ↦
          rw (e, group_loop)
            (group_loop_covers (insert (group_key first.inst) (grown g first.inst) groups) ks rest
              entry (add-Keyed groups ks g _ _ e h) m)
    ]

mem_groups_of :
    (groups : Map Text FailureGroup) (ks : List Text) (k : Text) (g : FailureGroup)
    → lookup k groups ≡ some g
    → Memᴰ k ks
    → Memᴰ g (groups_of groups ks)
unfolding groups_of
mem_groups_of groups [] k g at m = elim m [ ]
mem_groups_of groups (j ∷ ks) k g at (Memᴰ.head q) =
    rw (sym q) (rw (at, groups_of) (Memᴰ.head refl))
mem_groups_of groups (j ∷ ks) k g at (Memᴰ.tail m) = elim (Option-cases (lookup j groups)) [
  | inl e ↦ rw (e, groups_of) (mem_groups_of groups ks k g at m)
  | inr (h, e) ↦ rw (e, groups_of) (Memᴰ.tail (mem_groups_of groups ks k g at m))
]

none-Keyed : Keyed [] []
unfolding Keyed lookup
none-Keyed k g h = cc

-- Every popped entry is in one of the groups that are handled.
pub group_entries-covers :
    (entries : List FailureWindowEntry) (entry : FailureWindowEntry)
    → Memᴰ entry entries
    → (g : FailureGroup) × Memᴰ g (group_entries_by_cloud_and_db_type entries)
      × Memᴰ entry.inst g.instances
unfolding group_entries_by_cloud_and_db_type
group_entries-covers entries entry m =
    let c = group_loop_covers [] [] entries entry none-Keyed m in
    let (groups, ks) = group_loop [] [] entries in
    (
      c.group,
      mem_groups_of groups (sort_by text_less ks) (group_key entry.inst) c.group c.found
          (mem-sort_by text_less ks c.keyed),
      c.holds,
    )
