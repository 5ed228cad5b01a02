-- ===== src/Window/Popping.antt =====
-- Popping: `Pop` and `PopAndMarkStart` take the matured entries of one business and no others.
use mathlib.Core.List.{Perm}
use mathlib.Core.List.Perm
use mathlib.Core.Path.{subst}
use dbha.Prelude.{
  ℕ, ◌≡◌, ◌∙◌, List, [], ◌∷◌, none, some, true, Text, Map, lookup, if◌then◌else◌, length, keep, All,
  IsSorted, arith, nat_beq, text_eq, nat_eq, inl, inr, lookup-insert, lookup-delete, Option-cases,
  Memᴰ, mem_of_mem-map, All-keep_of_mem, lookup_of_mem, lookup_nil,
}
use dbha.Failure.{window_key_of}
use dbha.Window.{
  FailureWindowEntry, SlidingWindow, BizWindowManager, pop, pop_and_mark_start, store_or_drop,
  window_pop, matured, earlier,
}
use dbha.Window.Manager.{entry_at, ManagerIsValid, window_of-IsStored, store_or_drop-ManagerIsValid}
use dbha.Window.Sliding.{
  WindowIsValid, window_pop-WindowIsValid, lookup-window_pop, window_pop_fields, entries,
  window_pop-perm, window_pop-IsSorted, window_pop-All, key_of_lookup,
}

lookup_of_empty :
    (k : Text) (l : Map Text FailureWindowEntry) → nat_beq (length l) 0 ≡ true → lookup k l ≡ none
lookup_of_empty k [] h = lookup_nil k
lookup_of_empty k (p ∷ l) h = absurd (ground arith)

module _ (m : BizWindowManager) (i : Map Text ℕ) (biz now : ℕ) (w : SlidingWindow)
    (v : ManagerIsValid m) (e : lookup biz m.windows ≡ some w) where
  abbrev after_pop : BizWindowManager
  after_pop = store_or_drop (record m { inflight = i }) biz (window_pop w now).1

  popped-ManagerIsValid : ManagerIsValid after_pop
  popped-ManagerIsValid =
      let s = window_of-IsStored m biz v e in
      let (eb, ed) = window_pop_fields w now in
      store_or_drop-ManagerIsValid (record m { inflight = i }) biz (window_pop w now).1
        (record { distinct = v.distinct; each = v.each }) (eb ∙ s.0) (ed ∙ s.1)
        (window_pop-WindowIsValid w now s.2)

  entry_at-popped :
      (biz' : ℕ) (k : Text)
      → entry_at after_pop biz' k ≡ (
          if nat_beq biz biz'
          then elim (entry_at m biz k) [
            | none ↦ none
            | some x ↦ if matured m.window_duration now x then none else some x
          ]
          else entry_at m biz' k)
  unfolding store_or_drop entry_at
  entry_at-popped biz' k =
      let s = window_of-IsStored m biz v e in
      ground (
        arith,
        e,
        s.1,
        lookup-window_pop w now k s.2,
        lookup-delete biz biz' m.windows,
        lookup-insert biz biz' (window_pop w now).1 m.windows,
        lookup_of_empty k (window_pop w now).1.by_key,
      )

-- The entries in the window of a business.
abbrev pub biz_entries : BizWindowManager → ℕ → List FailureWindowEntry
biz_entries m biz = elim (lookup biz m.windows) [ none ↦ [] | some w ↦ entries w ]

pub pop_and_mark_start-ManagerIsValid :
    (m : BizWindowManager) (biz now : ℕ)
    → ManagerIsValid m
    → ManagerIsValid (pop_and_mark_start m biz now).1
unfolding pop_and_mark_start
pop_and_mark_start-ManagerIsValid m biz now v = elim (Option-cases (lookup biz m.windows)) [
  | inl e ↦ rw (e, pop_and_mark_start) v
  | inr (w, e) ↦ rw (e, pop_and_mark_start) (popped-ManagerIsValid m _ biz now w v e)
]

pub pop-ManagerIsValid :
    (m : BizWindowManager) (biz now : ℕ) → ManagerIsValid m → ManagerIsValid (pop m biz now).1
unfolding pop
pop-ManagerIsValid m biz now v = elim (Option-cases (lookup biz m.windows)) [
  | inl e ↦ rw (e, pop) v
  | inr (w, e) ↦ rw (e, pop) (popped-ManagerIsValid m m.inflight biz now w v e)
]

entry_at_no_window :
    (m : BizWindowManager) (biz now biz' : ℕ) (k : Text)
    → lookup biz m.windows ≡ none
    → entry_at m biz' k ≡ (
        if nat_beq biz biz'
        then elim (entry_at m biz k) [
          | none ↦ none
          | some x ↦ if matured m.window_duration now x then none else some x
        ]
        else entry_at m biz' k)
unfolding entry_at
entry_at_no_window m biz now biz' k e = ground (arith, e)

-- Of a well-formed manager, `PopAndMarkStart` takes the matured entries of the business, each once, earliest first; exactly
-- the others stay, and the entries of other businesses are left alone.
pub pop_and_mark_start_lem :
    (m : BizWindowManager) (biz now : ℕ)
    → ManagerIsValid m
    → let (result, m') = pop_and_mark_start m biz now in
      Perm result (keep (matured m.window_duration now) (biz_entries m biz))
      × IsSorted earlier result
      × ((biz' : ℕ) (k : Text)
          → entry_at m' biz' k ≡ (
              if nat_beq biz biz'
              then elim (entry_at m biz k) [
                | none ↦ none
                | some x ↦ if matured m.window_duration now x then none else some x
              ]
              else entry_at m biz' k))
unfolding pop_and_mark_start
pop_and_mark_start_lem m biz now v = elim (Option-cases (lookup biz m.windows)) [
  | inl e ↦
      rw (e, pop_and_mark_start, biz_entries)
        (Perm.refl [], tt, λ b k. entry_at_no_window m biz now b k e)
  | inr (w, e) ↦
      rw (e, pop_and_mark_start, biz_entries)
        (
          subst (λ d. Perm (window_pop w now).0 (keep (matured d now) (entries w)))
              (window_of-IsStored m biz v e).1 (window_pop-perm w now),
          window_pop-IsSorted w now,
          entry_at-popped m _ biz now w v e,
        )
]

entry_of_mem :
    (m : BizWindowManager) (biz : ℕ) (w : SlidingWindow) (e : FailureWindowEntry)
    → WindowIsValid w
    → lookup biz m.windows ≡ some w
    → Memᴰ e (entries w)
    → entry_at m biz (window_key_of e.inst) ≡ some e
unfolding entry_at
entry_of_mem m biz w e v q h =
    let (p, mem, eq) = mem_of_mem-map (λ p. p.1) w.by_key h in
    let at : lookup p.0 w.by_key ≡ some p.1 = lookup_of_mem w.by_key v.distinct mem in
    let key : p.0 ≡ window_key_of p.1.inst = key_of_lookup w p.0 v at in
    rw (q, entry_at) (rw eq (rw (← key) at))

-- Every popped entry has matured, and stands in the window under the key of its instance.
pub popped-All :
    (m : BizWindowManager) (biz now : ℕ) (P : FailureWindowEntry → Type 0)
    → ((e : FailureWindowEntry)
        → entry_at m biz (window_key_of e.inst) ≡ some e
        → matured m.window_duration now e ≡ true
        → P e)
    → ManagerIsValid m
    → All P (pop_and_mark_start m biz now).0
unfolding pop_and_mark_start
popped-All m biz now P f v = elim (Option-cases (lookup biz m.windows)) [
  | inl q ↦ rw (q, pop_and_mark_start) tt
  | inr (w, q) ↦
      let s = window_of-IsStored m biz v q in
      rw (q, pop_and_mark_start)
        (window_pop-All P w now (
          All-keep_of_mem P (matured w.window_duration now) (entries w) (λ e mem t.
            f e (entry_of_mem m biz w e s.2 q mem) (subst (λ d. matured d now e ≡ true) s.1 t))))
]
