-- ===== src/Window/Manager.antt =====
-- The manager of the windows of all businesses: what each method does to an entry, and what holds
-- of every manager that the methods reach.
use dbha.Prelude.{
  ℕ, ◌+◌, ◌<◌, ◌≡◌, ◌↔◌, refl, ◌∙◌, Option, none, some, true, false, Text, lookup, insert, delete,
  ltb, if◌then◌else◌, length, All, arith, Bool-cases, ◌==◌, nat_beq, text_eq, nat_eq, inl, inr,
  lookup-insert, Distinct, insert-Distinct, delete-Distinct, All-insert, All-delete, Option-cases,
  lookup_nil, insert-insert, mem_of_lookup, All_mem,
}
use dbha.Failure.{FailureInstanceInfo, window_key_of}
use dbha.Window.{
  FailureWindowEntry, SlidingWindow, BizWindowManager, new_sliding_window, get_or_create_window,
  push_into_window, push, store_or_drop, window_push,
}
use dbha.Window.Sliding.{
  merged, WindowIsValid, window_push-WindowIsValid, lookup-window_push, window_push_fields,
  length-window_push_pos,
}

-- The entry of an instance's key in the window of a business.
unfoldable pub entry_at : BizWindowManager → ℕ → Text → Option FailureWindowEntry
entry_at m biz k = elim (lookup biz m.windows) [ none ↦ none | some w ↦ lookup k w.by_key ]

-- The key has an inflight mark that is younger than its time to live.
abbrev pub IsInflight : BizWindowManager → Text → ℕ → Type 0
IsInflight m key clock =
    (start : ℕ) × (lookup key m.inflight ≡ some start) × (clock < start + m.inflight_ttl)

-- A push is refused exactly while the instance is inflight.
pub push-refused_iff :
    (m : BizWindowManager) (clock biz : ℕ) (inst : FailureInstanceInfo) (at : ℕ)
    → ((push m clock biz inst at).1 ≡ false) ↔ IsInflight m (window_key_of inst) clock
unfolding push
push-refused_iff m clock biz inst at =
    elim (Option-cases (lookup (window_key_of inst) m.inflight)) [
      | inl e ↦ ((λ h. ground arith), (λ i. ground (arith, i.1)))
      | inr (start, e) ↦ ((λ h. (start, e, ground arith)), (λ i. ground (arith, i.1, i.2)))
    ]

-- A refused push changes nothing.
pub push_refused_same :
    (m : BizWindowManager) (clock biz : ℕ) (inst : FailureInstanceInfo) (at : ℕ)
    → (push m clock biz inst at).1 ≡ false
    → (push m clock biz inst at).0 ≡ m
unfolding push
push_refused_same m clock biz inst at h = ground arith

entry_at-push_into_window :
    (m : BizWindowManager) (biz : ℕ) (inst : FailureInstanceInfo) (at biz' : ℕ) (k : Text)
    → entry_at (push_into_window m biz inst at) biz' k ≡ (
        if nat_beq biz biz'
        then (if window_key_of inst == k
            then some (merged (entry_at m biz (window_key_of inst)) inst at)
            else entry_at m biz k)
        else entry_at m biz' k)
unfolding entry_at push_into_window get_or_create_window new_sliding_window
entry_at-push_into_window m biz inst at biz' k = elim (Option-cases (lookup biz m.windows)) [
  | inl e ↦
      let w = new_sliding_window m.window_duration biz m.my_service_id in
      ground (
        arith,
        e,
        lookup-insert biz biz' (window_push w inst at) (insert biz w m.windows),
        lookup-insert biz biz' w m.windows,
        lookup-window_push w inst at k,
        lookup_nil {K = Text} {V = FailureWindowEntry} k,
        lookup_nil {K = Text} {V = FailureWindowEntry} (window_key_of inst),
      )
  | inr (w, e) ↦ ground (
    arith,
    e,
    lookup-insert biz biz' (window_push w inst at) m.windows,
    lookup-window_push w inst at k,
  )
]

-- An accepted push merges the failure into the entry of its instance in its business's window, or
-- opens one with count 1, and leaves every other entry of every business as it was.
pub entry_at-push :
    (m : BizWindowManager) (clock biz : ℕ) (inst : FailureInstanceInfo) (at biz' : ℕ) (k : Text)
    → (push m clock biz inst at).1 ≡ true
    → entry_at (push m clock biz inst at).0 biz' k ≡ (
        if nat_beq biz biz'
        then (if window_key_of inst == k
            then some (merged (entry_at m biz (window_key_of inst)) inst at)
            else entry_at m biz k)
        else entry_at m biz' k)
unfolding push entry_at
entry_at-push m clock biz inst at biz' k h =
    elim (Option-cases (lookup (window_key_of inst) m.inflight)) [
      | inl e ↦ rw (e, push) (entry_at-push_into_window m biz inst at biz' k)
      | inr (start, e) ↦ elim (Bool-cases (ltb clock (start + m.inflight_ttl))) [
        | inl fresh ↦ absurd (ground arith)
        | inr stale ↦
            rw (e, push)
              (rw stale (
                entry_at-push_into_window
                  (record m { inflight = delete (window_key_of inst) m.inflight }) biz inst at biz'
                  k))
      ]
    ]

abbrev pub IsStored : ℕ → ℕ × SlidingWindow → Type 0
IsStored d p =
    (p.1.biz_id ≡ p.0) × (p.1.window_duration ≡ d) × WindowIsValid p.1 × (0 < length p.1.by_key)

-- Every business has one window, under its own id and with the manager's duration; no stored window
-- is empty; each window holds each instance once, under its own key, with a count of at least one.
pub record ManagerIsValid (m : BizWindowManager) : Type 0 where
  pub distinct : Distinct m.windows
  pub each : All (IsStored m.window_duration) m.windows

pub window_of-IsStored :
    (m : BizWindowManager) (biz : ℕ) {w : SlidingWindow}
    → ManagerIsValid m
    → lookup biz m.windows ≡ some w
    → IsStored m.window_duration (biz, w)
window_of-IsStored m biz v e =
    All_mem (IsStored m.window_duration) v.each (mem_of_lookup biz m.windows e)

insert_window-ManagerIsValid :
    (m : BizWindowManager) (biz : ℕ) (w : SlidingWindow)
    → ManagerIsValid m
    → IsStored m.window_duration (biz, w)
    → ManagerIsValid (record m { windows = insert biz w m.windows })
insert_window-ManagerIsValid m biz w v s = record {
  distinct = insert-Distinct biz w m.windows v.distinct;
  each = All-insert (IsStored m.window_duration) biz w m.windows s v.each;
}

pushed-IsStored :
    (d biz : ℕ) (w : SlidingWindow) (inst : FailureInstanceInfo) (at : ℕ)
    → w.biz_id ≡ biz
    → w.window_duration ≡ d
    → WindowIsValid w
    → IsStored d (biz, window_push w inst at)
pushed-IsStored d biz w inst at b dur v =
    let (eb, ed) = window_push_fields w inst at in
    (eb ∙ b, ed ∙ dur, window_push-WindowIsValid w inst at v, length-window_push_pos w inst at)

empty-WindowIsValid :
    (d biz : ℕ) (service : Text) → WindowIsValid (new_sliding_window d biz service)
unfolding new_sliding_window
empty-WindowIsValid d biz service = record { distinct = tt; keyed = tt }

push_into_window-ManagerIsValid :
    (m : BizWindowManager) (biz : ℕ) (inst : FailureInstanceInfo) (at : ℕ)
    → ManagerIsValid m
    → ManagerIsValid (push_into_window m biz inst at)
unfolding push_into_window get_or_create_window new_sliding_window
push_into_window-ManagerIsValid m biz inst at v = elim (Option-cases (lookup biz m.windows)) [
  | inl e ↦
      let w = new_sliding_window m.window_duration biz m.my_service_id in
      let s =
        pushed-IsStored m.window_duration biz w inst at refl refl (empty-WindowIsValid _ _ _) in
      rw (e, get_or_create_window)
        (rw (insert-insert biz (window_push w inst at) w m.windows)
          (insert_window-ManagerIsValid m biz (window_push w inst at) v s))
  | inr (w, e) ↦
      let s = window_of-IsStored m biz v e in
      rw (e, get_or_create_window)
        (insert_window-ManagerIsValid m biz (window_push w inst at) v
          (pushed-IsStored m.window_duration biz w inst at s.0 s.1 s.2))
]

pub push-ManagerIsValid :
    (m : BizWindowManager) (clock biz : ℕ) (inst : FailureInstanceInfo) (at : ℕ)
    → ManagerIsValid m
    → ManagerIsValid (push m clock biz inst at).0
unfolding push
push-ManagerIsValid m clock biz inst at v =
    elim (Option-cases (lookup (window_key_of inst) m.inflight)) [
      | inl e ↦ rw (e, push) (push_into_window-ManagerIsValid m biz inst at v)
      | inr (start, e) ↦ elim (Bool-cases (ltb clock (start + m.inflight_ttl))) [
        | inl fresh ↦ rw (e, push) (rw fresh v)
        | inr stale ↦
            rw (e, push)
              (rw stale (
                push_into_window-ManagerIsValid
                  (record m { inflight = delete (window_key_of inst) m.inflight }) biz inst at
                  (record { distinct = v.distinct; each = v.each })))
      ]
    ]

pub store_or_drop-ManagerIsValid :
    (m : BizWindowManager) (biz : ℕ) (w : SlidingWindow)
    → ManagerIsValid m
    → w.biz_id ≡ biz
    → w.window_duration ≡ m.window_duration
    → WindowIsValid w
    → ManagerIsValid (store_or_drop m biz w)
unfolding store_or_drop
store_or_drop-ManagerIsValid m biz w v b d s = elim (Bool-cases (nat_beq (length w.by_key) 0)) [
  | inl none_left ↦
      rw (none_left, store_or_drop)
        (record {
          distinct = delete-Distinct biz m.windows v.distinct;
          each = All-delete (IsStored m.window_duration) biz m.windows v.each;
        })
  | inr some_left ↦
      rw (some_left, store_or_drop) (insert_window-ManagerIsValid m biz w v (b, d, s, ground arith))
]
