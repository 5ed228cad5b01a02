-- ===== src/Window.antt =====
-- internal/analysis/workflow/sliding_window.go: the windows of failed instances, one for each
-- business, and the inflight marks. Instants and durations are nanoseconds. `FirstAt.Before(now - d)`
-- and `time.Since(t) < ttl` are written as sums, which say the same of instants before `d`.
-- A method takes the instant that it reads from the clock as an argument, `clock`.
pub mod Sliding
pub mod Manager
pub mod Popping
pub mod Inflight
pub mod Once
mod Tests
use dbha.Prelude.{
  ℕ, ◌+◌, List, [], ◌∷◌, ◌++◌, Option, none, some, Bool, true, false, Text, Map, lookup, insert,
  delete, ltb, if◌then◌else◌, length, nat_beq, sort_by, nat_eq, text_eq,
}
use dbha.Failure.{FailureInstanceInfo, instance_window_key, window_key_of}

pub record FailureWindowEntry : Type 0 where
  pub inst : FailureInstanceInfo
  pub count : ℕ
  pub first_at : ℕ

pub record SlidingWindow : Type 0 where
  pub window_duration : ℕ
  pub biz_id : ℕ
  pub by_key : Map Text FailureWindowEntry
  pub my_service_id : Text

unfoldable pub new_sliding_window : ℕ → ℕ → Text → SlidingWindow
new_sliding_window duration biz service = record {
  window_duration = duration;
  biz_id = biz;
  by_key = [];
  my_service_id = service;
}

-- `slidingWindow.push`: a known instance is counted, a new one is added.
unfoldable pub window_push : SlidingWindow → FailureInstanceInfo → ℕ → SlidingWindow
window_push w inst at =
    let key = window_key_of inst in
    elim (lookup key w.by_key) [
      | some e ↦ record w { by_key = insert key (record e { count = e.count + 1 }) w.by_key }
      | none ↦ record w {
        by_key = insert key (record { inst = inst; count = 1; first_at = at }) w.by_key;
      }
    ]

-- FirstAt < now - windowDuration
unfoldable pub matured : ℕ → ℕ → FailureWindowEntry → Bool
matured duration now e = ltb (e.first_at + duration) now

-- The loop of `pop` over the map's entries: what it has collected, and the map that is left.
unfoldable pub pop_loop :
    ℕ
    → ℕ
    → List (Text × FailureWindowEntry)
    → List FailureWindowEntry × Map Text FailureWindowEntry
    → List FailureWindowEntry × Map Text FailureWindowEntry
pop_loop duration now [] (result, left) = (result, left)
pop_loop duration now ((k, e) ∷ rest) (result, left) =
    pop_loop duration now rest
      (if matured duration now e then (result ++ e ∷ [], delete k left) else (result, left))

abbrev pub earlier : FailureWindowEntry → FailureWindowEntry → Bool
earlier a b = ltb a.first_at b.first_at

-- `slidingWindow.pop`
unfoldable pub window_pop : SlidingWindow → ℕ → List FailureWindowEntry × SlidingWindow
window_pop w now =
    let (result, left) = pop_loop w.window_duration now w.by_key ([], w.by_key) in
    (sort_by earlier result, record w { by_key = left })

-- `slidingWindow.len`
abbrev pub window_len : SlidingWindow → ℕ
window_len w = length w.by_key

pub record BizWindowManager : Type 0 where
  pub window_duration : ℕ
  pub inflight_ttl : ℕ
  pub windows : Map ℕ SlidingWindow
  pub inflight : Map Text ℕ
  pub my_service_id : Text

unfoldable pub new_biz_window_manager : ℕ → ℕ → Text → BizWindowManager
new_biz_window_manager duration ttl service = record {
  window_duration = duration;
  inflight_ttl = ttl;
  windows = [];
  inflight = [];
  my_service_id = service;
}

-- `getOrCreateWindowLocked`: the window, and the manager that holds it.
unfoldable pub get_or_create_window : BizWindowManager → ℕ → SlidingWindow × BizWindowManager
get_or_create_window m biz = elim (lookup biz m.windows) [
  | some w ↦ (w, m)
  | none ↦
      let w = new_sliding_window m.window_duration biz m.my_service_id in
      (w, record m { windows = insert biz w m.windows })
]

-- The end of `Push`: the window that the manager holds is pushed in place.
unfoldable pub push_into_window : BizWindowManager → ℕ → FailureInstanceInfo → ℕ → BizWindowManager
push_into_window m biz inst at =
    let (w, m') = get_or_create_window m biz in
    record m' { windows = insert biz (window_push w inst at) m'.windows }

-- `Push`; an inflight mark that has expired is dropped.
unfoldable pub push : BizWindowManager → ℕ → ℕ → FailureInstanceInfo → ℕ → BizWindowManager × Bool
push m clock biz inst at =
    let key = window_key_of inst in
    elim (lookup key m.inflight) [
      | some start ↦
          if ltb clock (start + m.inflight_ttl)
          then (m, false)
          else (push_into_window (record m { inflight = delete key m.inflight }) biz inst at, true)
      | none ↦ (push_into_window m biz inst at, true)
    ]

-- The window of a business is stored again, and dropped when it is empty.
unfoldable pub store_or_drop : BizWindowManager → ℕ → SlidingWindow → BizWindowManager
store_or_drop m biz w =
    if nat_beq (window_len w) 0
    then record m { windows = delete biz m.windows }
    else record m { windows = insert biz w m.windows }

-- `Pop`
unfoldable pub pop : BizWindowManager → ℕ → ℕ → List FailureWindowEntry × BizWindowManager
pop m biz now = elim (lookup biz m.windows) [
  | none ↦ ([], m)
  | some w ↦ let (result, w') = window_pop w now in (result, store_or_drop m biz w')
]

-- The loop of `PopAndMarkStart` over the popped entries.
unfoldable pub mark_all : ℕ → List FailureWindowEntry → Map Text ℕ → Map Text ℕ
mark_all now [] inflight = inflight
mark_all now (e ∷ rest) inflight = mark_all now rest (insert (window_key_of e.inst) now inflight)

-- `PopAndMarkStart`
unfoldable pub pop_and_mark_start :
    BizWindowManager → ℕ → ℕ → List FailureWindowEntry × BizWindowManager
pop_and_mark_start m biz now = elim (lookup biz m.windows) [
  | none ↦ ([], m)
  | some w ↦
      let (result, w') = window_pop w now in
      (result, store_or_drop (record m { inflight = mark_all now result m.inflight }) biz w')
]

-- `MarkDone`
unfoldable pub mark_done : BizWindowManager → Text → BizWindowManager
mark_done m key = record m { inflight = delete key m.inflight }

-- `WindowLen`
unfoldable pub manager_window_len : BizWindowManager → ℕ → ℕ
manager_window_len m biz = elim (lookup biz m.windows) [ some w ↦ window_len w | none ↦ 0 ]
