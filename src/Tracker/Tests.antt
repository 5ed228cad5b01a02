-- ===== src/Tracker/Tests.antt =====
-- Two callers that share the lock.
use dbha.Prelude.{◌<◌, ◌≡◌, refl, List, [], ◌∷◌, some, true, false}
use dbha.Tracker.{
  new_slot, Action, fast, grant, store, drop, unlock, act, run_actions, acquire_fast, acquire_etcd,
  store_held, release, unlock_etcd,
}
use dbha.Tracker.Sharing.{count_of, run_actions_lem}

-- A second caller joins the first, the first releases.
abbrev shared : List Action
shared = grant ∷ store ∷ fast ∷ drop ∷ []

shared_is_held : (run_actions shared new_slot).held ≡ some 1
unfolding run_actions act acquire_fast acquire_etcd store_held release
shared_is_held = refl

all_released :
    (run_actions (grant ∷ store ∷ fast ∷ drop ∷ drop ∷ unlock ∷ []) new_slot).etcd ≡ false
unfolding run_actions act acquire_fast acquire_etcd store_held release unlock_etcd
all_released = refl

run_actions_lem_example :
    let s = run_actions shared new_slot in
    (count_of s.held ≡ s.holding)
    × (0 < s.holding → s.etcd ≡ true)
    × (s.holding ≡ 0 → s.storing ≡ 0 → s.unlocking ≡ 0 → s.etcd ≡ false)
run_actions_lem_example = run_actions_lem shared
