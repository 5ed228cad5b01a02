-- ===== src/Tracker/Sharing.antt =====
-- The callers of one process share one etcd lock, whatever the order of their steps.
use dbha.Prelude.{
  ℕ, ◌+◌, ◌<◌, ◌≡◌, List, [], ◌∷◌, Option, none, some, Bool, true, false, nat_beq, if◌then◌else◌,
  arith, refl,
}
use dbha.Tracker.{
  Slot, new_slot, acquire_fast, acquire_etcd, store_held, release, unlock_etcd, Action, fast, grant,
  store, drop, unlock, act, run_actions,
}

abbrev pub count_of : Option ℕ → ℕ
count_of none = 0
count_of (some n) = n

abbrev entries_of : Option ℕ → ℕ
entries_of none = 0
entries_of (some n) = 1

abbrev locks_of : Bool → ℕ
locks_of true = 1
locks_of false = 0

-- The entry counts the callers that have acquired, and is dropped with the last of them. The etcd
-- lock belongs to the entry, or to one caller that is about to store or to unlock it.
pub record SlotIsValid (s : Slot) : Type 0 where
  pub counted : count_of s.held ≡ s.holding
  pub present : entries_of s.held ≡ (if nat_beq s.holding 0 then 0 else 1)
  pub owned : locks_of s.etcd ≡ entries_of s.held + s.storing + s.unlocking

act-SlotIsValid : (a : Action) (s : Slot) → SlotIsValid s → SlotIsValid (act a s)
unfolding act acquire_fast acquire_etcd store_held release unlock_etcd
act-SlotIsValid fast s v = record {
  counted = ground (arith, v.counted);
  present = ground (arith, v.counted, v.present);
  owned = ground (arith, v.owned);
}
act-SlotIsValid grant s v = record {
  counted = ground (arith, v.counted);
  present = ground (arith, v.present);
  owned = ground (arith, v.owned);
}
act-SlotIsValid store s v = record {
  counted = ground (arith, v.counted, v.present, v.owned);
  present = ground (arith, v.counted, v.present, v.owned);
  owned = ground (arith, v.counted, v.present, v.owned);
}
act-SlotIsValid drop s v = record {
  counted = ground (arith, v.counted, v.present, v.owned);
  present = ground (arith, v.counted, v.present, v.owned);
  owned = ground (arith, v.counted, v.present, v.owned);
}
act-SlotIsValid unlock s v = record {
  counted = ground (arith, v.counted, v.present, v.owned);
  present = ground (arith, v.counted, v.present, v.owned);
  owned = ground (arith, v.counted, v.present, v.owned);
}

run_actions-SlotIsValid :
    (acts : List Action) (s : Slot) → SlotIsValid s → SlotIsValid (run_actions acts s)
unfolding run_actions
run_actions-SlotIsValid [] s v = v
run_actions-SlotIsValid (a ∷ acts) s v =
    run_actions-SlotIsValid acts (act a s) (act-SlotIsValid a s v)

-- In every state that the callers' steps reach from an empty tracker: the entry counts exactly the
-- callers that have acquired and not released; while there is one, etcd's lock is held; and once
-- nobody holds, stores or unlocks, etcd's lock is free.
pub run_actions_lem :
    (acts : List Action)
    → let s = run_actions acts new_slot in
      (count_of s.held ≡ s.holding)
      × (0 < s.holding → s.etcd ≡ true)
      × (s.holding ≡ 0 → s.storing ≡ 0 → s.unlocking ≡ 0 → s.etcd ≡ false)
run_actions_lem acts =
    let v : SlotIsValid (run_actions acts new_slot) =
      run_actions-SlotIsValid acts new_slot
        (record { counted = refl; present = refl; owned = refl }) in
    (
      v.counted,
      (λ h. ground (arith, v.counted, v.present, v.owned)),
      (λ h k l. ground (arith, v.counted, v.present, v.owned)),
    )
