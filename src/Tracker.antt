-- ===== src/Tracker.antt =====
-- internal/analysis/workflow/lock_tracker.go: the switch lock of a business, shared by the callers of
-- one process. The model has the entry of one business, since every call only touches the entry of
-- its own. A critical section under the tracker's mutex is one step, and so is a call of etcd; the
-- steps of any number of callers come in any order. Etcd grants its lock only while it is free.
pub mod Sharing
mod Tests
use dbha.Prelude.{
  ℕ, ◌+◌, ◌-◌, List, [], ◌∷◌, Option, none, some, Bool, true, false, not, ltb, nat_beq,
  if◌then◌else◌,
}

-- `holds[bizId]`, the count of its references; the etcd lock; and how many callers have the etcd
-- lock but have not stored it, have acquired, and have dropped the entry but not unlocked etcd.
pub record Slot : Type 0 where
  pub held : Option ℕ
  pub etcd : Bool
  pub storing : ℕ
  pub holding : ℕ
  pub unlocking : ℕ

-- `NewInProcessLockTracker`
abbrev pub new_slot : Slot
new_slot = record { held = none; etcd = false; storing = 0; holding = 0; unlocking = 0 }

-- The first critical section of `acquireWith`: none if there is no entry to share.
unfoldable pub acquire_fast : Slot → Option Slot
acquire_fast s = elim s.held [
  | some ref_cnt ↦ some (record s { held = some (ref_cnt + 1); holding = s.holding + 1 })
  | none ↦ none
]

-- The acquirer's call in `acquireWith`: none if etcd does not grant the lock.
unfoldable pub acquire_etcd : Slot → Option Slot
acquire_etcd s = if s.etcd then none else some (record s { etcd = true; storing = s.storing + 1 })

-- The second critical section of `acquireWith`, of a caller to whom etcd has granted the lock.
unfoldable pub store_held : Slot → Option Slot
store_held s =
    if nat_beq s.storing 0
    then none
    else some (record s { held = some 1; storing = s.storing - 1; holding = s.holding + 1 })

-- `release` up to the end of its critical section, by a caller that has acquired.
unfoldable pub release : Slot → Option Slot
release s = if nat_beq s.holding 0 then none else elim s.held [
  | none ↦ some (record s { holding = s.holding - 1 })
  | some ref_cnt ↦
      if ltb 0 (ref_cnt - 1)
      then some (record s { held = some (ref_cnt - 1); holding = s.holding - 1 })
      else some (record s { held = none; holding = s.holding - 1; unlocking = s.unlocking + 1 })
]

-- The call of `unlock` at the end of `release`.
unfoldable pub unlock_etcd : Slot → Option Slot
unlock_etcd s =
    if nat_beq s.unlocking 0
    then none
    else some (record s { etcd = false; unlocking = s.unlocking - 1 })

pub data Action : Type 0 where
  fast : Action
  grant : Action
  store : Action
  drop : Action
  unlock : Action

-- A step of some caller; a step that is not possible changes nothing.
unfoldable pub act : Action → Slot → Slot
act fast s = elim (acquire_fast s) [ none ↦ s | some s' ↦ s' ]
act grant s = elim (acquire_etcd s) [ none ↦ s | some s' ↦ s' ]
act store s = elim (store_held s) [ none ↦ s | some s' ↦ s' ]
act drop s = elim (release s) [ none ↦ s | some s' ↦ s' ]
act unlock s = elim (unlock_etcd s) [ none ↦ s | some s' ↦ s' ]

unfoldable pub run_actions : List Action → Slot → Slot
run_actions [] s = s
run_actions (a ∷ acts) s = run_actions acts (act a s)
