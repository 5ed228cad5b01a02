-- ===== src/Switch.antt =====
-- internal/analysis/switcher/switchcore: what the switching of an instance and of a cluster share.
-- A run is a function of its trace: the calls that it has made so far, the newest first. What the
-- context, an instance, a cluster or the lock answers depends on that trace, so they may change
-- their answers at every call. Log lines are left out, and an error keeps its text's arguments.
pub mod Single
pub mod Cluster
pub mod Host
pub mod Steps
pub mod Limits
mod Tests
use dbha.Prelude.{
  ℕ, List, [], ◌∷◌, Option, none, some, Bool, true, false, Text, codes, ◌&&◌, ◌||◌, ◌==◌, nat_beq,
  if◌then◌else◌, is_empty, text_eq, ◌≡◌,
}

-- `SwitchCheckCode`, an int that starts at 0
abbrev pub switch_required : ℕ
switch_required = 0

abbrev pub switch_not_needed : ℕ
switch_not_needed = 1

abbrev pub switch_check_unpass : ℕ
switch_check_unpass = 2

abbrev pub running : Text
running = codes "running"

abbrev pub available : Text
available = codes "available"

-- The calls of a run that its outcome depends on, with the answers that matter.
pub data Event : Type 0 where
  asked_ctx : Event
  set_unavailable : Bool → Event
  tried_lock : Text → Bool → Event
  unlocked : Text → Event
  checked : ℕ → Event
  switched : Bool → Event
  updated_meta : Bool → Event
  finalized : Bool → Event
  rolled_back : Event

pub data SwitchError : Type 0 where
  ctx_done : Text → SwitchError
  wrong_status : Text → SwitchError
  wrong_status_insts : List Text → SwitchError
  set_unavailable_failed : Text → SwitchError
  cluster_unavailable_failed : Text → SwitchError
  check_unpass : Option Text → SwitchError
  cluster_check_error : Text → SwitchError
  empty_cluster_key : SwitchError
  lock_timeout : Text → SwitchError
  switch_failed : Text → SwitchError
  update_meta_failed : Text → SwitchError
  final_failed : Text → SwitchError
  unknown_error : SwitchError
  with_rollback : SwitchError → Text → SwitchError

-- A context that is not nil answers `Err` from the trace; none is a nil context.
abbrev pub Context : Type 0
Context = Option (List Event → Option Text)

-- Whether `TryLock` on a key gets the lock within the timeout.
abbrev pub Locks : Type 0
Locks = Text → List Event → Bool

-- The calls that `SwitchableInstance` and `SwitchableCluster` have in common.
pub record Calls : Type 0 where
  pub set_instance_unavailable : List Event → Option Text
  pub check_before_switch : List Event → ℕ × Option Text
  pub do_switch : List Event → Option Text
  pub update_meta_info : List Event → Option Text
  pub do_final : List Event → Option Text
  pub roll_back : List Event → Option Text

pub record SwitchableInstance : Type 0 where
  pub bk_cloud_id : ℕ
  pub cluster_id : ℕ
  pub status : Text
  pub calls : Calls

pub record SwitchableCluster : Type 0 where
  pub bk_cloud_id : ℕ
  pub cluster_id : ℕ
  pub switch_instances : List (Text × Text)
  pub calls : Calls

-- `errIfCtxDoneInInstanceSwitch` and `errIfCtxDoneInClusterSwitch`
unfoldable pub err_if_ctx_done : Context → List Event → Option SwitchError × List Event
err_if_ctx_done none t = (none, t)
err_if_ctx_done (some err) t = elim (err t) [
  | none ↦ (none, asked_ctx ∷ t)
  | some e ↦ (some (ctx_done e), asked_ctx ∷ t)
]

-- One step of a switch behind its check of the context: `call` answers the trace, and is recorded.
unfoldable pub guarded :
    Context
    → (List Event → Option Text)
    → (Bool → Event)
    → (Text → SwitchError)
    → List Event
    → Option SwitchError × List Event
unfolding err_if_ctx_done
guarded ctx call event wrap t =
    let (done, t') = err_if_ctx_done ctx t in
    elim done [
      | some e ↦ (some e, t')
      | none ↦ elim (call t') [
        | none ↦ (none, event true ∷ t')
        | some e ↦ (some (wrap e), event false ∷ t')
      ]
    ]

-- `if err := step; err != nil { return false, err }` before the rest of a body
unfoldable pub attempt :
    Option SwitchError × List Event
    → (List Event → (Bool × Option SwitchError) × List Event)
    → (Bool × Option SwitchError) × List Event
attempt (none, t) rest = rest t
attempt (some e, t) rest = ((false, some e), t)

-- `LockClusterWithTimeout`, an error or none with the lock held.
unfoldable pub lock_cluster_with_timeout :
    Locks → Text → List Event → Option SwitchError × List Event
lock_cluster_with_timeout locks key t =
    if is_empty key
    then (some empty_cluster_key, t)
    else (if locks key t
        then (none, tried_lock key true ∷ t)
        else (some (lock_timeout key), tried_lock key false ∷ t))

-- The deferred function of a switch: an error is made for a failure that has none, and a failure
-- rolls back.
unfoldable pub on_return :
    (List Event → Option Text)
    → Bool × Option SwitchError
    → List Event
    → (Bool × Option SwitchError) × List Event
on_return roll_back (true, err) t = ((true, err), t)
on_return roll_back (false, err) t =
    let failure : SwitchError = elim err [ none ↦ unknown_error | some e ↦ e ] in
    elim (roll_back t) [
      | none ↦ ((false, some failure), rolled_back ∷ t)
      | some e ↦ ((false, some (with_rollback failure e)), rolled_back ∷ t)
    ]

-- How far a switch of one instance or cluster has come.
pub data Phase : Type 0 where
  ready : Phase
  announced : Phase
  locked : Phase
  passed : ℕ → Phase
  moved : Phase
  updated : Phase
  final : Phase
  released : Bool → Phase
  over : Phase

-- The protocol of a switch: the phase after a call, none for a call that is out of order.
abbrev pub next : Text → Event → Phase → Option Phase
next key asked_ctx p = some p
next key (set_unavailable ok) ready = some (if ok then announced else ready)
next key (tried_lock k ok) announced =
    if k == key then some (if ok then locked else announced) else none
next key (checked code) locked = some (passed code)
next key (switched ok) (passed code) =
    if nat_beq code switch_not_needed || nat_beq code switch_check_unpass
    then none
    else some (if ok then moved else passed code)
next key (updated_meta ok) moved = some (if ok then updated else moved)
next key (finalized ok) updated = some (if ok then final else updated)
next key (unlocked k) locked = if k == key then some (released false) else none
next key (unlocked k) (passed code) =
    if k == key then some (released (nat_beq code switch_not_needed)) else none
next key (unlocked k) moved = if k == key then some (released false) else none
next key (unlocked k) updated = if k == key then some (released false) else none
next key (unlocked k) final = if k == key then some (released true) else none
next key rolled_back ready = some over
next key rolled_back announced = some over
next key rolled_back (released false) = some over
next key e p = none

-- The phase that a trace leads to from the start.
unfoldable pub phase_of : Text → List Event → Option Phase
phase_of key [] = some ready
phase_of key (e ∷ t) = elim (phase_of key t) [ none ↦ none | some p ↦ next key e p ]
