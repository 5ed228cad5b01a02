-- ===== src/Switch/Single.antt =====
-- internal/analysis/switcher/switchcore/switch_instance_execution.go: one instance is switched.
pub mod Protocol
use dbha.Prelude.{
  ℕ, List, ◌∷◌, Option, none, some, Bool, true, false, Text, ◌||◌, ◌==◌, nat_beq, if◌then◌else◌,
  text_eq,
}
use dbha.Failure.{generate_cluster_key}
use dbha.Switch.{
  Event, set_unavailable, unlocked, checked, switched, updated_meta, finalized, SwitchError,
  Context, wrong_status, set_unavailable_failed, check_unpass, switch_failed, update_meta_failed,
  final_failed, Locks, Calls, SwitchableInstance, err_if_ctx_done, guarded, attempt,
  lock_cluster_with_timeout, on_return, switch_required, switch_not_needed, switch_check_unpass,
  running, available,
}

-- `checkBeforeSwitch`: a code that is neither of the first two comes with an error.
unfoldable pub check_before : Calls → List Event → (ℕ × Option SwitchError) × List Event
check_before calls t =
    let (code, err) = calls.check_before_switch t in
    (
      (
        code,
        if nat_beq code switch_required || nat_beq code switch_not_needed
            then none
            else some (check_unpass err),
      ),
      checked code ∷ t,
    )

-- `checkStatusForInstanceSwitch`
unfoldable pub check_status :
    Context → SwitchableInstance → List Event → Option SwitchError × List Event
check_status ctx ins t =
    let (done, t') = err_if_ctx_done ctx t in
    elim done [
      | some e ↦ (some e, t')
      | none ↦
          if (ins.status == running) || (ins.status == available)
          then (none, t')
          else (some (wrong_status ins.status), t')
    ]

-- `setStatusForInstanceSwitch`
unfoldable pub set_status :
    Context → SwitchableInstance → List Event → Option SwitchError × List Event
set_status ctx ins =
    guarded ctx ins.calls.set_instance_unavailable set_unavailable set_unavailable_failed

-- `doCheckBeforeInstanceSwitch`
unfoldable pub do_check_before_instance_switch :
    Context → SwitchableInstance → List Event → (ℕ × Option SwitchError) × List Event
do_check_before_instance_switch ctx ins t =
    let (done, t') = err_if_ctx_done ctx t in
    elim done [ some e ↦ ((switch_check_unpass, some e), t') | none ↦ check_before ins.calls t' ]

-- `doSwitchInInstanceSwitch`
unfoldable pub do_switch_in_instance_switch :
    Context → SwitchableInstance → List Event → Option SwitchError × List Event
do_switch_in_instance_switch ctx ins = guarded ctx ins.calls.do_switch switched switch_failed

-- `doUpdateMetaInfoInInstanceSwitch`
unfoldable pub do_update_meta_info_in_instance_switch :
    Context → SwitchableInstance → List Event → Option SwitchError × List Event
do_update_meta_info_in_instance_switch ctx ins =
    guarded ctx ins.calls.update_meta_info updated_meta update_meta_failed

-- `doFinalInInstanceSwitch`
unfoldable pub do_final_in_instance_switch :
    Context → SwitchableInstance → List Event → Option SwitchError × List Event
do_final_in_instance_switch ctx ins = guarded ctx ins.calls.do_final finalized final_failed

-- The last three steps of `SwitchSingleInstance`, each after the one before has succeeded.
unfoldable pub switch_steps :
    Context → SwitchableInstance → List Event → (Bool × Option SwitchError) × List Event
switch_steps ctx ins t = attempt (do_switch_in_instance_switch ctx ins t) (λ t1.
    attempt (do_update_meta_info_in_instance_switch ctx ins t1)
      (λ t2. attempt (do_final_in_instance_switch ctx ins t2) (λ t3. ((true, none), t3))))

-- What follows the check in `SwitchSingleInstance`.
unfoldable pub after_check :
    Context
    → SwitchableInstance
    → ℕ × Option SwitchError
    → List Event
    → (Bool × Option SwitchError) × List Event
after_check ctx ins (code, err) t =
    if nat_beq code switch_check_unpass
    then ((false, err), t)
    else (if nat_beq code switch_not_needed then ((true, err), t) else switch_steps ctx ins t)

-- `SwitchSingleInstance` under the cluster's lock, with the deferred unlock.
unfoldable pub switch_locked :
    Context → SwitchableInstance → Text → List Event → (Bool × Option SwitchError) × List Event
switch_locked ctx ins key t =
    let (check, t1) = do_check_before_instance_switch ctx ins t in
    let (result, t2) = after_check ctx ins check t1 in (result, unlocked key ∷ t2)

-- The body of `SwitchSingleInstance`.
unfoldable pub switch_body :
    Context → Locks → SwitchableInstance → List Event → (Bool × Option SwitchError) × List Event
switch_body ctx locks ins t = attempt (check_status ctx ins t) (λ t1.
    attempt (set_status ctx ins t1) (λ t2. attempt (err_if_ctx_done ctx t2) (λ t3.
      let key = generate_cluster_key ins.bk_cloud_id ins.cluster_id in
      attempt (lock_cluster_with_timeout locks key t3) (λ t4. switch_locked ctx ins key t4))))

-- `SwitchSingleInstance`: the body, then its deferred function.
unfoldable pub switch_single_instance :
    Context → Locks → SwitchableInstance → List Event → (Bool × Option SwitchError) × List Event
switch_single_instance ctx locks ins t =
    let (result, t') = switch_body ctx locks ins t in on_return ins.calls.roll_back result t'
