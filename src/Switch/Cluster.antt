-- ===== src/Switch/Cluster.antt =====
-- internal/analysis/switcher/switchcore/switch_cluster_execution.go: the failed instances of one
-- cluster are switched together.
pub mod Protocol
use dbha.Prelude.{
  ℕ, List, [], ◌∷◌, Option, none, some, Bool, true, false, Text, ◌||◌, ◌==◌, nat_beq, not, map,
  keep, if◌then◌else◌, is_empty, text_eq, ◌≡◌,
}
use dbha.Failure.{generate_cluster_key}
use dbha.Switch.{
  Event, set_unavailable, unlocked, checked, switched, updated_meta, finalized, SwitchError,
  Context, wrong_status_insts, cluster_unavailable_failed, cluster_check_error, switch_failed,
  update_meta_failed, final_failed, Locks, Calls, SwitchableCluster, err_if_ctx_done, guarded,
  attempt, lock_cluster_with_timeout, on_return, switch_required, switch_not_needed,
  switch_check_unpass, running, available,
}

abbrev is_wrong : Text × Text → Bool
is_wrong (key, status) = not ((status == running) || (status == available))

-- The keys that the loop of `checkStatusForClusterSwitch` collects.
unfoldable pub wrong_insts : List (Text × Text) → List Text
wrong_insts insts = map (λ kv. kv.0) (keep is_wrong insts)

-- `checkStatusForClusterSwitch`
unfoldable pub check_status :
    Context → SwitchableCluster → List Event → Option SwitchError × List Event
check_status ctx cluster t =
    let (done, t') = err_if_ctx_done ctx t in
    elim done [
      | some e ↦ (some e, t')
      | none ↦
          if is_empty (wrong_insts cluster.switch_instances)
          then (none, t')
          else (some (wrong_status_insts (wrong_insts cluster.switch_instances)), t')
    ]

abbrev cluster_error : Option Text → Option SwitchError
cluster_error none = none
cluster_error (some e) = some (cluster_check_error e)

-- `setStatusForClusterSwitch`
unfoldable pub set_status :
    Context → SwitchableCluster → List Event → Option SwitchError × List Event
set_status ctx cluster =
    guarded ctx cluster.calls.set_instance_unavailable set_unavailable cluster_unavailable_failed

-- `doCheckBeforeClusterSwitch`
unfoldable pub do_check_before_cluster_switch :
    Context → SwitchableCluster → List Event → (ℕ × Option SwitchError) × List Event
do_check_before_cluster_switch ctx cluster t =
    let (done, t') = err_if_ctx_done ctx t in
    elim done [
      | some e ↦ ((switch_check_unpass, some e), t')
      | none ↦
          let (code, err) = cluster.calls.check_before_switch t' in
          ((code, cluster_error err), checked code ∷ t')
    ]

-- `doSwitchInClusterSwitch`
unfoldable pub do_switch_in_cluster_switch :
    Context → SwitchableCluster → List Event → Option SwitchError × List Event
do_switch_in_cluster_switch ctx cluster = guarded ctx cluster.calls.do_switch switched switch_failed

-- `doUpdateMetaInfoInClusterSwitch`
unfoldable pub do_update_meta_info_in_cluster_switch :
    Context → SwitchableCluster → List Event → Option SwitchError × List Event
do_update_meta_info_in_cluster_switch ctx cluster =
    guarded ctx cluster.calls.update_meta_info updated_meta update_meta_failed

-- `doFinalInClusterSwitch`
unfoldable pub do_final_in_cluster_switch :
    Context → SwitchableCluster → List Event → Option SwitchError × List Event
do_final_in_cluster_switch ctx cluster = guarded ctx cluster.calls.do_final finalized final_failed

-- The last three steps of `SwitchSameClusterInstances`, each after the one before has succeeded.
unfoldable pub switch_steps :
    Context → SwitchableCluster → List Event → (Bool × Option SwitchError) × List Event
switch_steps ctx cluster t = attempt (do_switch_in_cluster_switch ctx cluster t) (λ t1.
    attempt (do_update_meta_info_in_cluster_switch ctx cluster t1)
      (λ t2. attempt (do_final_in_cluster_switch ctx cluster t2) (λ t3. ((true, none), t3))))

-- What follows the check in `SwitchSameClusterInstances`.
unfoldable pub after_check :
    Context
    → SwitchableCluster
    → ℕ × Option SwitchError
    → List Event
    → (Bool × Option SwitchError) × List Event
after_check ctx cluster (code, err) t =
    if nat_beq code switch_check_unpass
    then ((false, err), t)
    else (if nat_beq code switch_not_needed then ((true, err), t) else switch_steps ctx cluster t)

-- `SwitchSameClusterInstances` under the cluster's lock, with the deferred unlock.
unfoldable pub switch_locked :
    Context → SwitchableCluster → Text → List Event → (Bool × Option SwitchError) × List Event
switch_locked ctx cluster key t =
    let (check, t1) = do_check_before_cluster_switch ctx cluster t in
    let (result, t2) = after_check ctx cluster check t1 in (result, unlocked key ∷ t2)

-- The body of `SwitchSameClusterInstances`.
unfoldable pub switch_body :
    Context → Locks → SwitchableCluster → List Event → (Bool × Option SwitchError) × List Event
switch_body ctx locks cluster t = attempt (check_status ctx cluster t) (λ t1.
    attempt (set_status ctx cluster t1) (λ t2. attempt (err_if_ctx_done ctx t2) (λ t3.
      let key = generate_cluster_key cluster.bk_cloud_id cluster.cluster_id in
      attempt (lock_cluster_with_timeout locks key t3) (λ t4. switch_locked ctx cluster key t4))))

-- `SwitchSameClusterInstances`: the body, then its deferred function.
unfoldable pub switch_same_cluster_instances :
    Context → Locks → SwitchableCluster → List Event → (Bool × Option SwitchError) × List Event
switch_same_cluster_instances ctx locks cluster t =
    let (result, t') = switch_body ctx locks cluster t in
    on_return cluster.calls.roll_back result t'
