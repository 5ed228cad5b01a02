-- ===== src/Switch/Host/Processing.antt =====
-- internal/analysis/switcher/switchcore/switch_host_execution.go, its second half: the instances of a
-- host are switched in groups, and the whole procedure of a host.
use dbha.Prelude.{
  List, [], ◌∷◌, ◌++◌, Option, none, some, Bool, true, false, not, Text, codes, ◌&&◌, ◌==◌, map,
  keep, if◌then◌else◌, is_empty, text_eq, Map, lookup, insert, elem, group_from,
}
use dbha.Switch.Host.{
  Instances, err_if_ctx_done_in_host_switch, lock_cluster, check_status_for_host_switch,
  set_status_for_host_switch, cluster_key_of, check_on_same_host, unlocked, switched, updated_meta,
  finalized, status_unpass, check_unpass, switch_failed, update_meta_failed, final_failed,
  HostEvent, HostError, HostInstance, HostWorld,
}

-- `hostSwitchGroupKey`
unfoldable pub host_switch_group_key : Text → HostInstance → Text
host_switch_group_key k ins =
    if (ins.cluster_type == codes "tendbcluster") && (ins.machine_type == codes "remote")
    then cluster_key_of ins ++ codes "|remote"
    else cluster_key_of ins ++ (b'|' ∷ k)

-- `doSwitchForHostInstance` after the switch itself.
unfoldable pub do_update_and_final :
    HostWorld → Text → HostInstance → List HostEvent → Option HostError × List HostEvent
do_update_and_final w k ins t =
    let (done, t1) = err_if_ctx_done_in_host_switch w t in
    elim done [
      | some e ↦ (some e, t1)
      | none ↦ elim (ins.update_meta_info t1) [
        | some e ↦ (some (update_meta_failed e), updated_meta k false ∷ t1)
        | none ↦
            let (done', t2) = err_if_ctx_done_in_host_switch w (updated_meta k true ∷ t1) in
            elim done' [
              | some e ↦ (some e, t2)
              | none ↦ elim (ins.do_final t2) [
                | some e ↦ (some (final_failed e), finalized k false ∷ t2)
                | none ↦ (none, finalized k true ∷ t2)
              ]
            ]
      ]
    ]

-- `doSwitchForHostInstance`
unfoldable pub do_switch_for_host_instance :
    HostWorld → Text → HostInstance → List HostEvent → Option HostError × List HostEvent
do_switch_for_host_instance w k ins t =
    let (done, t1) = err_if_ctx_done_in_host_switch w t in
    elim done [
      | some e ↦ (some e, t1)
      | none ↦ elim (ins.do_switch t1) [
        | some e ↦ (some (switch_failed e), switched k false ∷ t1)
        | none ↦ do_update_and_final w k ins (switched k true ∷ t1)
      ]
    ]

-- The goroutines of `processOnSameHostGroup`.
unfoldable pub switch_each :
    HostWorld → Instances → List HostEvent → Map Text HostError × List HostEvent
switch_each w [] t = ([], t)
switch_each w ((k, ins) ∷ rest) t =
    let (err, t1) = do_switch_for_host_instance w k ins t in
    let (errs, t2) = switch_each w rest t1 in
    (elim err [ none ↦ errs | some e ↦ insert k e errs ], t2)

-- The same error for every instance.
unfoldable pub all_with : HostError → Instances → Map Text HostError
all_with e insts = map (λ kv. (kv.0, e)) insts

-- `processOnSameHostGroup`
unfoldable pub process_on_same_host_group :
    HostWorld → Text → Instances → List HostEvent → Map Text HostError × List HostEvent
process_on_same_host_group w key group t =
    if is_empty group
    then ([], t)
    else (let (err, t1) = lock_cluster w key t in
        elim err [
          | some e ↦ (all_with e group, t1)
          | none ↦ let (errs, t2) = switch_each w group t1 in (errs, unlocked key ∷ t2)
        ])

-- The errors of a group are added to those of the host.
unfoldable pub merge : Map Text HostError → Map Text HostError → Map Text HostError
merge [] errs = errs
merge ((k, e) ∷ rest) errs = insert k e (merge rest errs)

-- `groupClusterKeys`: the cluster of every group key.
unfoldable pub group_cluster_keys : Instances → Map Text Text
group_cluster_keys [] = []
group_cluster_keys ((k, ins) ∷ rest) =
    insert (host_switch_group_key k ins) (cluster_key_of ins) (group_cluster_keys rest)

-- The goroutines of `processOnSameHost`; a group without a cluster key has the empty one.
unfoldable pub process_groups :
    HostWorld
    → Map Text Text
    → List (Text × Instances)
    → List HostEvent
    → Map Text HostError × List HostEvent
process_groups w clusters [] t = ([], t)
process_groups w clusters ((group_key, group) ∷ rest) t =
    let cluster : Text = elim (lookup group_key clusters) [ none ↦ [] | some key ↦ key ] in
    let (errs, t1) = process_on_same_host_group w cluster group t in
    let (errs', t2) = process_groups w clusters rest t1 in (merge errs errs', t2)

-- The first loop of `processOnSameHost`.
unfoldable pub ctx_errors :
    HostWorld → Instances → List HostEvent → Map Text HostError × List HostEvent
ctx_errors w [] t = ([], t)
ctx_errors w ((k, ins) ∷ rest) t =
    let (done, t1) = err_if_ctx_done_in_host_switch w t in
    let (errs, t2) = ctx_errors w rest t1 in
    (elim done [ none ↦ errs | some e ↦ insert k e errs ], t2)

-- `processOnSameHost`
unfoldable pub process_on_same_host :
    HostWorld → Instances → List HostEvent → Map Text HostError × List HostEvent
process_on_same_host w insts t =
    let (errs, t1) = ctx_errors w insts t in
    if is_empty errs
    then process_groups w (group_cluster_keys insts)
        (group_from (λ kv. host_switch_group_key kv.0 kv.1) [] insts) t1
    else (errs, t1)

-- The instances whose keys are not in the list.
unfoldable pub others : List Text → Instances → Instances
others needless insts = keep (λ kv. not (elem kv.0 needless)) insts

-- The end of `SwitchSameHostInstances`, from its third step.
unfoldable pub check_and_process :
    HostWorld → Instances → List HostEvent → (Bool × Map Text HostError) × List HostEvent
check_and_process w insts t =
    let ((needless, failed), t1) = check_on_same_host w insts t in
    if is_empty failed
    then (let (errs, t2) = process_on_same_host w (others needless insts) t1 in
        ((is_empty errs, errs), t2))
    else ((false, all_with (check_unpass failed) (others needless insts)), t1)

-- `SwitchSameHostInstances`
unfoldable pub switch_same_host_instances :
    HostWorld → Instances → List HostEvent → (Bool × Map Text HostError) × List HostEvent
switch_same_host_instances w insts t =
    let (failed, t1) = check_status_for_host_switch w insts t in
    if is_empty failed
    then (let (err, t2) = set_status_for_host_switch w insts t1 in
        elim err [ some e ↦ ((false, all_with e insts), t2) | none ↦ check_and_process w insts t2 ])
    else ((false, all_with (status_unpass failed) insts), t1)
