-- ===== src/Flow/Handling.antt =====
-- internal/analysis/workflow/workflow.go: handleFailureGroup, the grouping of what is popped, and
-- popAndSwitchForBiz.
use dbha.Prelude.{
  ℕ, List, [], ◌∷◌, ◌++◌, none, some, Bool, true, false, not, Text, decimal, ◌==◌, ltb, nat_beq,
  if◌then◌else◌, is_empty, map, text_eq, nat_eq, Map, lookup, insert, sort_by,
}
use dbha.Failure.{FailureInstanceInfo, FailureGroup, window_key_of}
use dbha.Window.{FailureWindowEntry, BizWindowManager, pop_and_mark_start, mark_done}
use dbha.Strategy.{DbSwitchingStrategy, match_strategy_for_group}
use dbha.Flow.{
  has_db_inst_metadata, action_notify, create_request_with_group, exclude_unavailable_instances,
  filter_by_whitelist_for_switch, notify, handle_strategy_switch, Request, Services, Effect,
}

-- The end of `handleFailureGroup`, with a strategy that does not notify.
unfoldable pub filter_and_switch :
    Services → DbSwitchingStrategy → FailureGroup → Request → List Effect
filter_and_switch s strategy group req =
    let (failed, req', alarms) = filter_by_whitelist_for_switch s group req in
    if failed
    then alarms
    else if not (has_db_inst_metadata req')
    then alarms
    else elim (handle_strategy_switch s strategy group req') [
      | some effects ↦ alarms ++ effects
      | none ↦ alarms
    ]

-- The body of `handleFailureGroup`.
unfoldable pub handle_failure_group_body : Services → FailureGroup → List Effect
handle_failure_group_body s group = elim (create_request_with_group s group) [
  | none ↦ []
  | some req ↦
      if not (has_db_inst_metadata req)
      then []
      else (let switch_group : FailureGroup = record {
        bk_cloud_id = group.bk_cloud_id;
        db_type = group.db_type;
        instances = exclude_unavailable_instances group.instances req;
      } in
          elim (match_strategy_for_group s.read_switching_strategy switch_group) [
            | none ↦ []
            | some strategy ↦
                if strategy.action == action_notify
                then notify group
                else filter_and_switch s strategy group req
          ])
]

-- `collectGroupInstanceKeys`
unfoldable pub collect_group_instance_keys : FailureGroup → List Text
collect_group_instance_keys group = map window_key_of group.instances

-- `markDoneAll`
unfoldable pub mark_done_all : BizWindowManager → List Text → BizWindowManager
mark_done_all m [] = m
mark_done_all m (key ∷ rest) = mark_done_all (mark_done m key) rest

-- `handleFailureGroup`, with its deferred `markDoneAll`
unfoldable pub handle_failure_group :
    Services → FailureGroup → BizWindowManager → List Effect × BizWindowManager
handle_failure_group s group m =
    (handle_failure_group_body s group, mark_done_all m (collect_group_instance_keys group))

-- fmt.Sprintf("%d:%s", entry.BkCloudID, entry.DbType)
unfoldable pub group_key : FailureInstanceInfo → Text
group_key inst = decimal inst.bk_cloud_id ++ (b':' ∷ inst.db_type)

-- A new group with one instance, and a group with one more.
abbrev pub group_with : FailureInstanceInfo → FailureGroup
group_with inst = record {
  bk_cloud_id = inst.bk_cloud_id;
  db_type = inst.db_type;
  instances = inst ∷ [];
}

abbrev pub grown : FailureGroup → FailureInstanceInfo → FailureGroup
grown g inst = record g { instances = g.instances ++ inst ∷ [] }

-- The loop of `groupEntriesByCloudAndDbType`: the map of groups, and its keys as they come.
unfoldable pub group_loop :
    Map Text FailureGroup → List Text → List FailureWindowEntry → Map Text FailureGroup × List Text
group_loop groups ks [] = (groups, ks)
group_loop groups ks (entry ∷ rest) =
    let key = group_key entry.inst in
    let (groups', ks') : Map Text FailureGroup × List Text = elim (lookup key groups) [
      | some g ↦ (insert key (grown g entry.inst) groups, ks)
      | none ↦ (insert key (group_with entry.inst) groups, ks ++ key ∷ [])
    ] in
    group_loop groups' ks' rest

-- Go's order of strings
unfoldable pub text_less : Text → Text → Bool
text_less a [] = false
text_less [] (c ∷ b) = true
text_less (c ∷ a) (d ∷ b) = if nat_beq c d then text_less a b else ltb c d

-- The groups of the keys; each key of the loop has one.
unfoldable pub groups_of : Map Text FailureGroup → List Text → List FailureGroup
groups_of groups [] = []
groups_of groups (k ∷ rest) = elim (lookup k groups) [
  | none ↦ groups_of groups rest
  | some g ↦ g ∷ groups_of groups rest
]

-- `groupEntriesByCloudAndDbType`
unfoldable pub group_entries_by_cloud_and_db_type : List FailureWindowEntry → List FailureGroup
group_entries_by_cloud_and_db_type entries =
    let (groups, ks) = group_loop [] [] entries in groups_of groups (sort_by text_less ks)

-- The goroutines of `popAndSwitchForBiz`.
unfoldable pub handle_groups :
    Services → List FailureGroup → BizWindowManager → List Effect × BizWindowManager
handle_groups s [] m = ([], m)
handle_groups s (g ∷ rest) m =
    let (effects, m1) = handle_failure_group s g m in
    let (effects', m2) = handle_groups s rest m1 in (effects ++ effects', m2)

-- `popAndSwitchForBiz`; `acquired` says whether the switch lock of the business is got. The lock
-- itself, which is released at the end, is in Tracker.antt.
unfoldable pub pop_and_switch_for_biz :
    Services → Bool → ℕ → ℕ → BizWindowManager → List Effect × BizWindowManager
pop_and_switch_for_biz s acquired biz now m =
    if not acquired
    then ([], m)
    else (let (entries, m') = pop_and_mark_start m biz now in
        if is_empty entries
        then ([], m')
        else handle_groups s (group_entries_by_cloud_and_db_type entries) m')
