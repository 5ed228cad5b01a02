-- ===== src/Flow/Tests.antt =====
-- A pass over one failed instance, and the theorems of the flow at it.
use dbha.Prelude.{
  decimal, insert, sort_by, zero, suc, ◌≡◌, refl, [], ◌∷◌, none, some, true, false, codes, lookup,
  All, Memᴰ, pos, ◌==◌, text_eq,
}
use dbha.Failure.{
  group_ips, ips_from, instance_key, FailureInstanceInfo, FailureGroup, window_key_of,
}
use dbha.Window.{
  matured, new_sliding_window, push_into_window, window_push, get_or_create_window, window_pop,
  pop_loop, FailureWindowEntry, BizWindowManager, new_biz_window_manager, push, pop_and_mark_start,
}
use dbha.Strategy.{
  DbSwitchingStrategy, match_strategy_for_group, collect_candidates, is_candidate, strategy_count,
  threshold_of, get_special_match_func, count_instances_by_event_name, sort_candidates,
}
use dbha.Flow.{
  create_request_with_group, add_available, add_db_inst_metadata, exclude_unavailable_instances,
  filter_by_whitelist_for_switch, query_black_white_list, query_attempts, keep_whitelisted,
  whitelist_cluster, handle_strategy_switch, trigger_switching, DbInstMetadata, Services, switching,
  action_switch,
}
use dbha.Flow.Handling.{
  filter_and_switch, handle_failure_group_body, group_entries_by_cloud_and_db_type,
  pop_and_switch_for_biz,
}
use dbha.Flow.Grouping.{group_entries-covers}
use dbha.Flow.Release.{pop_and_switch_for_biz-releases}
use dbha.Flow.Permission.{IsAllowed}
use dbha.Flow.Selection.{handle_failure_group-IsAllowed}

abbrev backend : FailureInstanceInfo
backend = record {
  bk_cloud_id = 0;
  ip = codes "10.0.0.1";
  port = 3306;
  bk_biz_id = 7;
  cluster = codes "db.example";
  cluster_id = 11;
  db_type = codes "mysql";
  event_name = codes "dbha_mysql_failure";
  event_name_reason = 1;
  cluster_type = codes "tendbha";
  machine_type = codes "backend";
  instance_role = codes "backend_master";
  check_start_time = none;
  check_finished_time = none;
}

abbrev backend_entry : FailureWindowEntry
backend_entry = record { inst = backend; count = 1; first_at = 5 }

abbrev backend_meta : DbInstMetadata
backend_meta = record {
  bk_biz_id = 7;
  bk_cloud_id = 0;
  ip = codes "10.0.0.1";
  port = 3306;
  cluster_id = 11;
  status = codes "running";
}

abbrev on_failure : DbSwitchingStrategy
on_failure = record {
  id = 1;
  status = codes "enabled";
  bk_biz_id = 0;
  trigger_event_name = codes "dbha_mysql_failure";
  trigger_event_name_reason = 1;
  trigger_count = pos 1;
  priority = pos 1;
  scope = codes "instance";
  action = action_switch;
}

-- The whitelist answers at the second attempt.
abbrev services : Services
services = record {
  query_metadata_from_dbm = λ cloud ips. some (backend_meta ∷ []);
  read_switching_strategy = λ biz. some (on_failure ∷ []);
  black_white_list = λ attempt cloud biz. elim attempt [
    | zero ↦ none
    | suc n ↦ elim n [ zero ↦ none | suc k ↦ some (11 ∷ []) ]
  ];
  cancelled = λ attempt. false;
  has_switcher = λ db_type. db_type == codes "mysql";
  enable_white_list = true;
  enable_switching = true;
  new_switch_id = codes "v2-1";
}

abbrev group : FailureGroup
group = record { bk_cloud_id = 0; db_type = codes "mysql"; instances = backend ∷ [] }

abbrev loaded : BizWindowManager
loaded = (push (new_biz_window_manager 10 100 []) 5 7 backend 5).0

backend_is_switched :
    handle_failure_group_body services group
    ≡ switching (codes "mysql") (record {
      switch_id = codes "v2-1";
      action_scope = codes "instance";
      db_type = codes "mysql";
      mysql_inst_data = backend_meta ∷ [];
    })
      ∷ []
unfolding handle_failure_group_body create_request_with_group add_available add_db_inst_metadata
    exclude_unavailable_instances match_strategy_for_group collect_candidates is_candidate
    strategy_count threshold_of get_special_match_func count_instances_by_event_name sort_candidates
    sort_by filter_and_switch filter_by_whitelist_for_switch query_black_white_list query_attempts
    keep_whitelisted whitelist_cluster handle_strategy_switch trigger_switching group_ips ips_from
    instance_key decimal
backend_is_switched = refl

one_is_popped : (pop_and_mark_start loaded 7 20).0 ≡ backend_entry ∷ []
unfolding pop_and_mark_start push lookup new_biz_window_manager push_into_window insert
    get_or_create_window window_pop sort_by pop_loop window_push new_sliding_window matured
one_is_popped = refl

handle_failure_group-IsAllowed_example :
    All (IsAllowed services group) (handle_failure_group_body services group)
handle_failure_group-IsAllowed_example = handle_failure_group-IsAllowed services group

pop_and_switch_for_biz-releases_example :
    lookup (window_key_of backend) (pop_and_switch_for_biz services true 7 20 loaded).1.inflight
    ≡ none
pop_and_switch_for_biz-releases_example =
    pop_and_switch_for_biz-releases services 7 20 loaded backend_entry
      (rw one_is_popped (Memᴰ.head refl))

group_entries-covers_example :
    (g : FailureGroup) × Memᴰ g (group_entries_by_cloud_and_db_type (backend_entry ∷ []))
    × Memᴰ backend g.instances
group_entries-covers_example =
    group_entries-covers (backend_entry ∷ []) backend_entry (Memᴰ.head refl)
