-- ===== src/Strategy/Tests.antt =====
-- The choice of a strategy for a proxy and a backend of one cluster that fail together.
use dbha.Prelude.{
  sort_by, group_from, lookup, decimal, insert, ℕ, ◌≤◌, ◌≡◌, ◌↔◌, refl, List, [], ◌∷◌, Option, none,
  some, ◌&&◌, ◌==◌, Text, codes, text_eq, pos, count_if, seen_from, Memᴰ,
}
use dbha.Failure.{generate_cluster_key, FailureInstanceInfo, FailureGroup}
use dbha.Strategy.{
  sort_candidates, candidate_less, count_instances_by_event_name, scan_group, is_candidate,
  collect_candidates, get_special_match_func, DbSwitchingStrategy, threshold_of, strategy_count,
  match_strategy_for_group, cluster_key_of, event_proxy_backend_failure, cluster_type_tendbha,
  machine_type_proxy, machine_type_backend, mysql_storage_master, match_proxy_backend_simultaneous,
}
use dbha.Strategy.Special.{fails_in, match_proxy_backend_simultaneous-clusters}
use dbha.Strategy.Choice.{
  IsBest, match_strategy_for_group-IsBest, match_strategy_for_group-none_iff,
}

abbrev failed_instance : Text → Text → Text → FailureInstanceInfo
failed_instance ip machine role = record {
  bk_cloud_id = 0;
  ip = ip;
  port = 3306;
  bk_biz_id = 7;
  cluster = codes "db.example";
  cluster_id = 11;
  db_type = codes "mysql";
  event_name = codes "dbha_mysql_failure";
  event_name_reason = 1;
  cluster_type = cluster_type_tendbha;
  machine_type = machine;
  instance_role = role;
  check_start_time = none;
  check_finished_time = none;
}

abbrev proxy : FailureInstanceInfo
proxy = failed_instance (codes "10.0.0.1") machine_type_proxy []

abbrev backend : FailureInstanceInfo
backend = failed_instance (codes "10.0.0.2") machine_type_backend mysql_storage_master

abbrev both : FailureGroup
both = record { bk_cloud_id = 0; db_type = codes "mysql"; instances = proxy ∷ backend ∷ [] }

abbrev strategy : ℕ → ℕ → Text → DbSwitchingStrategy
strategy id biz event = record {
  id = id;
  status = codes "enabled";
  bk_biz_id = biz;
  trigger_event_name = event;
  trigger_event_name_reason = 1;
  trigger_count = pos 1;
  priority = pos id;
  scope = codes "cluster";
  action = codes "switch";
}

-- A global strategy on the event of the two instances, and one of the business on the pair.
abbrev global_strategy : DbSwitchingStrategy
global_strategy = strategy 1 0 (codes "dbha_mysql_failure")

abbrev biz_strategy : DbSwitchingStrategy
biz_strategy = strategy 2 7 event_proxy_backend_failure

abbrev strategies : List DbSwitchingStrategy
strategies = global_strategy ∷ biz_strategy ∷ []

abbrev read : ℕ → Option (List DbSwitchingStrategy)
read biz = some strategies

biz_strategy_matches : match_strategy_for_group read both ≡ some biz_strategy
unfolding match_strategy_for_group collect_candidates is_candidate threshold_of strategy_count
    get_special_match_func match_proxy_backend_simultaneous group_from insert generate_cluster_key
    decimal scan_group lookup count_instances_by_event_name sort_candidates sort_by candidate_less
biz_strategy_matches = refl

pairs_of_both : match_proxy_backend_simultaneous both.instances ≡ 1
unfolding match_proxy_backend_simultaneous group_from insert generate_cluster_key decimal scan_group
    lookup
pairs_of_both = refl

match_strategy_for_group-IsBest_example : IsBest both.instances strategies biz_strategy
match_strategy_for_group-IsBest_example =
    match_strategy_for_group-IsBest read both proxy (backend ∷ []) strategies refl refl biz_strategy
      biz_strategy_matches

match_strategy_for_group-none_iff_example : (match_strategy_for_group read both ≡ none) ↔ (
    (t : DbSwitchingStrategy)
    → Memᴰ t strategies
    → ¬ (threshold_of t.trigger_count ≤ strategy_count both.instances t))
match_strategy_for_group-none_iff_example =
    match_strategy_for_group-none_iff read both proxy (backend ∷ []) strategies refl refl

match_proxy_backend_simultaneous-clusters_example :
    match_proxy_backend_simultaneous both.instances
    ≡ count_if
        (λ k.
          fails_in
            (λ inst.
              inst.cluster_type == cluster_type_tendbha && inst.machine_type == machine_type_proxy)
            both.instances
            k
          && fails_in
              (λ inst.
                inst.cluster_type == cluster_type_tendbha
                && (inst.machine_type == machine_type_backend
                    && inst.instance_role == mysql_storage_master))
              both.instances
              k)
        (seen_from cluster_key_of [] both.instances)
match_proxy_backend_simultaneous-clusters_example =
    match_proxy_backend_simultaneous-clusters both.instances
