-- ===== src/Switch/Tests.antt =====
-- Runs of the three kinds of switch, and their theorems at them.
use dbha.Prelude.{
  ◌≡◌, ◌≢◌, refl, [], ◌∷◌, none, some, true, false, codes, All, pos, group_from, lookup, insert,
  decimal, negsuc,
}
use dbha.Failure.{generate_cluster_key}
use dbha.Switch.{
  Context, Locks, Calls, SwitchableInstance, SwitchableCluster, phase_of, err_if_ctx_done, guarded,
  attempt, lock_cluster_with_timeout, on_return, running,
}
use dbha.Switch.Steps.{ok_of, last_phase}
use dbha.Switch.Single.{
  switch_single_instance, switch_body, switch_locked, after_check, switch_steps, check_status,
  set_status, do_check_before_instance_switch, check_before, do_switch_in_instance_switch,
  do_update_meta_info_in_instance_switch, do_final_in_instance_switch,
}
use dbha.Switch.Single.Protocol.{switch_single_instance_lem}
use dbha.Switch.Cluster.{switch_same_cluster_instances}
use dbha.Switch.Cluster.Protocol.{switch_same_cluster_instances_lem}
use dbha.Switch.Host.{
  last_cloud, set_unavailable, tried_lock, unlocked, checked, switched, updated_meta, finalized,
  lock_cluster, check_groups, check_on_same_host_same_cluster, check_each, set_status_in_batch,
  err_if_ctx_done_in_host_switch, HostInstance, HostWorld, Instances, check_status_for_host_switch,
  set_status_for_host_switch, check_on_same_host, cluster_key_of,
}
use dbha.Switch.Host.Processing.{
  check_and_process, process_on_same_host, process_groups, process_on_same_host_group, switch_each,
  do_switch_for_host_instance, do_update_and_final, ctx_errors, group_cluster_keys, others, merge,
  switch_same_host_instances, host_switch_group_key,
}
use dbha.Switch.Host.Locking.{is_remote, host_switch_group_key-injective}
use dbha.Switch.Limits.{
  SwitchFlowConfig, limits-IsLimitOf, IsLimitOf, host_level_switch_max_host_concurrency,
  host_level_switch_max_instance_concurrency, cluster_level_switch_max_cluster_concurrency,
  cluster_level_switch_max_instance_concurrency, dbm_api_max_concurrent_requests_of,
  db_connect_timeout_of, cluster_lock_timeout_of, exec_sql_timeout_of,
}

-- Everything succeeds but the last step, and the context never ends.
abbrev calls : Calls
calls = record {
  set_instance_unavailable = λ t. none;
  check_before_switch = λ t. (0, none);
  do_switch = λ t. none;
  update_meta_info = λ t. none;
  do_final = λ t. some (codes "final");
  roll_back = λ t. none;
}

abbrev ctx : Context
ctx = some (λ t. none)

abbrev free_locks : Locks
free_locks key t = true

abbrev instance_of_3 : SwitchableInstance
instance_of_3 = record { bk_cloud_id = 0; cluster_id = 3; status = running; calls = calls }

abbrev cluster_3 : SwitchableCluster
cluster_3 = record {
  bk_cloud_id = 0;
  cluster_id = 3;
  switch_instances = (codes "0:10.0.0.1:3306", running) ∷ [];
  calls = calls;
}

switch_single_instance_lem_example :
    let ((success, err), t) = switch_single_instance ctx free_locks instance_of_3 [] in
    (phase_of (generate_cluster_key 0 3) t ≡ some (last_phase success)) × (ok_of err ≡ success)
switch_single_instance_lem_example = switch_single_instance_lem ctx free_locks instance_of_3

single_fails : (switch_single_instance ctx free_locks instance_of_3 []).0.0 ≡ false
unfolding switch_single_instance switch_body switch_locked after_check switch_steps check_status
    set_status do_check_before_instance_switch check_before do_switch_in_instance_switch
    do_update_meta_info_in_instance_switch do_final_in_instance_switch err_if_ctx_done guarded
    attempt lock_cluster_with_timeout on_return generate_cluster_key decimal
single_fails = refl

switch_same_cluster_instances_lem_example :
    let ((success, err), t) = switch_same_cluster_instances ctx free_locks cluster_3 [] in
    (phase_of (generate_cluster_key 0 3) t ≡ some (last_phase success))
    × (success ≡ false → err ≢ none)
switch_same_cluster_instances_lem_example =
    switch_same_cluster_instances_lem ctx free_locks cluster_3

abbrev host_instance : HostInstance
host_instance = record {
  bk_cloud_id = 0;
  ip = codes "10.0.0.1";
  port = 3306;
  cluster_id = 3;
  cluster_type = codes "tendbha";
  machine_type = codes "backend";
  status = running;
  check_before_switch = λ t. 0;
  do_switch = λ t. none;
  update_meta_info = λ t. none;
  do_final = λ t. none;
}

abbrev host_world : HostWorld
host_world = record {
  ctx = none;
  locks = λ key t. true;
  update_batch_instances_status = λ cloud addresses t. none;
}

abbrev on_host : Instances
on_host = (codes "0:10.0.0.1:3306", host_instance) ∷ []

-- The trace of a switch that succeeds.
host_is_switched : switch_same_host_instances host_world on_host [] ≡ (
  (true, []),
  unlocked (generate_cluster_key 0 3)
      ∷ finalized (codes "0:10.0.0.1:3306") true
      ∷ updated_meta (codes "0:10.0.0.1:3306") true
      ∷ switched (codes "0:10.0.0.1:3306") true
      ∷ tried_lock (generate_cluster_key 0 3) true
      ∷ unlocked (generate_cluster_key 0 3)
      ∷ checked (codes "0:10.0.0.1:3306") 0
      ∷ tried_lock (generate_cluster_key 0 3) true
      ∷ set_unavailable 0 ((codes "10.0.0.1", 3306) ∷ []) true
      ∷ [],
)
unfolding switch_same_host_instances check_and_process process_on_same_host last_cloud
    process_groups process_on_same_host_group switch_each do_switch_for_host_instance
    do_update_and_final lock_cluster check_on_same_host check_groups check_on_same_host_same_cluster
    check_each set_status_for_host_switch set_status_in_batch check_status_for_host_switch
    err_if_ctx_done_in_host_switch ctx_errors group_cluster_keys host_switch_group_key others merge
    group_from lookup insert generate_cluster_key decimal
host_is_switched = refl

host_switch_group_key-injective_example :
    (cluster_key_of host_instance ≡ cluster_key_of host_instance)
    × (is_remote host_instance ≡ false
        → is_remote host_instance ≡ false
        → codes "0:10.0.0.1:3306" ≡ codes "0:10.0.0.1:3306")
host_switch_group_key-injective_example =
    host_switch_group_key-injective (codes "0:10.0.0.1:3306") (codes "0:10.0.0.1:3306")
      host_instance host_instance refl

-- Nothing is set, and one setting is negative.
abbrev config : SwitchFlowConfig
config = record {
  host_level_switch_max_host_num = pos 0;
  host_level_switch_max_instance_num = negsuc 4;
  cluster_level_switch_max_cluster_num = pos 9;
  cluster_level_switch_max_instance_num = pos 0;
  dbm_api_max_concurrent_requests = pos 0;
  db_connect_timeout = pos 0;
  cluster_lock_timeout = pos 0;
  exec_sql_timeout = pos 0;
}

limits-IsLimitOf_example : All IsLimitOf (
    (config.host_level_switch_max_host_num, 32, host_level_switch_max_host_concurrency config)
    ∷ (
      config.host_level_switch_max_instance_num,
      64,
      host_level_switch_max_instance_concurrency config,
    )
    ∷ (
      config.cluster_level_switch_max_cluster_num,
      32,
      cluster_level_switch_max_cluster_concurrency config,
    )
    ∷ (
      config.cluster_level_switch_max_instance_num,
      64,
      cluster_level_switch_max_instance_concurrency config,
    )
    ∷ (config.dbm_api_max_concurrent_requests, 8, dbm_api_max_concurrent_requests_of config)
    ∷ (config.db_connect_timeout, 3_000_000_000, db_connect_timeout_of config)
    ∷ (config.cluster_lock_timeout, 60_000_000_000, cluster_lock_timeout_of config)
    ∷ (config.exec_sql_timeout, 6_000_000_000, exec_sql_timeout_of config)
    ∷ [])
limits-IsLimitOf_example = limits-IsLimitOf config
