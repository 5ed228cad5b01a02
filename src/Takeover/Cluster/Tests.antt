-- ===== src/Takeover/Cluster/Tests.antt =====
-- A cluster whose master and one proxy have failed.
use dbha.Prelude.{
  decimal, insert, List, [], ◌∷◌, some, false, Text, codes, ◌≡◌, refl, lookup, text_eq, Distinct,
  ok, parse_uint64, parse_digits, split, atoi, decimal, digits_onto,
}
use dbha.Failure.{generate_cluster_key, generate_metadata_key}
use dbha.Slave.{
  partial_info, get_slave_status_partial_info, parse_master_log_file_index, is_yes, cal_slow_bytes,
  allowed_slow_bytes, allowed_max_checksum_fail_cnt, allowed_max_seconds_behind_master,
}
use dbha.Slave.Checks.{
  check, check_connected, wait_repl_pos_delay, query_max_binlog_size, after_first, wait_loop,
  run_slave_check_sum, has_user_created_database, get_slave_check_sum, check_slave_check_sum,
  run_repl_time_delay, check_seconds_behind_master,
}
use dbha.Takeover.{ProxyInstance}
use dbha.Takeover.Instance.{standby_of, find_standby, backend_master}
use dbha.Takeover.Serving.{IsOrderly}
use dbha.Takeover.Tests.{proxies, standby, slaves, servers, at_start, limits, dbs}
use dbha.Takeover.Cluster.{
  collect_members, set_standby_slave_map, Member, MySqlSwitchCluster, machine_backend,
  machine_proxy, get_available_proxies, new_mysql_switch_cluster, do_switch,
}
use dbha.Takeover.Cluster.Checks.{
  check_before_switch, verdict, has_switch_required_node, check_members, check_member,
  check_mysql_backend, check_storage_master, check_storage_standby,
}
use dbha.Takeover.Cluster.Creation.{IsMade, new_mysql_switch_cluster_lem}
use dbha.Takeover.Cluster.Sorting.{keys_of_fate, Tells, check_before_switch_lem}
use dbha.Takeover.Cluster.Serving.{IsServed, do_switch_lem}
use dbha.Takeover.Cluster.Ready.{IsReady, check_before_switch-IsReady}

abbrev failed_master : Member
failed_master = record {
  bk_cloud_id = 0;
  cluster_id = 7;
  ip = codes "10.0.0.1";
  port = 20000;
  machine_type = machine_backend;
  instance_role = backend_master;
  is_stand_by = false;
  receiver = slaves;
  proxy_instance_set = proxies;
  binlog_dumpers = [];
}

abbrev failed_proxy : Member
failed_proxy = record failed_master {
  ip = codes "10.0.1.1";
  port = 10000;
  machine_type = machine_proxy;
  instance_role = [];
}

abbrev cluster_key : Text
cluster_key = generate_cluster_key 0 7

abbrev master_key : Text
master_key = generate_metadata_key 0 (codes "10.0.0.1") 20000

abbrev proxy_key : Text
proxy_key = generate_metadata_key 0 (codes "10.0.1.1") 10000

abbrev cluster : MySqlSwitchCluster
cluster = record {
  switch_instances = (master_key, failed_master) ∷ (proxy_key, failed_proxy) ∷ [];
  standby_slave_map = (master_key, standby) ∷ [];
  backend_master_key_list = [];
  backend_slave_key_list = [];
  proxy_key_list = [];
}

abbrev sorted_cluster : MySqlSwitchCluster
sorted_cluster = record cluster {
  backend_master_key_list = master_key ∷ [];
  proxy_key_list = proxy_key ∷ [];
}

made :
    new_mysql_switch_cluster cluster_key (failed_master ∷ failed_proxy ∷ failed_proxy ∷ [])
    ≡ ok cluster
unfolding new_mysql_switch_cluster collect_members generate_cluster_key decimal lookup
    set_standby_slave_map insert generate_metadata_key standby_of find_standby
made = refl

abbrev left : List ProxyInstance
left =
    record { ip = codes "10.0.1.3"; port = 10000; admin_port = 11000; status = codes "running" }
    ∷ []

-- Only the proxy that has not failed and is not unavailable is left.
left_over : get_available_proxies sorted_cluster master_key ≡ ok left
unfolding get_available_proxies lookup generate_metadata_key decimal
left_over = refl

found : lookup master_key sorted_cluster.standby_slave_map ≡ some standby
unfolding lookup generate_metadata_key decimal
found = refl

new_mysql_switch_cluster_lem_example :
    IsMade cluster_key (failed_master ∷ failed_proxy ∷ failed_proxy ∷ []) cluster
new_mysql_switch_cluster_lem_example =
    new_mysql_switch_cluster_lem cluster_key (failed_master ∷ failed_proxy ∷ failed_proxy ∷ [])
      cluster made

each_once : Distinct cluster.switch_instances
unfolding lookup generate_metadata_key decimal
each_once = (refl, (refl, tt))

check_before_switch_lem_example :
    Tells limits dbs cluster
      (check_before_switch limits dbs cluster)
      (λ f. keys_of_fate limits dbs cluster f cluster.switch_instances)
check_before_switch_lem_example = check_before_switch_lem limits dbs cluster each_once

master_is_required :
    (check_before_switch limits dbs cluster).0.backend_master_key_list ≡ master_key ∷ []
unfolding check_before_switch verdict has_switch_required_node check_members check_member
    check_mysql_backend check_storage_master check_storage_standby lookup generate_metadata_key
    decimal digits_onto check check_connected wait_repl_pos_delay query_max_binlog_size parse_uint64
    parse_digits after_first wait_loop get_slave_status_partial_info partial_info
    parse_master_log_file_index split atoi is_yes cal_slow_bytes allowed_slow_bytes
    allowed_max_checksum_fail_cnt allowed_max_seconds_behind_master run_slave_check_sum
    has_user_created_database get_slave_check_sum check_slave_check_sum run_repl_time_delay
    check_seconds_behind_master
master_is_required = refl

check_before_switch-IsReady_example : IsReady (check_before_switch limits dbs cluster).0 master_key
check_before_switch-IsReady_example =
    check_before_switch-IsReady limits dbs cluster master_key [] each_once master_is_required

do_switch_lem_example :
    let (r, w) = do_switch servers sorted_cluster at_start in
    IsOrderly left standby.ip standby.port w.effects
    × (r ≡ ok tt → IsServed servers sorted_cluster master_key [] standby left w)
do_switch_lem_example =
    do_switch_lem servers sorted_cluster master_key [] standby left refl left_over found at_start tt
