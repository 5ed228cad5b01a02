-- ===== src/Flow.antt =====
-- internal/analysis/workflow: what is done with the instances that are popped for a business, in
-- workflow.go, switch_flow.go and dbhav1_whitelist.go. The groups of one pop run one after the other
-- here, in goroutines there. The answers of the services are arguments; log lines and metrics are
-- left out. A query that fails is `none`.
pub mod Handling
pub mod Grouping
pub mod Release
pub mod Permission
pub mod Selection
mod Tests
use dbha.Prelude.{
  ℕ, zero, suc, ◌+◌, List, [], ◌∷◌, ◌++◌, Option, none, some, Bool, true, false, not, ◌&&◌, Text,
  codes, decimal, ◌==◌, ltb, nat_beq, if◌then◌else◌, is_empty, keep, map, elem, text_eq, nat_eq,
  Map, lookup, insert, sort_by,
}
use dbha.Failure.{FailureInstanceInfo, FailureGroup, group_ips, instance_key, window_key_of}
use dbha.Window.{FailureWindowEntry, BizWindowManager, pop_and_mark_start, mark_done}
use dbha.Strategy.{DbSwitchingStrategy, match_strategy_for_group}

-- Of the metadata of an instance, what the flow reads.
pub record DbInstMetadata : Type 0 where
  pub bk_biz_id : ℕ
  pub bk_cloud_id : ℕ
  pub ip : Text
  pub port : ℕ
  pub cluster_id : ℕ
  pub status : Text

pub record Request : Type 0 where
  pub switch_id : Text
  pub action_scope : Text
  pub db_type : Text
  pub mysql_inst_data : List DbInstMetadata

-- `Request.AddDbInstMetadata`
unfoldable pub add_db_inst_metadata : Request → DbInstMetadata → Request
add_db_inst_metadata req meta = record req { mysql_inst_data = req.mysql_inst_data ++ meta ∷ [] }

-- `Request.HasDbInstMetadata`
abbrev pub has_db_inst_metadata : Request → Bool
has_db_inst_metadata req = not (is_empty req.mysql_inst_data)

-- What the flow asks of the services and of the configuration. `black_white_list` has an answer for
-- each attempt, the clusters' ids, and `cancelled` says whether the context ends while the attempt's
-- retry is waited for.
pub record Services : Type 0 where
  pub query_metadata_from_dbm : ℕ → List Text → Option (List DbInstMetadata)
  pub read_switching_strategy : ℕ → Option (List DbSwitchingStrategy)
  pub black_white_list : ℕ → ℕ → ℕ → Option (List ℕ)
  pub cancelled : ℕ → Bool
  pub has_switcher : Text → Bool
  pub enable_white_list : Bool
  pub enable_switching : Bool
  pub new_switch_id : Text

-- What the flow does: an alarm for a business, or the call of the switcher of a database type.
pub data Effect : Type 0 where
  alarm : ℕ → Effect
  switching : Text → Request → Effect

abbrev pub unavailable : Text
unavailable = codes "unavailable"

abbrev pub action_notify : Text
action_notify = codes "notify"

abbrev pub action_switch : Text
action_switch = codes "switch"

-- The loop of `CreateRequestWithGroup` over the metadata.
unfoldable pub add_available : Request → List DbInstMetadata → Request
add_available req [] = req
add_available req (meta ∷ rest) =
    add_available (if meta.status == unavailable then req else add_db_inst_metadata req meta) rest

-- `CreateRequestWithGroup`
unfoldable pub create_request_with_group : Services → FailureGroup → Option Request
create_request_with_group s group =
    let ips = group_ips group in
    if is_empty ips then none else elim (s.query_metadata_from_dbm group.bk_cloud_id ips) [
      | none ↦ none
      | some metadatas ↦ some (
          add_available
            (record {
              switch_id = [];
              action_scope = [];
              db_type = group.db_type;
              mysql_inst_data = [];
            })
            metadatas)
    ]

abbrev pub key_of_meta : DbInstMetadata → Text
key_of_meta meta = instance_key meta.bk_cloud_id meta.ip meta.port

-- `excludeUnavailableInstances`
unfoldable pub exclude_unavailable_instances :
    List FailureInstanceInfo → Request → List FailureInstanceInfo
exclude_unavailable_instances insts req =
    if is_empty req.mysql_inst_data
    then []
    else (let req_keys = map key_of_meta req.mysql_inst_data in
        keep (λ inst. elem (instance_key inst.bk_cloud_id inst.ip inst.port) req_keys) insts)

-- The loop of `queryBlackWhiteListFromDbhaV1`, from an attempt on with some attempts left.
unfoldable pub query_attempts : Services → ℕ → ℕ → ℕ → ℕ → Option (List ℕ)
query_attempts s biz cloud zero attempt = none
query_attempts s biz cloud (suc left) attempt =
    let rest = query_attempts s biz cloud left (suc attempt) in
    elim (s.black_white_list attempt cloud biz) [
      | some items ↦ some items
      | none ↦ if nat_beq left 0 then rest else (if s.cancelled attempt then none else rest)
    ]

-- `queryBlackWhiteListFromDbhaV1`, with three attempts
unfoldable pub query_black_white_list : Services → ℕ → ℕ → Option (List ℕ)
query_black_white_list s biz cloud = query_attempts s biz cloud 3 1

-- `whitelistCluster.String`
unfoldable pub whitelist_cluster : ℕ → ℕ → ℕ → Text
whitelist_cluster biz cloud cluster =
    decimal biz ++ (b':' ∷ (decimal cloud ++ (b':' ∷ decimal cluster)))

abbrev pub cluster_of_meta : DbInstMetadata → Text
cluster_of_meta meta = whitelist_cluster meta.bk_biz_id meta.bk_cloud_id meta.cluster_id

-- The filter of `filterByWhitelistForSwitch` where the query has answered.
unfoldable pub keep_whitelisted : ℕ → ℕ → List ℕ → Request → Request × List Effect
keep_whitelisted biz cloud items req =
    let whitelist = map (whitelist_cluster biz cloud) items in
    let kept = keep (λ meta. elem (cluster_of_meta meta) whitelist) req.mysql_inst_data in
    let remaining =
      keep (λ meta. not (elem (cluster_of_meta meta) whitelist)) req.mysql_inst_data in
    (record req { mysql_inst_data = kept }, if is_empty remaining then [] else alarm biz ∷ [])

-- `filterByWhitelistForSwitch`: whether it fails, the request and the alarms.
unfoldable pub filter_by_whitelist_for_switch :
    Services → FailureGroup → Request → Bool × Request × List Effect
filter_by_whitelist_for_switch s group req =
    if not s.enable_white_list
    then (false, req, [])
    else if not s.enable_switching
    then (false, req, [])
    else elim group.instances [
      | [] ↦ (false, req, [])
      | first ∷ rest ↦ elim (query_black_white_list s first.bk_biz_id group.bk_cloud_id) [
        | none ↦ (true, record req { mysql_inst_data = [] }, alarm first.bk_biz_id ∷ [])
        | some items ↦
            let (req', alarms) = keep_whitelisted first.bk_biz_id group.bk_cloud_id items req in
            (false, req', alarms)
      ]
    ]

-- `TriggerSwitching` up to the switcher's call.
unfoldable pub trigger_switching : Services → Text → Request → List Effect
trigger_switching s db_type req =
    if not s.enable_switching
    then []
    else (if s.has_switcher db_type then switching db_type req ∷ [] else [])

-- The alarm of `handleStrategyNotify`; the group is not empty there.
unfoldable pub notify : FailureGroup → List Effect
notify group = elim group.instances [ [] ↦ [] | first ∷ rest ↦ alarm first.bk_biz_id ∷ [] ]

-- `handleStrategySwitch`: none if the action is another one.
unfoldable pub handle_strategy_switch :
    Services → DbSwitchingStrategy → FailureGroup → Request → Option (List Effect)
handle_strategy_switch s strategy group req =
    if strategy.action == action_switch
    then some (
        trigger_switching s group.db_type
          (record req { action_scope = strategy.scope; switch_id = s.new_switch_id }))
    else none
