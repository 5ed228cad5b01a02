-- ===== src/Strategy.antt =====
-- internal/analysis/workflow/strategy.go and `MatchStrategyForGroup` of switch_flow.go: which
-- switching strategy a group of failed instances triggers. Of a strategy's columns the model has
-- those that matching and switching read.
pub mod Special
pub mod Choice
mod Tests
use dbha.Prelude.{
  ℕ, ◌+◌, List, [], ◌∷◌, ◌++◌, Option, none, some, Bool, true, false, not, ◌&&◌, ◌||◌, Text, codes,
  ℤ, pos, negsuc, zero, suc, ltb_ℤ, leb, if◌then◌else◌, count_if, keep, sort_by, ◌==◌, nat_beq,
  group_from, Map, is_empty, text_eq,
}
use dbha.Failure.{FailureInstanceInfo, FailureGroup, generate_cluster_key}

pub record DbSwitchingStrategy : Type 0 where
  pub id : ℕ
  pub status : Text
  pub bk_biz_id : ℕ
  pub trigger_event_name : Text
  pub trigger_event_name_reason : ℕ
  pub trigger_count : ℤ
  pub priority : ℤ
  pub scope : Text
  pub action : Text

abbrev pub event_proxy_backend_failure : Text
event_proxy_backend_failure = codes "dbha_tendbha_proxy_backend_failure"

abbrev pub event_spider_remote_failure : Text
event_spider_remote_failure = codes "dbha_tendbcluster_spider_remote_failure"

abbrev pub cluster_type_tendbha : Text
cluster_type_tendbha = codes "tendbha"

abbrev pub cluster_type_tendbcluster : Text
cluster_type_tendbcluster = codes "tendbcluster"

abbrev pub machine_type_proxy : Text
machine_type_proxy = codes "proxy"

abbrev pub machine_type_backend : Text
machine_type_backend = codes "backend"

abbrev pub machine_type_spider : Text
machine_type_spider = codes "spider"

abbrev pub machine_type_remote : Text
machine_type_remote = codes "remote"

abbrev pub mysql_storage_master : Text
mysql_storage_master = codes "backend_master"

abbrev pub tendbcluster_storage_master : Text
tendbcluster_storage_master = codes "remote_master"

abbrev pub cluster_key_of : FailureInstanceInfo → Text
cluster_key_of inst = generate_cluster_key inst.bk_cloud_id inst.cluster_id

-- The machine and role that a special strategy wants to fail together in one cluster.
pub record Pairing : Type 0 where
  pub cluster_type : Text
  pub front : Text
  pub back : Text
  pub back_role : Text

-- The inner loop of both special matches: the two flags, `continue` on another cluster type, and
-- `break` once both flags are set.
unfoldable pub scan_group : Pairing → Bool → Bool → List FailureInstanceInfo → Bool × Bool
scan_group p has_front has_back [] = (has_front, has_back)
scan_group p has_front has_back (inst ∷ rest) =
    let skipped = scan_group p has_front has_back rest in
    let front = has_front || inst.machine_type == p.front in
    let back = has_back || (inst.machine_type == p.back && inst.instance_role == p.back_role) in
    let next = scan_group p front back rest in
    if not (inst.cluster_type == p.cluster_type)
    then skipped
    else if front && back
    then (front, back)
    else next

-- `hasProxy && hasBackendMaster`, and its twin
abbrev pub both_failed : Pairing → List FailureInstanceInfo → Bool
both_failed p group = let (front, back) = scan_group p false false group in front && back

-- The two loops of a special match: group by cluster, then count the groups with both failures.
abbrev pub match_simultaneous : Pairing → List FailureInstanceInfo → ℕ
match_simultaneous p instances =
    count_if (λ g. both_failed p g.1) (group_from cluster_key_of [] instances)

abbrev pub proxy_backend : Pairing
proxy_backend = record {
  cluster_type = cluster_type_tendbha;
  front = machine_type_proxy;
  back = machine_type_backend;
  back_role = mysql_storage_master;
}

abbrev pub spider_remote : Pairing
spider_remote = record {
  cluster_type = cluster_type_tendbcluster;
  front = machine_type_spider;
  back = machine_type_remote;
  back_role = tendbcluster_storage_master;
}

-- `MatchProxyBackendSimultaneous`
unfoldable pub match_proxy_backend_simultaneous : List FailureInstanceInfo → ℕ
match_proxy_backend_simultaneous = match_simultaneous proxy_backend

-- `MatchSpiderRemoteMasterSimultaneous`
unfoldable pub match_spider_remote_master_simultaneous : List FailureInstanceInfo → ℕ
match_spider_remote_master_simultaneous = match_simultaneous spider_remote

-- `GetSpecialMatchFunc`, with the registry
unfoldable pub get_special_match_func : Text → Option (List FailureInstanceInfo → ℕ)
get_special_match_func event =
    if event == event_proxy_backend_failure
    then some match_proxy_backend_simultaneous
    else if event == event_spider_remote_failure
    then some match_spider_remote_master_simultaneous
    else none

-- `CountInstancesByEventName`
unfoldable pub count_instances_by_event_name : List FailureInstanceInfo → Text → ℕ
count_instances_by_event_name [] event = 0
count_instances_by_event_name (inst ∷ rest) event =
    (if inst.event_name == event then 1 else 0) + count_instances_by_event_name rest event

-- The comparison of `SortCandidates`: business strategies first, then the lower priority value.
unfoldable pub candidate_less : DbSwitchingStrategy → DbSwitchingStrategy → Bool
candidate_less a b =
    let a_biz = not (nat_beq a.bk_biz_id 0) in
    let b_biz = not (nat_beq b.bk_biz_id 0) in
    if a_biz && not b_biz || not a_biz && b_biz then a_biz else ltb_ℤ a.priority b.priority

-- `SortCandidates`
unfoldable pub sort_candidates : List DbSwitchingStrategy → List DbSwitchingStrategy
sort_candidates = sort_by candidate_less

-- The threshold of a strategy: its trigger count, or 1 where that is 0 or less.
unfoldable pub threshold_of : ℤ → ℕ
threshold_of (pos zero) = 1
threshold_of (pos (suc n)) = suc n
threshold_of (negsuc n) = 1

-- What a strategy counts in a group.
unfoldable pub strategy_count : List FailureInstanceInfo → DbSwitchingStrategy → ℕ
strategy_count instances s = elim (get_special_match_func s.trigger_event_name) [
  | some match_func ↦ match_func instances
  | none ↦ count_instances_by_event_name instances s.trigger_event_name
]

-- count >= threshold
unfoldable pub is_candidate : List FailureInstanceInfo → DbSwitchingStrategy → Bool
is_candidate instances s = leb (threshold_of s.trigger_count) (strategy_count instances s)

-- The loop of `MatchStrategyForGroup` over the strategies.
unfoldable pub collect_candidates :
    List FailureInstanceInfo
    → List DbSwitchingStrategy
    → List DbSwitchingStrategy
    → List DbSwitchingStrategy
collect_candidates instances candidates [] = candidates
collect_candidates instances candidates (s ∷ rest) =
    collect_candidates instances
      (if is_candidate instances s then candidates ++ s ∷ [] else candidates) rest

abbrev pub head_of {ℓ} : {A : Type ℓ} → List A → Option A
head_of [] = none
head_of (x ∷ xs) = some x

-- `MatchStrategyForGroup`; `read` is the query for the strategies of a business, `none` its failure.
unfoldable pub match_strategy_for_group :
    (ℕ → Option (List DbSwitchingStrategy)) → FailureGroup → Option DbSwitchingStrategy
match_strategy_for_group read group = elim group.instances [
  | [] ↦ none
  | first ∷ rest ↦ elim (read first.bk_biz_id) [
    | none ↦ none
    | some strategies ↦
        let candidates = collect_candidates (first ∷ rest) [] strategies in
        if is_empty candidates then none else head_of (sort_candidates candidates)
  ]
]
