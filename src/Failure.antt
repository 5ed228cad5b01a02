-- ===== src/Failure.antt =====
-- internal/analysis/workflow/failure_collector.go: a failed instance, a failure group; and the keys
-- of internal/analysis/workflow/{sliding_window,workflow}.go and
-- internal/analysis/switcher/switchcore/unique_keys.go. Ids and ports are numbers that are not
-- negative, times are nanoseconds since the epoch, strings are lists of bytes.
pub mod Keys
mod Tests
use dbha.Prelude.{
  ℕ, Text, decimal, codes, List, [], ◌∷◌, ◌++◌, Option, Bool, if◌then◌else◌, elem, ◌==◌, text_eq,
}

pub record FailureInstanceInfo : Type 0 where
  pub bk_cloud_id : ℕ
  pub ip : Text
  pub port : ℕ
  pub bk_biz_id : ℕ
  pub cluster : Text
  pub cluster_id : ℕ
  pub db_type : Text
  pub event_name : Text
  pub event_name_reason : ℕ
  pub cluster_type : Text
  pub machine_type : Text
  pub instance_role : Text
  pub check_start_time : Option ℕ
  pub check_finished_time : Option ℕ

pub record FailureGroup : Type 0 where
  pub bk_cloud_id : ℕ
  pub db_type : Text
  pub instances : List FailureInstanceInfo

-- fmt.Sprintf("%d:%s:%d:%s", bkCloudID, ip, port, dbType)
unfoldable pub instance_window_key : ℕ → Text → ℕ → Text → Text
instance_window_key cloud ip port db_type =
    decimal cloud ++ (b':' ∷ (ip ++ (b':' ∷ (decimal port ++ (b':' ∷ db_type)))))

-- The key of a failed instance, as the callers build it.
abbrev pub window_key_of : FailureInstanceInfo → Text
window_key_of inst = instance_window_key inst.bk_cloud_id inst.ip inst.port inst.db_type

-- fmt.Sprintf("%d:%s:%v", bkCloudId, ip, port), at a port that is an int
unfoldable pub instance_key : ℕ → Text → ℕ → Text
instance_key cloud ip port = decimal cloud ++ (b':' ∷ (ip ++ (b':' ∷ decimal port)))

-- fmt.Sprintf("%d:%s:%d", bkCloudId, ip, port)
unfoldable pub generate_metadata_key : ℕ → Text → ℕ → Text
generate_metadata_key cloud ip port = decimal cloud ++ (b':' ∷ (ip ++ (b':' ∷ decimal port)))

-- fmt.Sprintf("%d:%d", bkCloudId, clusterId)
unfoldable pub generate_cluster_key : ℕ → ℕ → Text
generate_cluster_key cloud cluster = decimal cloud ++ (b':' ∷ decimal cluster)

-- The loop of `IPs`: `seen` and `ips` hold the same addresses.
unfoldable pub ips_from : List Text → List FailureInstanceInfo → List Text
ips_from ips [] = ips
ips_from ips (inst ∷ rest) = ips_from (if elem inst.ip ips then ips else ips ++ inst.ip ∷ []) rest

-- The addresses of a group, each once, in order.
unfoldable pub group_ips : FailureGroup → List Text
group_ips g = ips_from [] g.instances
