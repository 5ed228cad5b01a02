-- ===== src/Switch/Limits.antt =====
-- internal/analysis/switcher/switchcore/constraints.go: the limits of a switch, from the
-- configuration. Durations are nanoseconds; a value that is not positive stands for the default.
use dbha.Prelude.{
  All, [], ◌∷◌, ℕ, ◌*◌, ◌<◌, ◌≡◌, ℤ, pos, ltb_ℤ, not, if◌then◌else◌, arith, true, false,
}

-- The settings of `config.Cfg.Workflow.SwitchFlow` that are read here.
pub record SwitchFlowConfig : Type 0 where
  pub host_level_switch_max_host_num : ℤ
  pub host_level_switch_max_instance_num : ℤ
  pub cluster_level_switch_max_cluster_num : ℤ
  pub cluster_level_switch_max_instance_num : ℤ
  pub dbm_api_max_concurrent_requests : ℤ
  pub db_connect_timeout : ℤ
  pub cluster_lock_timeout : ℤ
  pub exec_sql_timeout : ℤ

abbrev second : ℕ
second = 1000000000

unfoldable pub host_level_switch_max_host_concurrency : SwitchFlowConfig → ℤ
host_level_switch_max_host_concurrency cfg =
    let n = cfg.host_level_switch_max_host_num in if not (ltb_ℤ (pos 0) n) then pos 32 else n

unfoldable pub host_level_switch_max_instance_concurrency : SwitchFlowConfig → ℤ
host_level_switch_max_instance_concurrency cfg =
    let n = cfg.host_level_switch_max_instance_num in if not (ltb_ℤ (pos 0) n) then pos 64 else n

unfoldable pub cluster_level_switch_max_cluster_concurrency : SwitchFlowConfig → ℤ
cluster_level_switch_max_cluster_concurrency cfg =
    let n = cfg.cluster_level_switch_max_cluster_num in if not (ltb_ℤ (pos 0) n) then pos 32 else n

unfoldable pub cluster_level_switch_max_instance_concurrency : SwitchFlowConfig → ℤ
cluster_level_switch_max_instance_concurrency cfg =
    let n = cfg.cluster_level_switch_max_instance_num in if not (ltb_ℤ (pos 0) n) then pos 64 else n

unfoldable pub dbm_api_max_concurrent_requests_of : SwitchFlowConfig → ℤ
dbm_api_max_concurrent_requests_of cfg =
    let n = cfg.dbm_api_max_concurrent_requests in if not (ltb_ℤ (pos 0) n) then pos 8 else n

unfoldable pub db_connect_timeout_of : SwitchFlowConfig → ℤ
db_connect_timeout_of cfg =
    let d = cfg.db_connect_timeout in if not (ltb_ℤ (pos 0) d) then pos (3 * second) else d

unfoldable pub cluster_lock_timeout_of : SwitchFlowConfig → ℤ
cluster_lock_timeout_of cfg =
    let d = cfg.cluster_lock_timeout in if not (ltb_ℤ (pos 0) d) then pos (60 * second) else d

unfoldable pub exec_sql_timeout_of : SwitchFlowConfig → ℤ
exec_sql_timeout_of cfg =
    let d = cfg.exec_sql_timeout in if not (ltb_ℤ (pos 0) d) then pos (6 * second) else d

-- A limit is positive; it is the setting where that is positive, and the default where not.
abbrev pub IsLimitOf : ℤ × ℕ × ℤ → Type 0
IsLimitOf (setting, default, limit) =
    (ltb_ℤ (pos 0) limit ≡ true)
    × (ltb_ℤ (pos 0) setting ≡ true → limit ≡ setting)
    × (ltb_ℤ (pos 0) setting ≡ false → limit ≡ pos default)

clamp-IsLimitOf :
    (n : ℤ) (d : ℕ) → 0 < d → IsLimitOf (n, d, if not (ltb_ℤ (pos 0) n) then pos d else n)
clamp-IsLimitOf n d h = (ground arith, λ k. ground arith, λ k. ground arith)

-- Each of the eight limits of constraints.go, whatever is configured, is positive, is the configured
-- value where that is positive, and the default where not: 32 hosts and 64 instances on the host
-- level, 32 clusters and 64 instances on the cluster level, 8 requests to the DBM service, and in
-- nanoseconds 3 seconds to connect, 60 seconds for the lock of a cluster and 6 seconds for SQL.
pub limits-IsLimitOf :
    (cfg : SwitchFlowConfig)
    → All IsLimitOf (
        (cfg.host_level_switch_max_host_num, 32, host_level_switch_max_host_concurrency cfg)
        ∷ (
          cfg.host_level_switch_max_instance_num,
          64,
          host_level_switch_max_instance_concurrency cfg,
        )
        ∷ (
          cfg.cluster_level_switch_max_cluster_num,
          32,
          cluster_level_switch_max_cluster_concurrency cfg,
        )
        ∷ (
          cfg.cluster_level_switch_max_instance_num,
          64,
          cluster_level_switch_max_instance_concurrency cfg,
        )
        ∷ (cfg.dbm_api_max_concurrent_requests, 8, dbm_api_max_concurrent_requests_of cfg)
        ∷ (cfg.db_connect_timeout, 3_000_000_000, db_connect_timeout_of cfg)
        ∷ (cfg.cluster_lock_timeout, 60_000_000_000, cluster_lock_timeout_of cfg)
        ∷ (cfg.exec_sql_timeout, 6_000_000_000, exec_sql_timeout_of cfg)
        ∷ [])
unfolding host_level_switch_max_host_concurrency host_level_switch_max_instance_concurrency
    cluster_level_switch_max_cluster_concurrency cluster_level_switch_max_instance_concurrency
    dbm_api_max_concurrent_requests_of db_connect_timeout_of cluster_lock_timeout_of
    exec_sql_timeout_of
limits-IsLimitOf cfg = (
  clamp-IsLimitOf cfg.host_level_switch_max_host_num 32 (omega arith),
  (
    clamp-IsLimitOf cfg.host_level_switch_max_instance_num 64 (omega arith),
    (
      clamp-IsLimitOf cfg.cluster_level_switch_max_cluster_num 32 (omega arith),
      (
        clamp-IsLimitOf cfg.cluster_level_switch_max_instance_num 64 (omega arith),
        (
          clamp-IsLimitOf cfg.dbm_api_max_concurrent_requests 8 (omega arith),
          (
            clamp-IsLimitOf cfg.db_connect_timeout 3_000_000_000 (omega arith),
            (
              clamp-IsLimitOf cfg.cluster_lock_timeout 60_000_000_000 (omega arith),
              (clamp-IsLimitOf cfg.exec_sql_timeout 6_000_000_000 (omega arith), tt),
            ),
          ),
        ),
      ),
    ),
  ),
)
