-- ===== src/Switch/Host/Locking.antt =====
-- The groups that switch under one lock, and the lock that every `DoSwitch` of a host is made under.
use dbha.Prelude.{
  ℕ, ◌∷◌, ◌++◌, Bool, false, Text, ◌≡◌, ◌∙◌, sym, ◌≢◌, ◌&&◌, ◌==◌, arith, text_eq, refl, codes,
  if◌then◌else◌, Lacks, decimal-Lacks_above, cut_first, Bool-cases, inl, inr, All-append,
}
use dbha.Failure.{generate_cluster_key}
use dbha.Switch.Host.{HostInstance, cluster_key_of}
use dbha.Switch.Host.Processing.{host_switch_group_key}

generate_cluster_key-Lacks : (cloud cluster : ℕ) → Lacks b'|' (generate_cluster_key cloud cluster)
unfolding generate_cluster_key
generate_cluster_key-Lacks cloud cluster =
    All-append (λ c. c ≢ b'|') _ _ (decimal-Lacks_above b'|' cloud (omega arith))
      (omega arith, decimal-Lacks_above b'|' cluster (omega arith))

-- The instance is a remote node of a TendbCluster.
abbrev pub is_remote : HostInstance → Bool
is_remote ins = (ins.cluster_type == codes "tendbcluster") && (ins.machine_type == codes "remote")

abbrev after_bar : Text → HostInstance → Text
after_bar k ins = if is_remote ins then codes "remote" else k

host_switch_group_key_split :
    (k : Text) (ins : HostInstance)
    → host_switch_group_key k ins ≡ cluster_key_of ins ++ b'|' ∷ after_bar k ins
unfolding host_switch_group_key
host_switch_group_key_split k ins = elim (Bool-cases (is_remote ins)) [
  | inl e ↦ rw e refl
  | inr e ↦ rw e refl
]

-- Instances of one host that share a switch group, and so a lock, belong to the same cluster; and
-- if neither is a remote node of a TendbCluster, they are the same instance.
pub host_switch_group_key-injective :
    (k k' : Text) (a b : HostInstance)
    → host_switch_group_key k a ≡ host_switch_group_key k' b
    → (cluster_key_of a ≡ cluster_key_of b) × (is_remote a ≡ false → is_remote b ≡ false → k ≡ k')
host_switch_group_key-injective k k' a b e =
    let (same, rest) =
      cut_first b'|' (cluster_key_of a) (cluster_key_of b) (after_bar k a) (after_bar k' b)
        (generate_cluster_key-Lacks a.bk_cloud_id a.cluster_id)
        (generate_cluster_key-Lacks b.bk_cloud_id b.cluster_id)
        (sym (host_switch_group_key_split k a) ∙ e ∙ host_switch_group_key_split k' b) in
    (same, λ p q. ground (arith, rest, p, q))
