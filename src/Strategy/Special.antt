-- ===== src/Strategy/Special.antt =====
-- What the special strategies count: the clusters in which both machines of a pair have failed.
use dbha.Prelude.{
  ◌≡◌, ap, ◌∙◌, List, [], ◌∷◌, Bool, false, ◌&&◌, ◌||◌, Text, any, keep, count_if, seen_from,
  count-group_from, arith, ◌==◌, text_eq, any-keep, fun_ext,
}
use dbha.Failure.{FailureInstanceInfo}
use dbha.Strategy.{
  Pairing, scan_group, both_failed, match_simultaneous, proxy_backend, spider_remote,
  cluster_key_of, match_proxy_backend_simultaneous, match_spider_remote_master_simultaneous,
  cluster_type_tendbha, cluster_type_tendbcluster, machine_type_proxy, machine_type_backend,
  machine_type_spider, machine_type_remote, mysql_storage_master, tendbcluster_storage_master,
}

abbrev is_front : Pairing → FailureInstanceInfo → Bool
is_front p inst = inst.cluster_type == p.cluster_type && inst.machine_type == p.front

abbrev is_back : Pairing → FailureInstanceInfo → Bool
is_back p inst =
    inst.cluster_type == p.cluster_type
    && (inst.machine_type == p.back && inst.instance_role == p.back_role)

-- The loop with its early exit finds what a search of the whole group finds.
scan_group-any :
    (p : Pairing) (f b : Bool) (l : List FailureInstanceInfo)
    → ((scan_group p f b l).0 && (scan_group p f b l).1)
      ≡ ((f || any (is_front p) l) && (b || any (is_back p) l))
unfolding scan_group
scan_group-any p f b [] = ground arith
scan_group-any p f b (inst ∷ rest) = ground (
  arith,
  scan_group-any p f b rest,
  scan_group-any p (f || inst.machine_type == p.front)
      (b || (inst.machine_type == p.back && inst.instance_role == p.back_role)) rest,
)

-- An instance of the cluster with the key fails at the front, or at the back.
abbrev pub fails_in : (FailureInstanceInfo → Bool) → List FailureInstanceInfo → Text → Bool
fails_in q instances k = any (λ inst. cluster_key_of inst == k && q inst) instances

match_simultaneous-clusters :
    (p : Pairing) (instances : List FailureInstanceInfo)
    → match_simultaneous p instances
      ≡ count_if
          (λ k. fails_in (is_front p) instances k && fails_in (is_back p) instances k)
          (seen_from cluster_key_of [] instances)
match_simultaneous-clusters p instances =
    count-group_from (both_failed p) cluster_key_of instances
    ∙ ap (λ f. count_if f (seen_from cluster_key_of [] instances))
        (fun_ext (λ k. ground (
          arith,
          scan_group-any p false false (keep (λ inst. cluster_key_of inst == k) instances),
          any-keep (λ inst. cluster_key_of inst == k) (is_front p) instances,
          any-keep (λ inst. cluster_key_of inst == k) (is_back p) instances,
        )))

-- The proxy/backend strategy counts the clusters, each once, in which some TendbHA proxy and some
-- TendbHA backend master of the group have failed.
pub match_proxy_backend_simultaneous-clusters :
    (instances : List FailureInstanceInfo)
    → match_proxy_backend_simultaneous instances
      ≡ count_if
          (λ k.
            fails_in
              (λ inst.
                inst.cluster_type == cluster_type_tendbha
                && inst.machine_type == machine_type_proxy)
              instances
              k
            && fails_in
                (λ inst.
                  inst.cluster_type == cluster_type_tendbha
                  && (inst.machine_type == machine_type_backend
                      && inst.instance_role == mysql_storage_master))
                instances
                k)
          (seen_from cluster_key_of [] instances)
unfolding match_proxy_backend_simultaneous
match_proxy_backend_simultaneous-clusters instances =
    match_simultaneous-clusters proxy_backend instances

-- The spider/remote strategy counts the clusters, each once, in which some TendbCluster spider and
-- some TendbCluster remote master of the group have failed.
pub match_spider_remote_master_simultaneous-clusters :
    (instances : List FailureInstanceInfo)
    → match_spider_remote_master_simultaneous instances
      ≡ count_if
          (λ k.
            fails_in
              (λ inst.
                inst.cluster_type == cluster_type_tendbcluster
                && inst.machine_type == machine_type_spider)
              instances
              k
            && fails_in
                (λ inst.
                  inst.cluster_type == cluster_type_tendbcluster
                  && (inst.machine_type == machine_type_remote
                      && inst.instance_role == tendbcluster_storage_master))
                instances
                k)
          (seen_from cluster_key_of [] instances)
unfolding match_spider_remote_master_simultaneous
match_spider_remote_master_simultaneous-clusters instances =
    match_simultaneous-clusters spider_remote instances
