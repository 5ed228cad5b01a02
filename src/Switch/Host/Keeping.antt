-- ===== src/Switch/Host/Keeping.antt =====
-- What every event keeps, each procedure of the switch of a host keeps.
use dbha.Prelude.{
  ℕ, List, [], ◌∷◌, Bool, true, false, Text, ◌≡◌, arith, is_empty, text_eq, refl, subst, Bool-cases,
  Option-cases, inl, inr, Map, group_from, map,
}
use dbha.Switch.Host.{
  HostEvent, asked_ctx, set_unavailable, tried_lock, unlocked, checked, switched, updated_meta,
  finalized, HostInstance, HostWorld, Instances, err_if_ctx_done_in_host_switch, lock_cluster,
  last_cloud, check_status_for_host_switch, set_status_in_batch, set_status_for_host_switch,
  check_each, check_on_same_host_same_cluster, check_groups, check_on_same_host, cluster_key_of,
}
use dbha.Switch.Host.Processing.{
  do_update_and_final, do_switch_for_host_instance, switch_each, process_on_same_host_group,
  process_groups, ctx_errors, process_on_same_host,
}

-- Not a call of `DoSwitch`.
abbrev pub is_quiet : HostEvent → Bool
is_quiet (switched k done) = false
is_quiet asked_ctx = true
is_quiet (set_unavailable cloud addresses done) = true
is_quiet (tried_lock key done) = true
is_quiet (unlocked key) = true
is_quiet (checked k code) = true
is_quiet (updated_meta k done) = true
is_quiet (finalized k done) = true

module _ (w : HostWorld) (Inv : List HostEvent → Type 0)
    (step : (e : HostEvent) (t : List HostEvent) → is_quiet e ≡ true → Inv t → Inv (e ∷ t)) where
  pub ctx_keeps : (t : List HostEvent) → Inv t → Inv (err_if_ctx_done_in_host_switch w t).1
  unfolding err_if_ctx_done_in_host_switch
  ctx_keeps t h = elim (Option-cases w.ctx) [
    | inl e ↦ subst Inv (ground (arith, e)) h
    | inr (err, e) ↦ elim (Option-cases (err t)) [
      | inl q ↦ subst Inv (ground (arith, e, q)) (step asked_ctx t refl h)
      | inr (why, q) ↦ subst Inv (ground (arith, e, q)) (step asked_ctx t refl h)
    ]
  ]

  pub lock_keeps : (key : Text) (t : List HostEvent) → Inv t → Inv (lock_cluster w key t).1
  unfolding lock_cluster
  lock_keeps key t h = elim (Bool-cases (is_empty key)) [
    | inl e ↦ rw e h
    | inr e ↦ elim (Bool-cases (w.locks key t)) [
      | inl q ↦ rw (e, q) (step (tried_lock key true) t refl h)
      | inr q ↦ rw (e, q) (step (tried_lock key false) t refl h)
    ]
  ]

  pub status_keeps :
      (insts : Instances) (t : List HostEvent)
      → Inv t
      → Inv (check_status_for_host_switch w insts t).1
  unfolding check_status_for_host_switch
  status_keeps [] t h = h
  status_keeps ((k, ins) ∷ rest) t h =
      let t1 = (err_if_ctx_done_in_host_switch w t).1 in
      let same : (check_status_for_host_switch w rest t1).1
          ≡ (check_status_for_host_switch w ((k, ins) ∷ rest) t).1 =
        ground arith in
      subst Inv same (status_keeps rest t1 (ctx_keeps t h))

  batch_keeps :
      (insts : Instances) (t : List HostEvent) → Inv t → Inv (set_status_in_batch w insts t).1
  unfolding set_status_in_batch last_cloud
  batch_keeps insts t h =
      let cloud = last_cloud insts 0 in
      let addresses : List (Text × ℕ) =
        map (λ (kv : Text × HostInstance). (kv.1.ip, kv.1.port)) insts in
      elim (Option-cases (w.update_batch_instances_status cloud addresses t)) [
        | inl e ↦
            subst Inv (ground (arith, e)) (step (set_unavailable cloud addresses true) t refl h)
        | inr (why, e) ↦
            subst Inv (ground (arith, e)) (step (set_unavailable cloud addresses false) t refl h)
      ]

  pub set_keeps :
      (insts : Instances) (t : List HostEvent)
      → Inv t
      → Inv (set_status_for_host_switch w insts t).1
  unfolding set_status_for_host_switch
  set_keeps [] t h = h
  set_keeps (kv ∷ rest) t h = elim (Option-cases (err_if_ctx_done_in_host_switch w t).0) [
    | inl e ↦ rw e (batch_keeps (kv ∷ rest) _ (ctx_keeps t h))
    | inr (why, e) ↦ rw e (ctx_keeps t h)
  ]

  pub check_each_keeps :
      (insts : Instances) (t : List HostEvent) → Inv t → Inv (check_each w insts t).1
  unfolding check_each
  check_each_keeps [] t h = h
  check_each_keeps ((k, ins) ∷ rest) t h =
      let t1 = (err_if_ctx_done_in_host_switch w t).1 in
      let code = ins.check_before_switch t1 in
      elim (Option-cases (err_if_ctx_done_in_host_switch w t).0) [
        | inl e ↦
            let same : (check_each w rest (checked k code ∷ t1)).1
                ≡ (check_each w ((k, ins) ∷ rest) t).1 =
              ground (arith, e) in
            subst Inv same (
              check_each_keeps rest (checked k code ∷ t1)
                (step (checked k code) t1 refl (ctx_keeps t h)))
        | inr (why, e) ↦ subst Inv (ground (arith, e)) (check_each_keeps rest t1 (ctx_keeps t h))
      ]

  pub check_cluster_keeps :
      (key : Text) (group : Instances) (t : List HostEvent)
      → Inv t
      → Inv (check_on_same_host_same_cluster w key group t).1
  unfolding check_on_same_host_same_cluster
  check_cluster_keeps key group t h = elim (Option-cases (lock_cluster w key t).0) [
    | inl e ↦ subst Inv (ground (arith, e)) (
        step (unlocked key) (check_each w group (lock_cluster w key t).1).1 refl
          (check_each_keeps group _ (lock_keeps key t h)))
    | inr (why, e) ↦ subst Inv (ground (arith, e)) (lock_keeps key t h)
  ]

  pub check_groups_keeps :
      (groups : List (Text × Instances)) (t : List HostEvent)
      → Inv t
      → Inv (check_groups w groups t).1
  unfolding check_groups
  check_groups_keeps [] t h = h
  check_groups_keeps ((key, group) ∷ rest) t h =
      check_groups_keeps rest _ (check_cluster_keeps key group t h)

  pub check_on_same_host_keeps :
      (insts : Instances) (t : List HostEvent) → Inv t → Inv (check_on_same_host w insts t).1
  unfolding check_on_same_host
  check_on_same_host_keeps insts t h =
      check_groups_keeps (group_from (λ kv. cluster_key_of kv.1) [] insts) t h

-- And of the second half.
module _ (w : HostWorld) (Inv : List HostEvent → Type 0)
    (step : (e : HostEvent) (t : List HostEvent) → Inv t → Inv (e ∷ t)) where
  ctx_done_keeps : (t : List HostEvent) → Inv t → Inv (err_if_ctx_done_in_host_switch w t).1
  ctx_done_keeps t h = ctx_keeps w Inv (λ e t quiet h. step e t h) t h

  final_keeps :
      (k : Text) (ins : HostInstance) (t : List HostEvent)
      → Inv t
      → Inv (do_update_and_final w k ins t).1
  unfolding do_update_and_final
  final_keeps k ins t h =
      let t1 = (err_if_ctx_done_in_host_switch w t).1 in
      let h1 = ctx_done_keeps t h in
      let t2 = (err_if_ctx_done_in_host_switch w (updated_meta k true ∷ t1)).1 in
      let h2 = ctx_done_keeps (updated_meta k true ∷ t1) (step (updated_meta k true) t1 h1) in
      elim (Option-cases (err_if_ctx_done_in_host_switch w t).0) [
        | inr (why, e) ↦ subst Inv (ground (arith, e)) h1
        | inl e ↦ elim (Option-cases (ins.update_meta_info t1)) [
          | inr (why, q) ↦ subst Inv (ground (arith, e, q)) (step (updated_meta k false) t1 h1)
          | inl q ↦
              elim (Option-cases (err_if_ctx_done_in_host_switch w (updated_meta k true ∷ t1)).0) [
                | inr (why, d) ↦ subst Inv (ground (arith, e, q, d)) h2
                | inl d ↦ elim (Option-cases (ins.do_final t2)) [
                  | inr (why, f) ↦
                      subst Inv (ground (arith, e, q, d, f)) (step (finalized k false) t2 h2)
                  | inl f ↦ subst Inv (ground (arith, e, q, d, f)) (step (finalized k true) t2 h2)
                ]
              ]
        ]
      ]

  switch_keeps :
      (k : Text) (ins : HostInstance) (t : List HostEvent)
      → Inv t
      → Inv (do_switch_for_host_instance w k ins t).1
  unfolding do_switch_for_host_instance
  switch_keeps k ins t h =
      let t1 = (err_if_ctx_done_in_host_switch w t).1 in
      let h1 = ctx_done_keeps t h in
      elim (Option-cases (err_if_ctx_done_in_host_switch w t).0) [
        | inr (why, e) ↦ subst Inv (ground (arith, e)) h1
        | inl e ↦ elim (Option-cases (ins.do_switch t1)) [
          | inr (why, q) ↦ subst Inv (ground (arith, e, q)) (step (switched k false) t1 h1)
          | inl q ↦
              subst Inv (ground (arith, e, q))
                (final_keeps k ins (switched k true ∷ t1) (step (switched k true) t1 h1))
        ]
      ]

  switch_each_keeps :
      (insts : Instances) (t : List HostEvent) → Inv t → Inv (switch_each w insts t).1
  unfolding switch_each
  switch_each_keeps [] t h = h
  switch_each_keeps ((k, ins) ∷ rest) t h = switch_each_keeps rest _ (switch_keeps k ins t h)

  group_keeps :
      (key : Text) (group : Instances) (t : List HostEvent)
      → Inv t
      → Inv (process_on_same_host_group w key group t).1
  unfolding process_on_same_host_group
  group_keeps key [] t h = h
  group_keeps key (kv ∷ group) t h =
      let h1 = lock_keeps w Inv (λ e t quiet h. step e t h) key t h in
      elim (Option-cases (lock_cluster w key t).0) [
        | inr (why, e) ↦ rw e h1
        | inl e ↦ rw e (step (unlocked key) _ (switch_each_keeps (kv ∷ group) _ h1))
      ]

  groups_keep :
      (clusters : Map Text Text) (groups : List (Text × Instances)) (t : List HostEvent)
      → Inv t
      → Inv (process_groups w clusters groups t).1
  unfolding process_groups
  groups_keep clusters [] t h = h
  groups_keep clusters ((key, group) ∷ rest) t h =
      groups_keep clusters rest _ (group_keeps _ group t h)

  ctx_errors_keeps : (insts : Instances) (t : List HostEvent) → Inv t → Inv (ctx_errors w insts t).1
  unfolding ctx_errors
  ctx_errors_keeps [] t h = h
  ctx_errors_keeps (kv ∷ rest) t h = ctx_errors_keeps rest _ (ctx_done_keeps t h)

  pub process_keeps :
      (insts : Instances) (t : List HostEvent) → Inv t → Inv (process_on_same_host w insts t).1
  unfolding process_on_same_host
  process_keeps insts t h = elim (Bool-cases (is_empty (ctx_errors w insts t).0)) [
    | inl e ↦ rw e (groups_keep _ _ _ (ctx_errors_keeps insts t h))
    | inr e ↦ rw e (ctx_errors_keeps insts t h)
  ]
