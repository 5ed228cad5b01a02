-- ===== src/Takeover/Cluster/Serving.antt =====
-- The order in which the master of a cluster is replaced, and who serves at the end.
use dbha.Prelude.{
  List, [], ◌∷◌, none, some, true, Text, ◌≡◌, refl, sym, subst, Memᴰ, lookup, text_eq, Result, ok,
  fail,
}
use dbha.Takeover.{
  ProxyInstance, SlaveInfo, stopped_slave, Servers, Fault, World, pure, throw, ◌>>=◌, ◌>>◌, address,
  do_reset_slave_with_binlog_pos, refresh_each, fence_ip, fence_port, set_position, nil_standby,
}
use dbha.Takeover.Effects.{Ends, Runs, runs_bind, runs_mono}
use dbha.Takeover.Fencing.{Serve, refresh_each-runs, IsReset, do_reset_slave_with_binlog_pos-runs}
use dbha.Takeover.Serving.{
  fence, IsOrderly, Orderly, fence-IsKept, Promoted, Promoted-IsKept, mem-middle,
}
use dbha.Takeover.Cluster.{
  MySqlSwitchCluster, delete_proxy_name_service, delete_backend_name_service, get_available_proxies,
  refresh_to_standby, refresh_proxies_backends, do_switch, lift,
}
use dbha.Takeover.Cluster.Names.{none_failed-runs, delete_one-runs, delete_one_backend-runs}

module _ (s : Servers) (cluster : MySqlSwitchCluster) (key : Text) (more : List Text)
    (standby : SlaveInfo) (proxies : List ProxyInstance) where
  -- The new master is in its place: every available proxy serves it, and the position is what it
  -- showed between its stop and its reset.
  abbrev pub IsServed : World → Type 0
  IsServed w =
      Serve proxies (address standby.ip standby.port) w.effects
      × IsReset s standby.ip standby.port (w.new_master_binlog_file, w.new_master_binlog_pos) w

  Ordered : World → Type 0
  Ordered = Orderly proxies standby.ip standby.port

  take_over-runs :
      Runs
        (λ w. Ordered w × Serve proxies fence w.effects)
        (do
          position ← do_reset_slave_with_binlog_pos s standby.ip standby.port
          set_position position
          refresh_each s proxies standby.ip standby.port)
        (λ _ w. Ordered w × IsServed w)
        Ordered
  unfolding Ordered Orderly Promoted
  take_over-runs =
      runs_bind
        (do_reset_slave_with_binlog_pos-runs s standby.ip standby.port _ Ordered (λ w h. h.0)
          (λ w done h. (((refl, refl, h.1), h.0), h.1))
          (λ w done h. (((refl, refl, h.1), h.0), h.1)))
        λ position.
          runs_bind {mid = λ _. Promoted proxies standby.ip standby.port s}
            (record {
              ends = λ w (h, (later, before, e, shown)). (
                h.0,
                subst (Memᴰ _) (sym e)
                    (mem-middle later (stopped_slave standby.ip standby.port true ∷ before)),
                (later, before, e, shown),
              );
            })
            λ _.
              runs_mono
                (refresh_each-runs s proxies standby.ip standby.port _
                  (Promoted-IsKept proxies standby.ip standby.port s))
                (λ w h. h) (λ _ w (h, serve). (h.0, (serve, h.2))) (λ w h. h.0)

  refresh_to_standby-runs :
      lookup key cluster.standby_slave_map ≡ some standby
      → Runs Ordered
          (refresh_to_standby s cluster key proxies)
          (λ _ w. Ordered w × IsServed w)
          Ordered
  unfolding refresh_to_standby Ordered Orderly
  refresh_to_standby-runs e =
      runs_bind
        (refresh_each-runs s proxies fence_ip fence_port _
          (fence-IsKept proxies standby.ip standby.port))
        λ _.
          subst
            (λ o.
              Runs {A = Unit {0}} (λ w. Ordered w × Serve proxies fence w.effects)
                (elim o [
                  | none ↦ throw nil_standby
                  | some standby ↦ (do
                    position ← do_reset_slave_with_binlog_pos s standby.ip standby.port
                    set_position position
                    refresh_each s proxies standby.ip standby.port)
                ])
                (λ _ w. Ordered w × IsServed w) Ordered)
            (sym e) take_over-runs

  refresh_proxies_backends-runs :
      cluster.backend_master_key_list ≡ key ∷ more
      → get_available_proxies cluster key ≡ ok proxies
      → lookup key cluster.standby_slave_map ≡ some standby
      → Runs Ordered (refresh_proxies_backends s cluster) (λ _ w. Ordered w × IsServed w) Ordered
  unfolding refresh_proxies_backends
  refresh_proxies_backends-runs first found e =
      subst
        (λ keys.
          Runs {A = Unit {0}} Ordered
            (elim keys [
              | [] ↦ pure tt
              | key ∷ more ↦ (do
                proxies ← lift (get_available_proxies cluster key)
                refresh_to_standby s cluster key proxies)
            ])
            (λ _ w. Ordered w × IsServed w) Ordered)
        (sym first)
        (runs_bind {mid = λ found w. (found ≡ proxies) × Ordered w} lifted λ found. (record {
          ends = λ w (same, h).
              subst
                (λ ps.
                  Ends (λ _ w. Ordered w × IsServed w) Ordered
                    (refresh_to_standby s cluster key ps w))
                (sym same) ((refresh_to_standby-runs e).ends w h);
        }))
    where
      lifted :
          Runs Ordered
            (lift (get_available_proxies cluster key))
            (λ found w. (found ≡ proxies) × Ordered w)
            Ordered
      lifted =
          subst (λ r. Runs Ordered (lift r) (λ found w. (found ≡ proxies) × Ordered w) Ordered)
            (sym found) (record { ends = λ w h. (refl, h) })

  -- Where a cluster has a first master to switch, with available proxies and a standby slave: from
  -- effects in order, `DoSwitch` leaves effects in order whether it succeeds or fails anywhere, and if
  -- it succeeds the new master is in its place.
  pub do_switch_lem :
      cluster.backend_master_key_list ≡ key ∷ more
      → get_available_proxies cluster key ≡ ok proxies
      → lookup key cluster.standby_slave_map ≡ some standby
      → (w : World) → IsOrderly proxies standby.ip standby.port w.effects
      → let (r, w') = do_switch s cluster w in
        IsOrderly proxies standby.ip standby.port w'.effects × (r ≡ ok tt → IsServed w')
  unfolding do_switch delete_proxy_name_service delete_backend_name_service Ordered Orderly
  do_switch_lem first found e w h = both (do_switch s cluster w) (run.ends w h)
    where
      run : Runs Ordered (do_switch s cluster) (λ _ w. Ordered w × IsServed w) Ordered
      run =
          runs_bind
            (none_failed-runs _ Ordered cluster.proxy_key_list
              (delete_one-runs s cluster Ordered (λ w ip port done h. (tt, h))))
            λ _.
              runs_bind
                (none_failed-runs _ Ordered cluster.backend_slave_key_list
                  (delete_one_backend-runs s cluster Ordered (λ w ip port done h. (tt, h))))
                λ _. refresh_proxies_backends-runs first found e

      both :
          (r : Result Fault (Unit {0}) × World)
          → Ends (λ _ w. Ordered w × IsServed w) Ordered r
          → IsOrderly proxies standby.ip standby.port r.1.effects × (r.0 ≡ ok tt → IsServed r.1)
      both (fail why, w') p = (p, λ q. cc)
      both (ok x, w') p = (p.0, λ q. p.1)
