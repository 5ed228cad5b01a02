-- ===== src/Takeover/Serving.antt =====
-- The order in which a master is replaced, and who serves at the end: `DoMasterSwitch`.
use dbha.Prelude.{
  ℕ, List, [], ◌∷◌, ◌++◌, none, some, true, false, Text, ◌≡◌, refl, ap, sym, subst, ◌⊎◌, inl, inr,
  if◌then◌else◌, Memᴰ, keep, is_empty, Result, ok, fail,
}
use dbha.Takeover.{
  ProxyInstance, SlaveInfo, Effect, refreshed_backends, stopped_slave, reset_slave, swapped_role,
  switched_dumpers, deleted_name_service, Servers, Fault, World, pure, throw, ◌>>=◌, ◌>>◌, address,
  do_reset_slave_with_binlog_pos, fence_ip, fence_port, set_position, nil_standby,
  no_available_proxy,
}
use dbha.Takeover.Effects.{Ends, Runs, runs_bind, runs_mono}
use dbha.Takeover.Fencing.{
  Serve, IsKept, refresh_each-runs, IsReset, do_reset_slave_with_binlog_pos-runs,
}
use dbha.Takeover.Instance.{
  StorageInstance, is_usable, batch_refresh_proxies_backends, do_master_switch,
}

abbrev pub fence : Text
fence = address fence_ip fence_port

module _ (proxies : List ProxyInstance) (ip : Text) (port : ℕ) where
  -- When a call is in order: the standby slave at `ip` and `port` is touched only while every proxy
  -- serves the fence, and a proxy is led to it only after its reset has succeeded. Names of failed
  -- instances may be deleted, and the metadata is not touched.
  abbrev pub IsInOrder : Effect → List Effect → Type 0
  IsInOrder (refreshed_backends proxy_ip admin_port backend done) before =
      (backend ≡ fence) ⊎ ((backend ≡ address ip port) × Memᴰ (reset_slave ip port true) before)
  IsInOrder (stopped_slave slave_ip slave_port done) before =
      (slave_ip ≡ ip) × (slave_port ≡ port) × Serve proxies fence before
  IsInOrder (reset_slave slave_ip slave_port done) before =
      (slave_ip ≡ ip) × (slave_port ≡ port) × Serve proxies fence before
  IsInOrder (swapped_role master_ip master_port slave_ip slave_port done) before = ⊥
  IsInOrder (switched_dumpers file pos dumpers done) before = ⊥
  IsInOrder (deleted_name_service failed_ip failed_port done) before = Unit

  abbrev pub IsOrderly : List Effect → Type 0
  IsOrderly [] = Unit
  IsOrderly (e ∷ before) = IsInOrder e before × IsOrderly before

  unfoldable pub Orderly : World → Type 0
  Orderly w = IsOrderly w.effects

  pub fence-IsKept : IsKept fence Orderly
  unfolding Orderly
  fence-IsKept w proxy_ip admin_port done h = (inl refl, h)

  -- What holds once the standby slave has been reset.
  unfoldable pub Promoted : Servers → World → Type 0
  Promoted s w =
      IsOrderly w.effects
      × Memᴰ (reset_slave ip port true) w.effects
      × IsReset s ip port (w.new_master_binlog_file, w.new_master_binlog_pos) w

  pub Promoted-IsKept : (s : Servers) → IsKept (address ip port) (Promoted s)
  unfolding Promoted
  Promoted-IsKept s w proxy_ip admin_port done (h, m, (later, before, e, shown)) = (
    (inr (refl, m), h),
    Memᴰ.tail m,
    (
      refreshed_backends proxy_ip admin_port (address ip port) done ∷ later,
      before,
      ap (◌∷◌ (refreshed_backends proxy_ip admin_port (address ip port) done)) e,
      shown,
    ),
  )

batch-runs :
    (s : Servers) (proxies : List ProxyInstance) (backend_ip : Text) (backend_port : ℕ)
    (held : World → Type 0)
    → IsKept (address backend_ip backend_port) held
    → Runs held
        (batch_refresh_proxies_backends s proxies backend_ip backend_port)
        (λ _ w.
          held w
          × Serve (keep is_usable proxies) (address backend_ip backend_port) w.effects
          × (is_empty (keep is_usable proxies) ≡ false))
        held
unfolding batch_refresh_proxies_backends
batch-runs s proxies backend_ip backend_port held kept =
    runs_bind (refresh_each-runs s (keep is_usable proxies) backend_ip backend_port held kept)
      λ _. split (keep is_usable proxies)
  where
    split :
        (usable : List ProxyInstance)
        → Runs
            (λ w. held w × Serve usable (address backend_ip backend_port) w.effects)
            (if is_empty usable then throw no_available_proxy else pure tt)
            (λ _ w.
              held w
              × Serve usable (address backend_ip backend_port) w.effects
              × (is_empty usable ≡ false))
            held
    split [] = record { ends = λ w h. h.0 }
    split (p ∷ rest) = record { ends = λ w h. (h.0, h.1, refl) }

pub mem-middle : {e : Effect} (later before : List Effect) → Memᴰ e (later ++ (e ∷ before))
mem-middle [] before = Memᴰ.head refl
mem-middle (e ∷ later) before = Memᴰ.tail (mem-middle later before)

module _ (s : Servers) (sw : StorageInstance) (standby : SlaveInfo) where
  abbrev usable : List ProxyInstance
  usable = keep is_usable sw.proxy_instance_set

  -- The new master is in its place: every usable proxy, of one at least, serves it, and the position
  -- is what it showed between its stop and its reset.
  abbrev pub IsInPlace : World → Type 0
  IsInPlace w =
      Serve usable (address standby.ip standby.port) w.effects
      × (is_empty usable ≡ false)
      × IsReset s standby.ip standby.port (w.new_master_binlog_file, w.new_master_binlog_pos) w

  Ordered : World → Type 0
  Ordered = Orderly usable standby.ip standby.port

  take_over-runs :
      Runs
        (λ w. Ordered w × Serve usable fence w.effects × (is_empty usable ≡ false))
        (do
          position ← do_reset_slave_with_binlog_pos s standby.ip standby.port
          set_position position
          batch_refresh_proxies_backends s sw.proxy_instance_set standby.ip standby.port)
        (λ _ w. Ordered w × IsInPlace w)
        Ordered
  unfolding Ordered Orderly Promoted
  take_over-runs =
      runs_bind
        (do_reset_slave_with_binlog_pos-runs s standby.ip standby.port _ Ordered (λ w h. h.0)
          (λ w done h. (((refl, refl, h.1), h.0), h.1, h.2))
          (λ w done h. (((refl, refl, h.1), h.0), h.1, h.2)))
        λ position.
          runs_bind {mid = λ _. Promoted usable standby.ip standby.port s}
            (record {
              ends = λ w (h, (later, before, e, shown)). (
                h.0,
                subst (Memᴰ _) (sym e)
                    (mem-middle later (stopped_slave standby.ip standby.port true ∷ before)),
                (later, before, e, shown),
              );
            })
            λ _.
              runs_mono
                (batch-runs s sw.proxy_instance_set standby.ip standby.port _
                  (Promoted-IsKept usable standby.ip standby.port s))
                (λ w h. h) (λ _ w (h, serve, some_usable). (h.0, (serve, some_usable, h.2)))
                (λ w h. h.0)

  master_switch-runs :
      sw.standby_slave ≡ some standby
      → Runs Ordered (do_master_switch s sw) (λ _ w. Ordered w × IsInPlace w) Ordered
  unfolding do_master_switch Ordered Orderly
  master_switch-runs e =
      runs_bind
        (batch-runs s sw.proxy_instance_set fence_ip fence_port _
          (fence-IsKept usable standby.ip standby.port))
        λ _.
          subst
            (λ o.
              Runs {A = Unit {0}}
                (λ w. Ordered w × Serve usable fence w.effects × (is_empty usable ≡ false))
                (elim o [
                  | none ↦ throw nil_standby
                  | some standby ↦ (do
                    position ← do_reset_slave_with_binlog_pos s standby.ip standby.port
                    set_position position
                    batch_refresh_proxies_backends s sw.proxy_instance_set standby.ip standby.port)
                ])
                (λ _ w. Ordered w × IsInPlace w) Ordered)
            (sym e) take_over-runs

  -- Where a master has a standby slave: from effects in order, `DoMasterSwitch` leaves effects in
  -- order whether it succeeds or fails anywhere, and if it succeeds the new master is in its place.
  pub do_master_switch_lem :
      sw.standby_slave ≡ some standby
      → (w : World) → IsOrderly usable standby.ip standby.port w.effects
      → let (r, w') = do_master_switch s sw w in
        IsOrderly usable standby.ip standby.port w'.effects × (r ≡ ok tt → IsInPlace w')
  unfolding Ordered Orderly
  do_master_switch_lem e w h = both (do_master_switch s sw w) ((master_switch-runs e).ends w h)
    where
      both :
          (r : Result Fault (Unit {0}) × World)
          → Ends (λ _ w. Ordered w × IsInPlace w) Ordered r
          → IsOrderly usable standby.ip standby.port r.1.effects × (r.0 ≡ ok tt → IsInPlace r.1)
      both (fail why, w') p = (p, λ q. cc)
      both (ok x, w') p = (p.0, λ q. p.1)
