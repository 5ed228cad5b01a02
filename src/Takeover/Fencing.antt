-- ===== src/Takeover/Fencing.antt =====
-- What the refreshes of the proxies' backends and the reset of a slave leave behind.
use dbha.Prelude.{
  ℕ, List, [], ◌∷◌, ◌++◌, Option, none, some, Bool, true, false, ◌&&◌, ◌==◌, nat_eq, text_eq, Text,
  ◌≡◌, refl, ap, subst, beq_refl, arith, if◌then◌else◌, All,
}
use dbha.Takeover.{
  ProxyInstance, Effect, refreshed_backends, stopped_slave, reset_slave, Servers, World, pure,
  throw, address, other_backend, proxy_refresh_backends, do_stop_slave, do_show_master_status,
  do_reset_slave, do_reset_slave_with_binlog_pos, refresh_each, wrong_backend,
}
use dbha.Takeover.Effects.{
  Runs, runs_bind, runs_mono, happened, runs_effect, runs_query, runs_require,
}

-- The backend that a proxy has last been refreshed to.
abbrev pub last_backend : Text → ℕ → List Effect → Option Text
last_backend ip admin_port [] = none
last_backend ip admin_port (refreshed_backends ip' admin_port' backend true ∷ before) =
    if ip' == ip && admin_port' == admin_port
    then some backend
    else last_backend ip admin_port before
last_backend ip admin_port (e ∷ before) = last_backend ip admin_port before

-- Every proxy of the list serves a backend.
abbrev pub Serve : List ProxyInstance → Text → List Effect → Type 0
Serve proxies backend l = All (λ p. last_backend p.ip p.admin_port l ≡ some backend) proxies

last_backend-refreshed :
    (ip : Text) (admin_port : ℕ) (backend : Text) (l : List Effect)
    → last_backend ip admin_port (refreshed_backends ip admin_port backend true ∷ l) ≡ some backend
last_backend-refreshed ip admin_port backend l = rw (beq_refl ip, beq_refl admin_port) refl

-- A refresh of any proxy to the backend keeps those that serve it.
last_backend-keeps :
    (ip ip' : Text) (admin_port admin_port' : ℕ) (backend : Text) (done : Bool) (l : List Effect)
    → last_backend ip admin_port l ≡ some backend
    → last_backend ip admin_port (refreshed_backends ip' admin_port' backend done ∷ l)
      ≡ some backend
last_backend-keeps ip ip' admin_port admin_port' backend true l h = ground arith
last_backend-keeps ip ip' admin_port admin_port' backend false l h = h

-- What every refresh to the backend keeps.
abbrev pub IsKept : Text → (World → Type 0) → Type 0
IsKept backend held =
    (w : World) (ip : Text) (admin_port : ℕ) (done : Bool)
    → held w
    → held (happened (refreshed_backends ip admin_port backend done) w)

proxy_refresh_backends-runs :
    (s : Servers) (ip : Text) (admin_port : ℕ) (backend_ip : Text) (backend_port : ℕ)
    (held : World → Type 0)
    → IsKept (address backend_ip backend_port) held
    → Runs held
        (proxy_refresh_backends s ip admin_port backend_ip backend_port)
        (λ _ w.
          held w × (last_backend ip admin_port w.effects ≡ some (address backend_ip backend_port)))
        held
unfolding proxy_refresh_backends
proxy_refresh_backends-runs s ip admin_port backend_ip backend_port held kept =
    let backend = address backend_ip backend_port in
    runs_bind (runs_require (s.proxy_connects ip admin_port) _ (λ w h. h)) λ _.
      runs_bind {mid = λ _. serves}
        (runs_effect (s.refresh ip admin_port backend) (refreshed_backends ip admin_port backend) _
          (λ w h. kept w ip admin_port false h)
          (λ w h.
            (kept w ip admin_port true h, last_backend-refreshed ip admin_port backend w.effects)))
        λ _.
          runs_bind (runs_query {before = serves} (s.backends ip admin_port) _ (λ w h. h.0))
            λ list. listed list (other_backend backend list)
  where
    serves : World → Type 0
    serves w =
        held w × (last_backend ip admin_port w.effects ≡ some (address backend_ip backend_port))

    listed :
        (list : List Text) (o : Option Text)
        → Runs
            (λ w. serves w × (s.backends ip admin_port w.effects ≡ some list))
            (elim o [ none ↦ pure tt | some found ↦ throw (wrong_backend found) ])
            (λ _. serves)
            held
    listed list none = record { ends = λ w h. h.0 }
    listed list (some found) = record { ends = λ w h. h.0.0 }

-- What a loop that refreshes proxies to a backend keeps, and that each serves the backend at its end.
pub refresh_each-runs :
    (s : Servers) (proxies : List ProxyInstance) (backend_ip : Text) (backend_port : ℕ)
    (held : World → Type 0)
    → IsKept (address backend_ip backend_port) held
    → Runs held
        (refresh_each s proxies backend_ip backend_port)
        (λ _ w. held w × Serve proxies (address backend_ip backend_port) w.effects)
        held
unfolding refresh_each
refresh_each-runs s [] backend_ip backend_port held kept = record { ends = λ w h. (h, tt) }
refresh_each-runs s (p ∷ rest) backend_ip backend_port held kept =
    runs_bind (proxy_refresh_backends-runs s p.ip p.admin_port backend_ip backend_port held kept)
      λ _.
        runs_mono
          (refresh_each-runs s rest backend_ip backend_port
            (λ w.
              held w
              × (last_backend p.ip p.admin_port w.effects ≡ some (address backend_ip backend_port)))
            (λ w ip port done h. (
              kept w ip port done h.0,
              last_backend-keeps p.ip ip p.admin_port port _ done w.effects h.1,
            )))
          (λ w h. h) (λ _ w h. (h.0.0, (h.0.1, h.1))) (λ w h. h.0)

-- A reset of a slave that succeeds: the slave was stopped, showed its position, and was reset, with
-- nothing in between; `later` has happened since.
abbrev pub IsReset : Servers → Text → ℕ → Text × ℕ → World → Type 0
IsReset s ip port position w =
    (later before : List Effect) × (w.effects
      ≡ later ++ (reset_slave ip port true ∷ stopped_slave ip port true ∷ before))
    × (s.master_status ip port (stopped_slave ip port true ∷ before) ≡ some position)

pub do_reset_slave_with_binlog_pos-runs :
    (s : Servers) (ip : Text) (port : ℕ) (held failed : World → Type 0)
    → ((w : World) → held w → failed w)
    → ((w : World) (done : Bool) → held w → held (happened (stopped_slave ip port done) w))
    → ((w : World) (done : Bool) → held w → held (happened (reset_slave ip port done) w))
    → Runs held
        (do_reset_slave_with_binlog_pos s ip port)
        (λ position w. held w × IsReset s ip port position w)
        failed
unfolding do_reset_slave_with_binlog_pos do_stop_slave do_show_master_status do_reset_slave
do_reset_slave_with_binlog_pos-runs s ip port held failed over on_stop on_reset =
    runs_bind (runs_require (s.slave_connects ip port) _ over) λ _.
      runs_bind {mid = λ _. stopped}
        (runs_effect (s.stop ip port) (stopped_slave ip port) _ (λ w h. over _ (on_stop w false h))
          (λ w h. (on_stop w true h, w.effects, refl)))
        λ _.
          runs_bind (runs_query {before = stopped} (s.master_status ip port) _ (λ w h. over w h.0))
            λ position.
              runs_bind {mid = λ _ w. held w × IsReset s ip port position w}
                (runs_effect (s.reset ip port) (reset_slave ip port) _
                  (λ w h. over _ (on_reset w false h.0.0))
                  (λ w ((h, before, e), shown). (
                    on_reset w true h,
                    (
                      [],
                      before,
                      ap (◌∷◌ (reset_slave ip port true)) e,
                      subst (λ l. s.master_status ip port l ≡ some position) e shown,
                    ),
                  )))
                λ _. record { ends = λ w h. h }
  where
    stopped : World → Type 0
    stopped w = held w × (before : List Effect) × (w.effects ≡ stopped_slave ip port true ∷ before)
