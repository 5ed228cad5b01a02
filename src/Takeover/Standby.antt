-- ===== src/Takeover/Standby.antt =====
-- Which slave stands by for a master, and when the check lets it take over.
use dbha.Prelude.{
  ℕ, List, [], ◌∷◌, Option, none, some, Bool, true, false, ◌==◌, Text, ◌≡◌, ◌≢◌, ◌↔◌, refl, sym,
  subst, any_of_mem, arith, if◌then◌else◌, Memᴰ, any, is_empty, ok, fail, text_eq, text_beq_iff,
  Option-cases, Bool-cases, inl, inr, ◌∙◌,
}
use dbha.Switch.{switch_required, switch_not_needed, switch_check_unpass}
use dbha.Slave.{SlaveLimits, MySqlSlaveChecker, SlaveDb, Checked}
use dbha.Slave.Checks.{check}
use dbha.Slave.Passing.{MayTakeOver, check-ok_iff}
use dbha.Takeover.{SlaveInfo, unavailable, nil_standby, standby_unavailable, no_proxies, bad_role}
use dbha.Takeover.Instance.{
  StorageInstance, check_standby, CheckFault, slave_check, fault, find_standby, standby_of,
  check_mysql_storage_master, check_before_switch, backend_master, backend_slave, backend_repeater,
}

find_standby_lem :
    (slaves : List SlaveInfo) {slave : SlaveInfo}
    → find_standby slaves ≡ some slave
    → Memᴰ slave slaves × (slave.is_stand_by ≡ true)
unfolding find_standby
find_standby_lem [] h = cc
find_standby_lem (x ∷ rest) {slave} h = elim (Bool-cases x.is_stand_by) [
  | inl e ↦
      let found : x ≡ slave = ground arith in
      (Memᴰ.head (sym found), subst (λ y. y.is_stand_by ≡ true) found e)
  | inr e ↦ let (m, marked) = find_standby_lem rest (ground arith) in (Memᴰ.tail m, marked)
]

find_standby-none :
    (slaves : List SlaveInfo)
    → find_standby slaves ≡ none
    → any (λ slave. slave.is_stand_by) slaves ≡ false
unfolding find_standby
find_standby-none [] h = refl
find_standby-none (x ∷ rest) h = ground (arith, find_standby-none rest)

-- A master has no standby slave exactly if it has no slave; the one it has is one of its slaves, and
-- is marked as the standby if any of them is.
pub standby_of_lem :
    (slaves : List SlaveInfo)
    → ((standby_of slaves ≡ none) ↔ (slaves ≡ []))
      × ((slave : SlaveInfo)
          → standby_of slaves ≡ some slave
          → Memᴰ slave slaves × (slave.is_stand_by ≡ any (λ other. other.is_stand_by) slaves))
unfolding standby_of
standby_of_lem [] = ((λ h. refl, λ h. refl), λ slave h. cc)
standby_of_lem (first ∷ rest) = (
  elim (Option-cases (find_standby (first ∷ rest))) [
    | inl e ↦ (λ h. ground arith, λ h. cc)
    | inr (x, e) ↦ (λ h. ground arith, λ h. cc)
  ],
  λ slave h. elim (Option-cases (find_standby (first ∷ rest))) [
    | inl e ↦
        let found : first ≡ slave = ground arith in
        (
          Memᴰ.head (sym found),
          subst (λ y. y.is_stand_by ≡ any (λ other. other.is_stand_by) (first ∷ rest)) found
              (ground (arith, find_standby-none (first ∷ rest))),
        )
    | inr (x, e) ↦
        let found : find_standby (first ∷ rest) ≡ some slave = ground arith in
        let (m, marked) = find_standby_lem (first ∷ rest) found in
        (m, marked ∙ sym (any_of_mem (λ other. other.is_stand_by) (first ∷ rest) m marked))
  ],
)

-- What lets a standby slave take over: it is not unavailable, `Check` has nothing against it, and the
-- master has proxies.
abbrev pub Passes : SlaveLimits → (Text → ℕ → SlaveDb) → StorageInstance → SlaveInfo → Type 0
Passes cfg dbs sw standby =
    (standby.status ≢ unavailable)
    × MayTakeOver cfg (record { master_ip = sw.ip; master_port = sw.port })
        (dbs standby.ip standby.port)
    × (is_empty sw.proxy_instance_set ≡ false)

judged_iff :
    (gone : Bool) (r : Checked (Unit {0})) (alone : Bool)
    → ((if gone
          then (switch_check_unpass, some (fault standby_unavailable))
          else elim r as (λ _. ℕ × Option CheckFault) [
            | fail why ↦ (switch_check_unpass, some (slave_check why))
            | ok _ ↦
                if alone
                then (switch_check_unpass, some (fault no_proxies))
                else (switch_required, none)
          ]).0
        ≡ switch_required)
      ↔ (gone ≡ false) × (r ≡ ok tt) × (alone ≡ false)
judged_iff true r alone = ground arith
judged_iff false (fail why) alone = ground arith
judged_iff false (ok x) alone = ground arith

check_standby_iff :
    (cfg : SlaveLimits) (dbs : Text → ℕ → SlaveDb) (sw : StorageInstance) (standby : SlaveInfo)
    → ((check_standby cfg dbs sw standby).0 ≡ switch_required) ↔ Passes cfg dbs sw standby
unfolding check_standby
check_standby_iff cfg dbs sw standby =
    let checker : MySqlSlaveChecker = record { master_ip = sw.ip; master_port = sw.port } in
    let may = check-ok_iff cfg checker (dbs standby.ip standby.port) in
    let judged =
      judged_iff (standby.status == unavailable) (check cfg checker (dbs standby.ip standby.port))
        (is_empty sw.proxy_instance_set) in
    (
      λ h.
          let (here, passed, some_proxy) = judged.0 h in
          (ground (arith, text_beq_iff standby.status unavailable), may.0 passed, some_proxy),
      λ (here, passed, some_proxy).
          judged.1
            (ground (arith, text_beq_iff standby.status unavailable), may.1 passed, some_proxy),
    )

check_mysql_storage_master_iff :
    (cfg : SlaveLimits) (dbs : Text → ℕ → SlaveDb) (sw : StorageInstance)
    → ((check_mysql_storage_master cfg dbs sw).0 ≡ switch_required)
      ↔ (standby : SlaveInfo) × (sw.standby_slave ≡ some standby) × Passes cfg dbs sw standby
unfolding check_mysql_storage_master
check_mysql_storage_master_iff cfg dbs sw = split sw.standby_slave
  where
    split :
        (o : Option SlaveInfo)
        → ((elim o as (λ _. ℕ × Option CheckFault) [
          | none ↦ (switch_check_unpass, some (fault nil_standby))
          | some standby ↦ check_standby cfg dbs sw standby
        ]).0
            ≡ switch_required)
          ↔ (standby : SlaveInfo) × (o ≡ some standby) × Passes cfg dbs sw standby
    split none = (λ h. cc, λ h. cc)
    split (some standby) = (
      λ h. (standby, refl, (check_standby_iff cfg dbs sw standby).0 h),
      λ (other, e, p).
          (check_standby_iff cfg dbs sw standby).1
            (subst (Passes cfg dbs sw) {x = other} {y = standby} (ground arith) p),
    )

check_before_switch-master :
    (cfg : SlaveLimits) (dbs : Text → ℕ → SlaveDb) (sw : StorageInstance)
    → sw.instance_role ≡ backend_master
    → check_before_switch cfg dbs sw ≡ check_mysql_storage_master cfg dbs sw
unfolding check_before_switch
check_before_switch-master cfg dbs sw role =
    subst
      (λ role.
        (if role == backend_slave
          then (switch_required, none)
          else (if role == backend_repeater
              then (switch_not_needed, none)
              else (if role == backend_master
                  then check_mysql_storage_master cfg dbs sw
                  else (switch_check_unpass, some (fault (bad_role role))))))
        ≡ check_mysql_storage_master cfg dbs sw)
      (sym role) refl

-- A master is to be switched exactly if it has a standby slave that passes.
pub check_before_switch-master_iff :
    (cfg : SlaveLimits) (dbs : Text → ℕ → SlaveDb) (sw : StorageInstance)
    → sw.instance_role ≡ backend_master
    → ((check_before_switch cfg dbs sw).0 ≡ switch_required)
      ↔ (standby : SlaveInfo) × (sw.standby_slave ≡ some standby) × Passes cfg dbs sw standby
check_before_switch-master_iff cfg dbs sw role =
    subst
      (λ (checked : ℕ × Option CheckFault).
        (checked.0 ≡ switch_required)
        ↔ (standby : SlaveInfo) × (sw.standby_slave ≡ some standby) × Passes cfg dbs sw standby)
      (sym (check_before_switch-master cfg dbs sw role)) (check_mysql_storage_master_iff cfg dbs sw)
