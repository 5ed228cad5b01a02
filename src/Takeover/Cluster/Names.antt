-- ===== src/Takeover/Cluster/Names.antt =====
-- What the deletion of names in a cluster's switch keeps.
use dbha.Prelude.{
  ℕ, List, [], ◌∷◌, Option, none, some, Bool, true, false, Text, sym, subst, if◌then◌else◌,
  is_empty, lookup, text_eq, Result, ok, fail, Bool-cases, inl, inr,
}
use dbha.Takeover.{
  Servers, Fault, World, Call, pure, throw, some_failed, effect, not_found, name_service_failed,
  deleted_name_service,
}
use dbha.Takeover.Effects.{Ends, Runs, runs_bind, runs_effect, happened}
use dbha.Takeover.Cluster.{
  Member, MySqlSwitchCluster, delete_one_instance_name_service, failed_keys, none_failed,
  delete_one_backend,
}

-- What holds after a call in either case.
Ends-same :
    {A : Type 0} (held : World → Type 0) (r : Result Fault A × World)
    → Ends (λ _. held) held r
    → held r.1
Ends-same held (fail why, w) h = h
Ends-same held (ok a, w) h = h

-- A loop that goes on after errors keeps what each of its calls keeps.
failed_keys-runs :
    (call : Text → Call (Unit {0})) (held : World → Type 0) (keys : List Text)
    → ((key : Text) → Runs held (call key) (λ _. held) held)
    → Runs held (failed_keys call keys) (λ _. held) held
unfolding failed_keys
failed_keys-runs call held [] f = record { ends = λ w h. h }
failed_keys-runs call held (key ∷ rest) f = record {
  ends = λ w h. noted (call key w).0 (failed_keys call rest (call key w).1) (
      (failed_keys-runs call held rest f).ends (call key w).1
        (Ends-same held (call key w) ((f key).ends w h)));
}
  where
    noted :
        (r : Result Fault (Unit {0})) (more : Result Fault (List Text) × World)
        → Ends (λ _. held) held more
        → Ends {A = List Text}
            (λ _. held)
            held
            (elim more.0 [
              | fail why ↦ (fail why, more.1)
              | ok keys ↦ elim r [ fail why ↦ (ok (key ∷ keys), more.1) | ok _ ↦ (ok keys, more.1) ]
            ])
    noted r (fail why, w) h = h
    noted (fail why) (ok keys, w) h = h
    noted (ok x) (ok keys, w) h = h

pub none_failed-runs :
    (call : Text → Call (Unit {0})) (held : World → Type 0) (keys : List Text)
    → ((key : Text) → Runs held (call key) (λ _. held) held)
    → Runs held (none_failed call keys) (λ _. held) held
unfolding none_failed
none_failed-runs call held keys f =
    runs_bind (failed_keys-runs call held keys f) λ failed. split failed
  where
    split :
        (failed : List Text)
        → Runs held
            (if is_empty failed then pure tt else throw (some_failed failed))
            (λ _. held)
            held
    split [] = record { ends = λ w h. h }
    split (key ∷ rest) = record { ends = λ w h. h }

module _ (s : Servers) (cluster : MySqlSwitchCluster) (held : World → Type 0)
    (kept : (w : World) (ip : Text) (port : ℕ) (done : Bool)
      → held w
      → held (happened (deleted_name_service ip port done) w)) where
  pub delete_one-runs :
      (key : Text) → Runs held (delete_one_instance_name_service s cluster key) (λ _. held) held
  unfolding delete_one_instance_name_service
  delete_one-runs key = split (lookup key cluster.switch_instances)
    where
      split :
          (o : Option Member)
          → Runs {A = Unit {0}} held
              (elim o [
                | none ↦ throw (not_found key)
                | some m ↦
                    effect
                      (s.delete_name_service m.ip m.port)
                      (deleted_name_service m.ip m.port)
                      name_service_failed
              ])
              (λ _. held)
              held
      split none = record { ends = λ w h. h }
      split (some m) =
          runs_effect (s.delete_name_service m.ip m.port) (deleted_name_service m.ip m.port) _
            (λ w h. kept w m.ip m.port false h) (λ w h. kept w m.ip m.port true h)

  pub delete_one_backend-runs :
      (key : Text) → Runs held (delete_one_backend s cluster key) (λ _. held) held
  unfolding delete_one_backend
  delete_one_backend-runs key = split (lookup key cluster.switch_instances)
    where
      split :
          (o : Option Member)
          → Runs {A = Unit {0}} held
              (elim o [
                | none ↦ pure tt
                | some m ↦
                    if m.is_stand_by
                    then pure tt
                    else delete_one_instance_name_service s cluster key
              ])
              (λ _. held)
              held
      split none = record { ends = λ w h. h }
      split (some m) = elim (Bool-cases m.is_stand_by) [
        | inl e ↦
            subst
              (λ b.
                Runs held (if b then pure tt else delete_one_instance_name_service s cluster key)
                  (λ _. held) held)
              (sym e) (record { ends = λ w h. h })
        | inr e ↦
            subst
              (λ b.
                Runs held (if b then pure tt else delete_one_instance_name_service s cluster key)
                  (λ _. held) held)
              (sym e) (delete_one-runs key)
      ]
