-- ===== src/Mysql/Failures.antt =====
-- What an instance-level switch reports as failed, and which hosts are complete.
use dbha.Prelude.{
  ℕ, List, [], ◌∷◌, Option, none, some, Bool, true, false, not, ◌&&◌, Text, ◌≡◌, ◌∙◌, refl, arith,
  ◌==◌, text_eq, if◌then◌else◌, is_empty, elem, lookup, insert, lookup-insert, lookup_nil,
  text_beq_iff, Bool-cases, inl, inr, all, map, ◌↔◌, subst, beq_refl, sym,
}
use dbha.Flow.{DbInstMetadata, Request}
use dbha.Mysql.{
  InstMetadataMap, Response, metadata_key_of, add_failure_inst, instance_loop,
  instance_level_switch, check_host_instance_completeness,
}
use dbha.Mysql.Groups.{first_by}

-- What the loop reports for a key: nothing new for a key that has been seen.
abbrev verdict :
    (DbInstMetadata → Bool) → Option DbInstMetadata → Option DbInstMetadata → Option DbInstMetadata
verdict switch before none = before
verdict switch before (some inst) = if switch inst then before else some inst

instance_loop_lem :
    (switch : DbInstMetadata → Bool) (seen : List Text) (rsp : Response)
    (insts : List DbInstMetadata) (k : Text)
    → lookup k (instance_loop switch seen rsp insts).mysql_failure_insts ≡ (
        if elem k seen
        then lookup k rsp.mysql_failure_insts
        else verdict switch
            (lookup k rsp.mysql_failure_insts)
            (first_by (λ inst. metadata_key_of inst == k) insts))
unfolding instance_loop add_failure_inst
instance_loop_lem switch seen rsp [] k = ground arith
instance_loop_lem switch seen rsp (inst ∷ rest) k =
    let key = metadata_key_of inst in
    let rsp' : Response =
      if elem key seen
      then rsp
      else (if switch inst
          then rsp
          else record rsp { mysql_failure_insts = insert key inst rsp.mysql_failure_insts }) in
    ground (
      arith,
      instance_loop_lem switch (if elem key seen then seen else key ∷ seen) rsp' rest k,
      lookup-insert key k inst rsp.mysql_failure_insts,
      text_beq_iff key k,
    )

partial-instance_loop :
    (switch : DbInstMetadata → Bool) (seen : List Text) (rsp : Response)
    (insts : List DbInstMetadata)
    → (instance_loop switch seen rsp insts).partial ≡ rsp.partial
unfolding instance_loop add_failure_inst
partial-instance_loop switch seen rsp [] = refl
partial-instance_loop switch seen rsp (inst ∷ rest) =
    let key = metadata_key_of inst in
    let rsp' : Response =
      if elem key seen
      then rsp
      else (if switch inst
          then rsp
          else record rsp { mysql_failure_insts = insert key inst rsp.mysql_failure_insts }) in
    ground
      (arith, partial-instance_loop switch (if elem key seen then seen else key ∷ seen) rsp' rest)

abbrev start : Response
start = record { mysql_failure_insts = []; partial = false }

-- `InstanceLevelSwitch` reports an instance as failed exactly if the first instance of the request
-- with its key is not switched; the error of partial success is set exactly if some have failed.
pub instance_level_switch_lem :
    (switch : DbInstMetadata → Bool) (req : Request) (k : Text)
    → let rsp = instance_level_switch switch req in
      (lookup k rsp.mysql_failure_insts
        ≡ elim (first_by (λ inst. metadata_key_of inst == k) req.mysql_inst_data) [
          | none ↦ none
          | some inst ↦ if switch inst then none else some inst
        ])
      × (rsp.partial ≡ not (is_empty rsp.mysql_failure_insts))
unfolding instance_level_switch
instance_level_switch_lem switch req k =
    let rsp = instance_loop switch [] start req.mysql_inst_data in
    (
      ground (
        arith,
        instance_loop_lem switch [] start req.mysql_inst_data k,
        lookup_nil {K = Text} {V = DbInstMetadata} k,
      ),
      ground (arith, partial-instance_loop switch [] start req.mysql_inst_data),
    )

elem_of_all :
    (xs ys : List Text) (k : Text)
    → all (λ x. elem x ys) xs ≡ true
    → elem k xs ≡ true
    → elem k ys ≡ true
elem_of_all [] ys k h m = cc
elem_of_all (x ∷ xs) ys k h m = elim (Bool-cases (x == k)) [
  | inl e ↦
      let same : x ≡ k = (text_beq_iff x k).0 e in
      subst (λ j. elem j ys ≡ true) same (ground (arith, h))
  | inr e ↦ elem_of_all xs ys k (ground (arith, h)) (ground (arith, m, e))
]

all_of_elem :
    (xs ys : List Text)
    → ((k : Text) → elem k xs ≡ true → elem k ys ≡ true)
    → all (λ x. elem x ys) xs ≡ true
all_of_elem [] ys f = refl
all_of_elem (x ∷ xs) ys f =
    let first : elem x ys ≡ true = f x (ground (arith, beq_refl x)) in
    let later = all_of_elem xs ys (λ k m. f k (ground (arith, m))) in ground (arith, first, later)

-- The keys of two lists are the same.
abbrev pub SameKeys : List Text → List Text → Type 0
SameKeys xs ys =
    ((k : Text) → elem k xs ≡ true → elem k ys ≡ true)
    × ((k : Text) → elem k ys ≡ true → elem k xs ≡ true)

-- Where DBM answers for a host, `checkHostInstanceCompleteness` lets it pass exactly if the
-- instances to switch are those that DBM knows on the host, by their keys: none is missing and
-- none is too many.
pub check_host_instance_completeness_lem :
    (query : ℕ → Text → Option (List DbInstMetadata)) (cloud : ℕ) (ip : Text)
    (insts : InstMetadataMap) (metas : List DbInstMetadata)
    → query cloud ip ≡ some metas
    → (check_host_instance_completeness query (cloud, ip) insts ≡ true)
      ↔ SameKeys (map (λ kv. kv.0) insts) (map metadata_key_of metas)
unfolding check_host_instance_completeness
check_host_instance_completeness_lem query cloud ip insts metas e =
    let actual : List Text = map (λ kv. kv.0) insts in
    let expected : List Text = map metadata_key_of metas in
    let made : check_host_instance_completeness query (cloud, ip) insts
        ≡ (all (λ k. elem k expected) actual && all (λ k. elem k actual) expected) =
      rw (e, check_host_instance_completeness) refl in
    (
      (λ h.
          let both : (all (λ k. elem k expected) actual ≡ true)
              × (all (λ k. elem k actual) expected ≡ true) =
            split (sym made ∙ h) in
          (
            (λ k m. elem_of_all actual expected k both.0 m),
            (λ k m. elem_of_all expected actual k both.1 m),
          )),
      (λ same.
          made ∙ join (all_of_elem actual expected same.0) (all_of_elem expected actual same.1)),
    )
  where
    split : {a b : Bool} → (a && b) ≡ true → (a ≡ true) × (b ≡ true)
    split {a} {b} h = ground (arith, h)

    join : {a b : Bool} → a ≡ true → b ≡ true → (a && b) ≡ true
    join {a} {b} h k = ground (arith, h, k)
