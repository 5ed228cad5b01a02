-- ===== src/Switch/Host/Checking.antt =====
-- What the first half of the switch of a host has called where nothing in it fails.
use dbha.Prelude.{
  ℕ, List, [], ◌∷◌, ◌++◌, Option, none, some, Bool, true, Text, ◌≡◌, ◌∙◌, ◌||◌, ◌==◌, arith,
  nat_beq, text_eq, text_beq_iff, refl, ap, sym, subst, All, All-map, All-of_mem, All_mem, Memᴰ,
  mem_of_lookup, mem-keep, Option-cases, inl, inr, map, Map, lookup, lookup_nil, group_from,
  get_list, get_list-group_from, keep,
}
use dbha.Switch.{switch_required, switch_not_needed, running, available}
use dbha.Switch.Host.{
  HostEvent, set_unavailable, unlocked, checked, HostError, HostInstance, HostWorld, Instances,
  err_if_ctx_done_in_host_switch, lock_cluster, last_cloud, check_status_for_host_switch,
  set_status_in_batch, set_status_for_host_switch, check_each, check_on_same_host_same_cluster,
  check_groups, check_on_same_host, cluster_key_of,
}
use dbha.Switch.Host.Keeping.{check_each_keeps, check_groups_keeps}

-- A status that a switch may start from.
abbrev pub StatusOk : Text × HostInstance → Type 0
StatusOk (k, ins) = ((ins.status == running) || (ins.status == available)) ≡ true

pub check_status-StatusOk :
    (w : HostWorld) (insts : Instances) (t : List HostEvent)
    → (check_status_for_host_switch w insts t).0 ≡ []
    → All StatusOk insts
unfolding check_status_for_host_switch
check_status-StatusOk w [] t h = tt
check_status-StatusOk w ((k, ins) ∷ rest) t h =
    let t1 = (err_if_ctx_done_in_host_switch w t).1 in
    let q : ◌≡◌ {A = Bool} ((ins.status == running) || (ins.status == available)) true
        × ((check_status_for_host_switch w rest t1).0 ≡ []) =
      ground (arith, h) in
    (q.0, check_status-StatusOk w rest t1 q.1)

-- A batch call with the address of the instance has succeeded.
pub record IsUnavailable (t : List HostEvent) (kv : Text × HostInstance) : Type 0 where
  pub cloud : ℕ
  pub addresses : List (Text × ℕ)
  pub called : Memᴰ (set_unavailable cloud addresses true) t
  pub address : Memᴰ {A = Text × ℕ} (kv.1.ip, kv.1.port) addresses

abbrev address_of : Text × HostInstance → Text × ℕ
address_of (k, ins) = (ins.ip, ins.port)

abbrev addresses_of : Instances → List (Text × ℕ)
addresses_of insts = map address_of insts

pub IsUnavailable-cons :
    (e : HostEvent) (t : List HostEvent) (kv : Text × HostInstance)
    → IsUnavailable t kv
    → IsUnavailable (e ∷ t) kv
IsUnavailable-cons e t kv s = record {
  cloud = s.cloud;
  addresses = s.addresses;
  called = Memᴰ.tail s.called;
  address = s.address;
}

set_in_batch :
    (w : HostWorld) (insts : Instances) (t : List HostEvent)
    → (set_status_in_batch w insts t).0 ≡ none
    → Memᴰ
        (set_unavailable (last_cloud insts 0) (addresses_of insts) true)
        (set_status_in_batch w insts t).1
unfolding set_status_in_batch
set_in_batch w insts t h =
    elim (Option-cases
      (w.update_batch_instances_status (last_cloud insts 0) (addresses_of insts) t)) [
        | inl e ↦
            let event = set_unavailable (last_cloud insts 0) (addresses_of insts) true in
            subst (Memᴰ event) (ground (arith, e)) (Memᴰ.head {xs = t} refl)
        | inr (why, e) ↦ absurd (ground (arith, e, h))
      ]

mem_address :
    (insts : Instances) (kv : Text × HostInstance)
    → Memᴰ kv insts
    → Memᴰ (address_of kv) (addresses_of insts)
mem_address [] kv m = elim m [ ]
mem_address (x ∷ xs) kv (Memᴰ.head e) = Memᴰ.head (ap address_of e)
mem_address (x ∷ xs) kv (Memᴰ.tail m) = Memᴰ.tail (mem_address xs kv m)

pub set_status-IsUnavailable :
    (w : HostWorld) (insts : Instances) (t : List HostEvent)
    → (set_status_for_host_switch w insts t).0 ≡ none
    → All (IsUnavailable (set_status_for_host_switch w insts t).1) insts
unfolding set_status_for_host_switch
set_status-IsUnavailable w [] t h = tt
set_status-IsUnavailable w (x ∷ xs) t h =
    let t1 = (err_if_ctx_done_in_host_switch w t).1 in
    elim (Option-cases (err_if_ctx_done_in_host_switch w t).0) [
      | inl e ↦
          let same : set_status_in_batch w (x ∷ xs) t1 ≡ set_status_for_host_switch w (x ∷ xs) t =
            rw e refl in
          let set = set_in_batch w (x ∷ xs) t1 (ap (λ r. r.0) same ∙ h) in
          All-of_mem (IsUnavailable (set_status_for_host_switch w (x ∷ xs) t).1) (x ∷ xs) (λ kv m.
            record {
              cloud = last_cloud (x ∷ xs) 0;
              addresses = addresses_of (x ∷ xs);
              called =
                  subst
                    (λ (r : Option HostError × List HostEvent).
                      Memᴰ (set_unavailable (last_cloud (x ∷ xs) 0) (addresses_of (x ∷ xs)) true)
                        r.1)
                    same set;
              address = mem_address (x ∷ xs) kv m;
            })
      | inr (why, e) ↦ absurd (ground (arith, e, h))
    ]

-- The check of the instance has been called, and has not failed.
pub record IsChecked (t : List HostEvent) (kv : Text × HostInstance) : Type 0 where
  pub code : ℕ
  pub called : Memᴰ (checked kv.0 code) t
  pub passes : (nat_beq code switch_required || nat_beq code switch_not_needed) ≡ true

pub IsChecked-cons :
    (e : HostEvent) (t : List HostEvent) (kv : Text × HostInstance)
    → IsChecked t kv
    → IsChecked (e ∷ t) kv
IsChecked-cons e t kv c = record { code = c.code; called = Memᴰ.tail c.called; passes = c.passes }

AllChecked-cons :
    (insts : Instances) (e : HostEvent) (t : List HostEvent)
    → All (IsChecked t) insts
    → All (IsChecked (e ∷ t)) insts
AllChecked-cons insts e t h = All-map insts (IsChecked-cons e t) h

check_each-IsChecked :
    (w : HostWorld) (insts : Instances) (t : List HostEvent)
    → (check_each w insts t).0.1 ≡ []
    → All (IsChecked (check_each w insts t).1) insts
unfolding check_each
check_each-IsChecked w [] t h = tt
check_each-IsChecked w ((k, ins) ∷ rest) t h =
    let t1 = (err_if_ctx_done_in_host_switch w t).1 in
    let code = ins.check_before_switch t1 in
    let t2 = checked k code ∷ t1 in
    elim (Option-cases (err_if_ctx_done_in_host_switch w t).0) [
      | inl e ↦
          let same : (check_each w rest t2).1 ≡ (check_each w ((k, ins) ∷ rest) t).1 =
            ground (arith, e) in
          let q : ◌≡◌ {A = Bool} (nat_beq code switch_required || nat_beq code switch_not_needed)
                true
              × ((check_each w rest t2).0.1 ≡ []) =
            ground (arith, e, h) in
          let here : IsChecked t2 (k, ins) = record {
            code = code;
            called = Memᴰ.head refl;
            passes = q.0;
          } in
          subst (λ t. All (IsChecked t) ((k, ins) ∷ rest)) same
            (
              check_each_keeps w (λ t. IsChecked t (k, ins))
                  (λ e t quiet c. IsChecked-cons e t (k, ins) c) rest t2 here,
              check_each-IsChecked w rest t2 q.1,
            )
      | inr (why, e) ↦ absurd (ground (arith, e, h))
    ]

no_keys : (insts : Instances) → map (λ kv. kv.0) insts ≡ [] → insts ≡ []
no_keys [] h = refl
no_keys (kv ∷ insts) h = cc

check_cluster-IsChecked :
    (w : HostWorld) (key : Text) (group : Instances) (t : List HostEvent)
    → (check_on_same_host_same_cluster w key group t).0.1 ≡ []
    → All (IsChecked (check_on_same_host_same_cluster w key group t).1) group
unfolding check_on_same_host_same_cluster
check_cluster-IsChecked w key group t h =
    let t1 = (lock_cluster w key t).1 in
    elim (Option-cases (lock_cluster w key t).0) [
      | inl e ↦
          let same : unlocked key ∷ (check_each w group t1).1
              ≡ (check_on_same_host_same_cluster w key group t).1 =
            ground (arith, e) in
          subst (λ t. All (IsChecked t) group) same
            (AllChecked-cons group (unlocked key) (check_each w group t1).1
              (check_each-IsChecked w group t1 (ground (arith, e, h))))
      | inr (why, e) ↦
          let none_in : group ≡ [] = no_keys group (ground (arith, e, h)) in
          subst (All (IsChecked (check_on_same_host_same_cluster w key group t).1)) (sym none_in) tt
    ]

both_nil : {A : Type 0} (xs ys : List A) → xs ++ ys ≡ [] → (xs ≡ []) × (ys ≡ [])
both_nil [] ys h = (refl, h)
both_nil (x ∷ xs) ys h = cc

check_groups-IsChecked :
    (w : HostWorld) (groups : List (Text × Instances)) (t : List HostEvent)
    → (check_groups w groups t).0.1 ≡ []
    → All (λ (kg : Text × Instances). All (IsChecked (check_groups w groups t).1) kg.1) groups
unfolding check_groups
check_groups-IsChecked w [] t h = tt
check_groups-IsChecked w ((key, group) ∷ rest) t h =
    let r = check_on_same_host_same_cluster w key group t in
    let (here, there) = both_nil r.0.1 (check_groups w rest r.1).0.1 h in
    (
      check_groups_keeps w (λ t. All (IsChecked t) group)
          (λ e t quiet c. AllChecked-cons group e t c) rest r.1
          (check_cluster-IsChecked w key group t here),
      check_groups-IsChecked w rest r.1 there,
    )

-- Every element is in the group of its key.
grouped :
    {A : Type 0} (key : A → Text) (xs : List A) (a : A)
    → Memᴰ a xs
    → (group : List A) × Memᴰ (key a, group) (group_from key [] xs) × Memᴰ a group
grouped {A} key xs a m = found (lookup (key a) groups) refl listed
  where
    groups : Map Text (List A)
    groups = group_from key [] xs

    listed : Memᴰ a (get_list (key a) groups)
    listed =
        subst (Memᴰ a)
          (sym (
            get_list-group_from key [] xs (key a)
            ∙ ap
                (λ (o : Option (List A)).
                  (elim o as (λ _. List A) [ none ↦ [] | some l ↦ l ])
                  ++ keep (λ x. key x == key a) xs)
                (lookup_nil (key a))))
          (mem-keep (λ x. key x == key a) xs m ((text_beq_iff (key a) (key a)).1 refl))

    found :
        (o : Option (List A))
        → lookup (key a) groups ≡ o
        → Memᴰ a (elim o as (λ _. List A) [ none ↦ [] | some l ↦ l ])
        → (group : List A) × Memᴰ (key a, group) groups × Memᴰ a group
    found none e n = elim n [ ]
    found (some group) e n = (group, mem_of_lookup (key a) groups e, n)

pub check_on_same_host-IsChecked :
    (w : HostWorld) (insts : Instances) (t : List HostEvent)
    → (check_on_same_host w insts t).0.1 ≡ []
    → All (IsChecked (check_on_same_host w insts t).1) insts
unfolding check_on_same_host
check_on_same_host-IsChecked w insts t h =
    let groups = group_from (λ kv. cluster_key_of kv.1) [] insts in
    let all_checked = check_groups-IsChecked w groups t h in
    All-of_mem _ insts (λ kv m.
      let (group, in_groups, in_group) = grouped (λ kv. cluster_key_of kv.1) insts kv m in
      All_mem _ (All_mem _ all_checked in_groups) in_group)
