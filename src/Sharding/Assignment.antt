-- ===== src/Sharding/Assignment.antt =====
-- `AssignedBizIDs` and `RefreshList`: every business has one instance that takes care of it.
use dbha.Prelude.{
  ℕ, ◌<◌, ◌≡◌, ◌↔◌, Bool, true, false, not, arith, if◌then◌else◌, length, List, [], ◌∷◌, Memᴰ, refl,
  sym, ap, ◌∙◌, Option, none, some, nat_beq, text_eq, text_beq_iff, Text, keep, mem-keep, decimal,
  ◌==◌,
}
use dbha.Sharding.{
  ConsistentHash, rebuild, get, InstanceDiscovery, service_ids, refreshed_ids, refresh_list,
  assigned_biz_ids,
}
use dbha.Sharding.Ring.{rebuild-IsRingOf}
use dbha.Sharding.Owner.{get-Owns, filled_ring}

mem_of_mem-keep :
    (p : ℕ → Bool) {a : ℕ} (xs : List ℕ) → Memᴰ a (keep p xs) → Memᴰ a xs × (p a ≡ true)
mem_of_mem-keep p [] m = elim m [ ]
mem_of_mem-keep p {a} (x ∷ xs) m = split (p x) refl (mem_of_mem-keep p xs) m
  where
    split :
        (b : Bool)
        → p x ≡ b
        → (Memᴰ a (keep p xs) → Memᴰ a xs × (p a ≡ true))
        → Memᴰ a (if b then x ∷ keep p xs else keep p xs)
        → Memᴰ a (x ∷ xs) × (p a ≡ true)
    split true e ih (Memᴰ.head q) = (Memᴰ.head q, ap p q ∙ e)
    split true e ih (Memᴰ.tail n) = let (n', t) = ih n in (Memᴰ.tail n', t)
    split false e ih n = let (n', t) = ih n in (Memᴰ.tail n', t)

-- An instance with the ring of some instances.
abbrev pub with_ring : Text → ConsistentHash → InstanceDiscovery
with_ring id c = record { discovery = true; my_service_id = id; hash_ring = c }

-- A business that is to be taken care of is assigned to one of the instances of the ring, and of
-- those that have this ring to no other. There have to be instances and replicas.
pub assigned_biz_ids-owner :
    (c : ConsistentHash) (ids : List Text) (id : Text) (all : List ℕ) (biz : ℕ)
    → 0 < c.replicas
    → Memᴰ id ids
    → Memᴰ biz all
    → (owner : Text) × Memᴰ owner ids
      × ((me : Text)
          → Memᴰ biz (assigned_biz_ids (with_ring me (rebuild ids c)) all) ↔ (me ≡ owner))
unfolding assigned_biz_ids
assigned_biz_ids-owner c ids id all biz h m here =
    let ring = rebuild ids c in
    let owner = get ring (decimal biz) in
    let (x, next, found, m', node) = get-Owns c ids (decimal biz) id h m in
    let some_hash = filled_ring c.replicas ids ring id (rebuild-IsRingOf ids c) h m in
    let filled : nat_beq (length ring.ring) 0 ≡ false = ground arith in
    (
      owner,
      m',
      λ me. rw filled (
        (λ n. sym (
            (text_beq_iff owner me).0
              (mem_of_mem-keep (λ biz. get ring (decimal biz) == me) all n).1)),
        λ e.
            mem-keep (λ biz. get ring (decimal biz) == me) all here
              ((text_beq_iff owner me).1 (sym e)),
      ),
    )

all_kept : (p : ℕ → Bool) (xs : List ℕ) → ((x : ℕ) → p x ≡ true) → keep p xs ≡ xs
all_kept p [] f = refl
all_kept p (x ∷ xs) f = rw (f x) (ap (◌∷◌ x) (all_kept p xs f))

-- The etcd answer names no instance: an error, or no value with an id.
abbrev pub NamesNobody : (Text → Option Text) → Option (List Text) → Type 0
NamesNobody service_id none = Unit
NamesNobody service_id (some values) = service_ids service_id values ≡ []

-- Where there is a discovery and a positive number of replicas: if etcd fails or names nobody, the
-- instance takes care of all businesses.
pub refresh_list-all :
    (service_id : Text → Option Text) (answer : Option (List Text)) (d : InstanceDiscovery)
    (all : List ℕ)
    → d.discovery ≡ true
    → 0 < d.hash_ring.replicas
    → NamesNobody service_id answer
    → assigned_biz_ids (refresh_list service_id answer d) all ≡ all
unfolding assigned_biz_ids refresh_list refreshed_ids
refresh_list-all service_id answer d all on h nobody =
    let me = d.my_service_id in
    let ring = rebuild (me ∷ []) d.hash_ring in
    let refreshed : refresh_list service_id answer d ≡ record d { hash_ring = ring } =
      ap
        (λ b.
          if not b
          then d
          else record d { hash_ring = rebuild (refreshed_ids service_id me answer) d.hash_ring })
        on
      ∙ ap (λ ids. record d { hash_ring = rebuild ids d.hash_ring }) (alone_of answer nobody) in
    let some_hash =
      filled_ring d.hash_ring.replicas (me ∷ []) ring me (rebuild-IsRingOf (me ∷ []) d.hash_ring) h
        (Memᴰ.head refl) in
    let filled : nat_beq (length ring.ring) 0 ≡ false = ground arith in
    ap (λ d. assigned_biz_ids d all) refreshed
    ∙ rw filled (
        all_kept (λ biz. get ring (decimal biz) == me) all
          (λ biz.
            let (x, next, found, m, node) =
              get-Owns d.hash_ring (me ∷ []) (decimal biz) me h (Memᴰ.head refl) in
            (text_beq_iff _ me).1 (alone m)))
  where
    alone : {o : Text} → Memᴰ o (d.my_service_id ∷ []) → o ≡ d.my_service_id
    alone (Memᴰ.head e) = e
    alone (Memᴰ.tail n) = elim n [ ]

    alone_of :
        (answer : Option (List Text))
        → NamesNobody service_id answer
        → refreshed_ids service_id d.my_service_id answer ≡ d.my_service_id ∷ []
    alone_of none n = refl
    alone_of (some values) n = ground (arith, n)
