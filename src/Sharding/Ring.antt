-- ===== src/Sharding/Ring.antt =====
-- What stands on a ring that was rebuilt, and which position of a sorted ring `get` takes.
use dbha.Prelude.{
  ℕ, zero, suc, ◌+◌, ◌≤◌, ◌<◌, ◌≡◌, ◌⊎◌, ltb, arith, Bool-cases, inl, inr, List, [], ◌∷◌, ◌++◌,
  Memᴰ, refl, sym, ap, ◌∙◌, subst, some, lookup, insert, lookup-insert, nat_eq, nat_beq_iff,
  text_eq, Text, sort_by-IsSorted, IsSorted, mem-sort_by, mem_of_mem-sort_by, ◌==◌,
}
use dbha.Sharding.{ConsistentHash, hash_key, virtual_node, add_loop, add, add_all, rebuild}

-- The hash of a virtual node of an instance.
abbrev pub IsNode : ℕ → Text → ℕ → Type 0
IsNode replicas id hash = (i : ℕ) × (i < replicas) × (hash ≡ hash_key (virtual_node id i))

-- The hash of a virtual node of one of the instances.
abbrev pub IsNodeOf : ℕ → List Text → ℕ → Type 0
IsNodeOf replicas ids hash = (id : Text) × Memᴰ id ids × IsNode replicas id hash

mem-append : {a : ℕ} (xs ys : List ℕ) → Memᴰ a xs ⊎ Memᴰ a ys → Memᴰ a (xs ++ ys)
mem-append [] ys (inl m) = elim m [ ]
mem-append [] ys (inr m) = m
mem-append (x ∷ xs) ys (inl (Memᴰ.head e)) = Memᴰ.head e
mem-append (x ∷ xs) ys (inl (Memᴰ.tail m)) = Memᴰ.tail (mem-append xs ys (inl m))
mem-append (x ∷ xs) ys (inr m) = Memᴰ.tail (mem-append xs ys (inr m))

mem_of_mem-append : {a : ℕ} (xs ys : List ℕ) → Memᴰ a (xs ++ ys) → Memᴰ a xs ⊎ Memᴰ a ys
mem_of_mem-append [] ys m = inr m
mem_of_mem-append (x ∷ xs) ys (Memᴰ.head e) = inl (Memᴰ.head e)
mem_of_mem-append (x ∷ xs) ys (Memᴰ.tail m) = elim (mem_of_mem-append xs ys m) [
  | inl n ↦ inl (Memᴰ.tail n)
  | inr n ↦ inr n
]

-- A state of the construction: its hashes are those of virtual nodes that `ok` admits, and each
-- has an instance that it is a node of.
pub record Built (admits : Text → ℕ → Type 0) (c : ConsistentHash) : Type 0 where
  pub owned : (hash : ℕ) → Memᴰ hash c.ring → (id : Text) × (lookup hash c.nodes ≡ some id)
  pub owner : (hash : ℕ) (id : Text) → lookup hash c.nodes ≡ some id → admits id hash

module _ (admits : Text → ℕ → Type 0) where
  add_one-Built :
      (c : ConsistentHash) (id : Text) (hash : ℕ)
      → admits id hash
      → Built admits c
      → Built admits (record c { ring = c.ring ++ hash ∷ []; nodes = insert hash id c.nodes })
  add_one-Built c id hash h b = record {
    owned = λ y m. elim (Bool-cases (hash == y)) [
      | inl e ↦ (id, ground (arith, lookup-insert hash y id c.nodes))
      | inr e ↦ elim (mem_of_mem-append c.ring (hash ∷ []) m) [
        | inl n ↦ let (o, q) = b.owned y n in (o, ground (arith, lookup-insert hash y id c.nodes))
        | inr (Memᴰ.head q) ↦ ground (arith, nat_beq_iff hash y)
        | inr (Memᴰ.tail n) ↦ elim n [ ]
      ]
    ];
    owner = λ y o q. elim (Bool-cases (hash == y)) [
      | inl e ↦
          let same : id ≡ o = ground (arith, lookup-insert hash y id c.nodes) in
          subst (λ o. admits o y) same (subst (admits id) (ground (arith, nat_beq_iff hash y)) h)
      | inr e ↦ b.owner y o (ground (arith, lookup-insert hash y id c.nodes))
    ];
  }

  add_loop-Built :
      (id : Text) (left i : ℕ) (c : ConsistentHash)
      → ((k : ℕ) → k < i + left → admits id (hash_key (virtual_node id k)))
      → Built admits c
      → Built admits (add_loop id left i c)
  unfolding add_loop
  add_loop-Built id zero i c h b = b
  add_loop-Built id (suc left) i c h b =
      add_loop-Built id left (suc i) _ (λ k p. h k (omega arith))
        (add_one-Built c id (hash_key (virtual_node id i)) (h i (omega arith)) b)

-- A loop adds the hashes of its virtual nodes, keeps the others, and leaves the replicas.
add_loop_lem :
    (id : Text) (left i : ℕ) (c : ConsistentHash)
    → let c' = add_loop id left i c in
      (c'.replicas ≡ c.replicas)
      × ((hash : ℕ) → Memᴰ hash c.ring → Memᴰ hash c'.ring)
      × ((k : ℕ) → i ≤ k → k < i + left → Memᴰ (hash_key (virtual_node id k)) c'.ring)
unfolding add_loop
add_loop_lem id zero i c = (refl, (λ hash m. m), λ k p q. absurd (omega arith))
add_loop_lem id (suc left) i c =
    let hash = hash_key (virtual_node id i) in
    let next =
      add_loop_lem id left (suc i)
        (record c { ring = c.ring ++ hash ∷ []; nodes = insert hash id c.nodes }) in
    (
      next.0,
      (λ y m. next.1 y (mem-append c.ring (hash ∷ []) (inl m))),
      λ k p q. elim (Bool-cases (ltb i k)) [
        | inl e ↦ next.2 k (ground arith) (omega arith)
        | inr e ↦
            let same : i ≡ k = ground arith in
            subst (λ k. Memᴰ (hash_key (virtual_node id k)) (add_loop id (suc left) i c).ring) same
              (next.1 hash (mem-append c.ring (hash ∷ []) (inr (Memᴰ.head refl))))
      ],
    )

add_all_lem :
    (admits : Text → ℕ → Type 0) (r : ℕ) (ids : List Text) (c : ConsistentHash)
    → c.replicas ≡ r
    → ((id : Text) → Memᴰ id ids → (k : ℕ) → k < r → admits id (hash_key (virtual_node id k)))
    → Built admits c
    → let c' = add_all ids c in
      Built admits c'
      × ((hash : ℕ) → Memᴰ hash c.ring → Memᴰ hash c'.ring)
      × ((hash : ℕ) → IsNodeOf r ids hash → Memᴰ hash c'.ring)
unfolding add_all add
add_all_lem admits r [] c e h b = (b, (λ hash m. m), λ hash (id, m, n). elim m [ ])
add_all_lem admits r (id ∷ ids) c e h b =
    let one = add_loop_lem id c.replicas 0 c in
    let next =
      add_all_lem admits r ids (add_loop id c.replicas 0 c) (one.0 ∙ e) (λ id m. h id (Memᴰ.tail m))
        (add_loop-Built admits id c.replicas 0 c (λ k p. h id (Memᴰ.head refl) k (omega (arith, e)))
          b) in
    (
      next.0,
      (λ hash m. next.1 hash (one.1 hash m)),
      λ hash (other, m, node). placed hash other m node next.1 next.2,
    )
  where
    placed :
        (hash : ℕ) (other : Text)
        → Memᴰ other (id ∷ ids)
        → IsNode r other hash
        → ((y : ℕ) → Memᴰ y (add_loop id c.replicas 0 c).ring → Memᴰ y (add_all (id ∷ ids) c).ring)
        → ((y : ℕ) → IsNodeOf r ids y → Memᴰ y (add_all (id ∷ ids) c).ring)
        → Memᴰ hash (add_all (id ∷ ids) c).ring
    placed hash other (Memᴰ.head q) (k, p, same) f g =
        subst (λ y. Memᴰ y (add_all (id ∷ ids) c).ring)
          (ap (λ o. hash_key (virtual_node o k)) (sym q) ∙ sym same)
          (f _ ((add_loop_lem id c.replicas 0 c).2 k (omega arith) (omega (arith, e))))
    placed hash other (Memᴰ.tail m) node f g = g hash (other, m, node)

-- The ring of some instances: it is sorted, holds the hashes of all their virtual nodes, and each
-- hash has an instance that it is a node of.
pub record IsRingOf (r : ℕ) (ids : List Text) (c : ConsistentHash) : Type 0 where
  pub sorted : IsSorted ltb c.ring
  pub complete : (hash : ℕ) → IsNodeOf r ids hash → Memᴰ hash c.ring
  pub owned : (hash : ℕ) → Memᴰ hash c.ring → (id : Text) × (lookup hash c.nodes ≡ some id)
  pub owner :
      (hash : ℕ) (id : Text) → lookup hash c.nodes ≡ some id → Memᴰ id ids × IsNode r id hash

pub rebuild-IsRingOf :
    (ids : List Text) (c : ConsistentHash) → IsRingOf c.replicas ids (rebuild ids c)
unfolding rebuild
rebuild-IsRingOf ids c =
    let cleared : ConsistentHash = record c { ring = []; nodes = [] } in
    let (b, kept, placed) =
      add_all_lem (λ id hash. Memᴰ id ids × IsNode c.replicas id hash) c.replicas ids cleared refl
        (λ id m k p. (m, (k, p, refl)))
        (record { owned = λ hash m. elim m [ ]; owner = λ hash id q. unfold lookup in cc }) in
    record {
      sorted =
          sort_by-IsSorted ltb (λ x y h. ground arith) (λ x y z h h'. ground arith)
            (add_all ids cleared).ring;
      complete = λ hash n. mem-sort_by ltb (add_all ids cleared).ring (placed hash n);
      owned = λ hash m. b.owned hash (mem_of_mem-sort_by ltb (add_all ids cleared).ring m);
      owner = b.owner;
    }
