-- ===== src/Sharding/Owner.antt =====
-- Who takes care of a business: one instance, and the same one while it stays registered.
use dbha.Prelude.{
  ℕ, ◌<◌, ◌≡◌, false, arith, List, [], ◌∷◌, Memᴰ, refl, sym, subst, some, lookup, nat_eq, text_eq,
  Text, is_empty,
}
use dbha.Sharding.{ConsistentHash, hash_key, virtual_node, rebuild, at, position, get}
use dbha.Sharding.Ring.{IsNode, IsRingOf, rebuild-IsRingOf}
use dbha.Sharding.Clockwise.{IsNext, IsNext-same, position-IsNext}

is_empty_of_mem : {A : Type 0} {a : A} (l : List A) → Memᴰ a l → is_empty l ≡ false
is_empty_of_mem [] m = elim m [ ]
is_empty_of_mem (x ∷ xs) m = refl

-- The instance of the hash that comes next to the key's.
abbrev pub Owns : ℕ → List Text → ConsistentHash → Text → Text → Type 0
Owns r ids c key id =
    (x : ℕ) × IsNext c.ring (hash_key key) x
    × (lookup x c.nodes ≡ some id)
    × Memᴰ id ids
    × IsNode r id x

ring_owner :
    (r : ℕ) (ids : List Text) (c : ConsistentHash) (key : Text)
    → IsRingOf r ids c
    → is_empty c.ring ≡ false
    → Owns r ids c key (get c key)
unfolding get
ring_owner r ids c key is some_hash =
    let x = at c.ring (position c.ring (hash_key key)) in
    let next = position-IsNext c.ring (hash_key key) is.sorted some_hash in
    let (id, found) = is.owned x next.0 in
    let same : id ≡ get c key = ground arith in
    let found' : lookup x c.nodes ≡ some (get c key) = ground arith in
    let (m, node) = is.owner x (get c key) found' in (x, next, found', m, node)

-- A ring with instances is not empty.
pub filled_ring :
    (r : ℕ) (ids : List Text) (c : ConsistentHash) (id : Text)
    → IsRingOf r ids c
    → 0 < r
    → Memᴰ id ids
    → is_empty c.ring ≡ false
filled_ring r ids c id is h m =
    is_empty_of_mem c.ring (is.complete (hash_key (virtual_node id 0)) (id, m, (0, h, refl)))

-- After a rebuild for some instances, `get` answers one of them: the one with the virtual node whose
-- hash comes next to the key's on the ring. The ring has to have a positive number of replicas.
pub get-Owns :
    (c : ConsistentHash) (ids : List Text) (key id : Text)
    → 0 < c.replicas
    → Memᴰ id ids
    → Owns c.replicas ids (rebuild ids c) key (get (rebuild ids c) key)
get-Owns c ids key id h m =
    let is = rebuild-IsRingOf ids c in
    ring_owner c.replicas ids (rebuild ids c) key is
      (filled_ring c.replicas ids (rebuild ids c) id is h m)

-- No two of the instances share the hash of a virtual node.
abbrev pub CollisionFree : ℕ → List Text → Type 0
CollisionFree r ids =
    (id id' : Text) (hash : ℕ)
    → Memᴰ id ids
    → Memᴰ id' ids
    → IsNode r id hash
    → IsNode r id' hash
    → id ≡ id'

-- Where no two instances share a hash and some of them, in any order, are left: a key whose instance
-- is left keeps it. The ring has to have a positive number of replicas.
pub get-rebuild_same :
    (c : ConsistentHash) (ids ids' : List Text) (key : Text)
    → 0 < c.replicas
    → CollisionFree c.replicas ids
    → ((id : Text) → Memᴰ id ids' → Memᴰ id ids)
    → Memᴰ (get (rebuild ids c) key) ids'
    → get (rebuild ids' c) key ≡ get (rebuild ids c) key
get-rebuild_same c ids ids' key h free sub left =
    let is = rebuild-IsRingOf ids c in
    let is' = rebuild-IsRingOf ids' c in
    let (x, next, found, m, node) = get-Owns c ids key _ h (sub _ left) in
    let (x', next', found', m', node') = get-Owns c ids' key _ h left in
    let same : x ≡ x' =
      IsNext-same (rebuild ids c).ring (rebuild ids' c).ring (hash_key key) x x'
        (λ y n.
          let (o, q) = is'.owned y n in
          let (mo, of_o) = is'.owner y o q in is.complete y (o, sub o mo, of_o))
        (is'.complete x (get (rebuild ids c) key, left, node)) next next' in
    free _ _ x (sub _ m') m (subst (IsNode c.replicas (get (rebuild ids' c) key)) (sym same) node')
      node
