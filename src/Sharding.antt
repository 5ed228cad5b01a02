-- ===== src/Sharding.antt =====
-- internal/analysis/workflow/instance_discovery.go: which analysis instance takes care of which
-- business, by consistent hashing over the instances that are registered in etcd. What etcd answers
-- and how the JSON of a service is read are arguments; the hash is CRC-32 as in hash/crc32. Methods
-- run under the mutex of the ring.
pub mod Search
pub mod Ring
pub mod Clockwise
pub mod Owner
pub mod Assignment
mod Tests
use Prim.Native.Nat.{bit_xor}
use dbha.Prelude.{
  ℕ, zero, suc, ◌+◌, ◌*◌, ◌/◌, ◌%◌, ℤ, pos, negsuc, ltb, leb, List, [], ◌∷◌, ◌++◌, Option, none,
  some, Bool, true, false, not, ◌==◌, ◌||◌, Text, codes, decimal, text_eq, nat_eq, nat_beq,
  if◌then◌else◌, length, is_empty, keep, Map, lookup, insert, sort_by,
}

-- The table-free form of CRC-32 with the polynomial of IEEE, a bit and a byte at a time.
abbrev crc_bits : ℕ → ℕ → ℕ
crc_bits zero crc = crc
crc_bits (suc left) crc =
    crc_bits left (if nat_beq (crc % 2) 1 then bit_xor (crc / 2) 0xedb8_8320 else crc / 2)

abbrev crc_bytes : ℕ → Text → ℕ
crc_bytes crc [] = crc
crc_bytes crc (byte ∷ rest) = crc_bytes (crc_bits 8 (bit_xor crc byte)) rest

-- `hashKey`: crc32.ChecksumIEEE
unfoldable pub hash_key : Text → ℕ
unfolding crc_bytes crc_bits
hash_key key = bit_xor (crc_bytes 0xffff_ffff key) 0xffff_ffff

-- The loop of `sort.Search` between `i` and `j`; the fuel bounds its rounds.
unfoldable pub search_loop : (fuel : ℕ) → (ℕ → Bool) → ℕ → ℕ → ℕ
search_loop zero f i j = i
search_loop (suc fuel) f i j =
    let h = (i + j) / 2 in
    let right = search_loop fuel f (h + 1) j in
    let left = search_loop fuel f i h in if ltb i j then (if not (f h) then right else left) else i

-- `sort.Search`: every round but the last narrows the range.
unfoldable pub search : ℕ → (ℕ → Bool) → ℕ
search n f = search_loop n f 0 n

pub record ConsistentHash : Type 0 where
  pub replicas : ℕ
  pub ring : List ℕ
  pub nodes : Map ℕ Text

abbrev pub default_replicas : ℕ
default_replicas = 200

-- `newConsistentHash`
unfoldable pub new_consistent_hash : ℤ → ConsistentHash
new_consistent_hash (pos zero) = record { replicas = default_replicas; ring = []; nodes = [] }
new_consistent_hash (pos (suc n)) = record { replicas = suc n; ring = []; nodes = [] }
new_consistent_hash (negsuc n) = record { replicas = default_replicas; ring = []; nodes = [] }

-- fmt.Sprintf("%s#%d", instanceID, i)
abbrev pub virtual_node : Text → ℕ → Text
virtual_node id i = id ++ (b'#' ∷ decimal i)

-- The loop of `add`, from `i` on with `left` rounds to go.
unfoldable pub add_loop : Text → (left i : ℕ) → ConsistentHash → ConsistentHash
add_loop id zero i c = c
add_loop id (suc left) i c =
    let hash = hash_key (virtual_node id i) in
    add_loop id left (suc i)
      (record c { ring = c.ring ++ hash ∷ []; nodes = insert hash id c.nodes })

-- `add`
unfoldable pub add : Text → ConsistentHash → ConsistentHash
add id c = add_loop id c.replicas 0 c

unfoldable pub add_all : List Text → ConsistentHash → ConsistentHash
add_all [] c = c
add_all (id ∷ ids) c = add_all ids (add id c)

-- `rebuild`
unfoldable pub rebuild : List Text → ConsistentHash → ConsistentHash
rebuild ids c =
    let c' = add_all ids (record c { ring = []; nodes = [] }) in
    record c' { ring = sort_by ltb c'.ring }

-- The i-th hash of a ring; it is only asked for below the length.
abbrev pub at : List ℕ → ℕ → ℕ
at [] i = 0
at (x ∷ xs) zero = x
at (x ∷ xs) (suc i) = at xs i

-- The position in `get`, with the wrap to the first.
unfoldable pub position : List ℕ → ℕ → ℕ
position ring hash =
    let idx = search (length ring) (λ i. leb hash (at ring i)) in
    if leb (length ring) idx then 0 else idx

-- A Go map gives the empty string for a missing key.
abbrev pub node_at : Map ℕ Text → ℕ → Text
node_at nodes hash = elim (lookup hash nodes) [ none ↦ [] | some id ↦ id ]

-- `get`
unfoldable pub get : ConsistentHash → Text → Text
get c key =
    if is_empty c.ring then [] else node_at c.nodes (at c.ring (position c.ring (hash_key key)))

-- `InstanceDiscovery`; `discovery` says that there is one.
pub record InstanceDiscovery : Type 0 where
  pub discovery : Bool
  pub my_service_id : Text
  pub hash_ring : ConsistentHash

-- `NewInstanceDiscovery`
unfoldable pub new_instance_discovery : Bool → Text → InstanceDiscovery
new_instance_discovery discovery id = record {
  discovery = discovery;
  my_service_id = id;
  hash_ring = new_consistent_hash (pos default_replicas);
}

-- The loop of `RefreshList`: `service_id` is the ID that json.Unmarshal reads, none on an error.
unfoldable pub service_ids : (Text → Option Text) → List Text → List Text
service_ids service_id [] = []
service_ids service_id (value ∷ rest) = elim (service_id value) [
  | none ↦ service_ids service_id rest
  | some id ↦ if is_empty id then service_ids service_id rest else id ∷ service_ids service_id rest
]

-- The instances that `RefreshList` takes: itself alone if etcd answers with an error, which is none,
-- or with no value that has an ID.
unfoldable pub refreshed_ids : (Text → Option Text) → Text → Option (List Text) → List Text
refreshed_ids service_id me none = me ∷ []
refreshed_ids service_id me (some values) =
    let found = service_ids service_id values in if is_empty found then me ∷ [] else found

-- `RefreshList`, with etcd's values under the prefix.
unfoldable pub refresh_list :
    (Text → Option Text) → Option (List Text) → InstanceDiscovery → InstanceDiscovery
refresh_list service_id answer d =
    let ids = refreshed_ids service_id d.my_service_id answer in
    if not d.discovery then d else record d { hash_ring = rebuild ids d.hash_ring }

-- What `RunWatch` waits for: the end of the service, of its context or of the watch, or a change in
-- etcd, with etcd's answer to the refresh that follows.
pub data WatchEvent : Type 0 where
  stopped : WatchEvent
  changed : Option (List Text) → WatchEvent

-- The loop of `RunWatch` over the events of a run.
unfoldable pub watch_loop :
    (Text → Option Text) → List WatchEvent → InstanceDiscovery → InstanceDiscovery
watch_loop service_id [] d = d
watch_loop service_id (stopped ∷ events) d = d
watch_loop service_id (changed answer ∷ events) d =
    watch_loop service_id events (refresh_list service_id answer d)

-- `RunWatch`: whether etcd can be watched, the answer to the first refresh, and the events.
unfoldable pub run_watch :
    (Text → Option Text)
    → (watched : Bool) → Option (List Text)
    → List WatchEvent
    → InstanceDiscovery
    → InstanceDiscovery
run_watch service_id watched answer events d =
    if not d.discovery || not watched
    then d
    else watch_loop service_id events (refresh_list service_id answer d)

-- `AssignedBizIDs`
unfoldable pub assigned_biz_ids : InstanceDiscovery → List ℕ → List ℕ
assigned_biz_ids d all =
    if nat_beq (length d.hash_ring.ring) 0
    then all
    else keep (λ biz. get d.hash_ring (decimal biz) == d.my_service_id) all
