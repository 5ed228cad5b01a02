-- ===== src/Sharding/Tests.antt =====
-- Two analysis instances, of which the first leaves.
use dbha.Prelude.{
  ℕ, zero, suc, ◌≡◌, ◌≢◌, ◌↔◌, List, [], ◌∷◌, Memᴰ, Text, codes, decimal, none, some, true, refl,
  sym, ap, ◌∙◌, arith, insert, lookup, nat_beq, nat_beq_iff, false, sort_by, digits_onto,
}
use dbha.Sharding.{
  ConsistentHash, hash_key, virtual_node, add_loop, add, add_all, rebuild, get, position, search,
  search_loop, InstanceDiscovery, assigned_biz_ids, refresh_list,
}
use dbha.Sharding.Ring.{IsNode}
use dbha.Sharding.Owner.{Owns, CollisionFree, get-Owns, get-rebuild_same}
use dbha.Sharding.Assignment.{with_ring, assigned_biz_ids-owner, refresh_list-all}

-- The check value of CRC-32.
check_value : hash_key (codes "123456789") ≡ 0xcbf4_3926
unfolding hash_key
check_value = refl

abbrev one : ConsistentHash
one = record { replicas = 1; ring = []; nodes = [] }

abbrev first : Text
first = codes "analysis-1"

abbrev second : Text
second = codes "analysis-2"

abbrev both : List Text
both = first ∷ second ∷ []

abbrev key : Text
key = codes "100"

owner_of_key : get (rebuild both one) key ≡ second
unfolding get rebuild sort_by add_all add add_loop hash_key decimal lookup insert position search
    search_loop
owner_of_key = refl

get-Owns_example : Owns 1 both (rebuild both one) key (get (rebuild both one) key)
get-Owns_example = get-Owns one both key first (omega arith) (Memᴰ.head refl)

apart : nat_beq (hash_key (virtual_node first 0)) (hash_key (virtual_node second 0)) ≡ false
unfolding hash_key decimal digits_onto
apart = refl

differ : hash_key (virtual_node first 0) ≢ hash_key (virtual_node second 0)
differ e = let same = (nat_beq_iff _ _).1 e in cc (sym apart ∙ same)

only_zero : (id : Text) (hash : ℕ) → IsNode 1 id hash → hash ≡ hash_key (virtual_node id 0)
only_zero id hash (zero, h, e) = e
only_zero id hash (suc i, h, e) = absurd (omega arith)

no_collision : CollisionFree 1 both
no_collision id id' hash (Memᴰ.head e) (Memᴰ.head e') n n' = e ∙ sym e'
no_collision id id' hash (Memᴰ.tail (Memᴰ.head e)) (Memᴰ.tail (Memᴰ.head e')) n n' = e ∙ sym e'
no_collision id id' hash (Memᴰ.head e) (Memᴰ.tail (Memᴰ.head e')) n n' = absurd (
    differ (
      ap (λ o. hash_key (virtual_node o 0)) (sym e)
      ∙ sym (only_zero id hash n)
      ∙ only_zero id' hash n'
      ∙ ap (λ o. hash_key (virtual_node o 0)) e'))
no_collision id id' hash (Memᴰ.tail (Memᴰ.head e)) (Memᴰ.head e') n n' = absurd (
    differ (
      ap (λ o. hash_key (virtual_node o 0)) (sym e')
      ∙ sym (only_zero id' hash n')
      ∙ only_zero id hash n
      ∙ ap (λ o. hash_key (virtual_node o 0)) e))
no_collision id id' hash (Memᴰ.tail (Memᴰ.tail m)) m' n n' = elim m [ ]
no_collision id id' hash m (Memᴰ.tail (Memᴰ.tail m')) n n' = elim m' [ ]

get-rebuild_same_example : get (rebuild (second ∷ []) one) key ≡ get (rebuild both one) key
get-rebuild_same_example =
    get-rebuild_same one both (second ∷ []) key (omega arith) no_collision (λ id m. Memᴰ.tail m)
      (Memᴰ.head owner_of_key)

assigned_biz_ids-owner_example :
    (owner : Text) × Memᴰ owner both
    × ((me : Text)
        → Memᴰ 100 (assigned_biz_ids (with_ring me (rebuild both one)) (100 ∷ 200 ∷ []))
          ↔ (me ≡ owner))
assigned_biz_ids-owner_example =
    assigned_biz_ids-owner one both first (100 ∷ 200 ∷ []) 100 (omega arith) (Memᴰ.head refl)
      (Memᴰ.head refl)

abbrev started : InstanceDiscovery
started = record { discovery = true; my_service_id = first; hash_ring = one }

refresh_list-all_example :
    assigned_biz_ids (refresh_list (λ value. some value) none started) (100 ∷ 200 ∷ [])
    ≡ 100 ∷ 200 ∷ []
refresh_list-all_example =
    refresh_list-all (λ value. some value) none started (100 ∷ 200 ∷ []) refl (omega arith) tt
