-- ===== src/Failure/Keys.antt =====
-- The keys of windows, instances and clusters do not collide.
use mathlib.Core.List.{append_assoc}
use dbha.Prelude.{
  ℕ, ◌≡◌, refl, sym, ◌∙◌, ◌++◌, ◌∷◌, Text, Lacks, decimal, decimal-injective, decimal-Lacks,
  cut_first, cut_last,
}
use dbha.Failure.{instance_window_key, instance_key, generate_metadata_key, generate_cluster_key}

regroup : (ip p t : Text) → ip ++ (b':' ∷ (p ++ (b':' ∷ t))) ≡ (ip ++ (b':' ∷ p)) ++ (b':' ∷ t)
regroup ip p t = sym (append_assoc ip (b':' ∷ p) (b':' ∷ t))

-- An address and a port with a colon between them, the address with colons of its own or not.
address_port_injective :
    (ip ip' : Text) (p p' : ℕ)
    → ip ++ (b':' ∷ decimal p) ≡ ip' ++ (b':' ∷ decimal p')
    → (ip ≡ ip') × (p ≡ p')
address_port_injective ip ip' p p' e =
    let (i, q) =
      cut_last b':' ip ip' (decimal p) (decimal p') (decimal-Lacks p) (decimal-Lacks p') e in
    (i, decimal-injective p p' q)

-- Two instances with the same merge key are the same instance (cloud, address, port, database type),
-- also for addresses with colons (IPv6), as long as the database types have no colon.
pub instance_window_key-injective :
    (c c' : ℕ) (ip ip' : Text) (p p' : ℕ) (t t' : Text)
    → Lacks b':' t
    → Lacks b':' t'
    → instance_window_key c ip p t ≡ instance_window_key c' ip' p' t'
    → (c ≡ c') × (ip ≡ ip') × (p ≡ p') × (t ≡ t')
unfolding instance_window_key
instance_window_key-injective c c' ip ip' p p' t t' l l' e =
    let (ec, rest) =
      cut_first b':' (decimal c) (decimal c') _ _ (decimal-Lacks c) (decimal-Lacks c') e in
    let (ea, et) =
      cut_last b':' (ip ++ (b':' ∷ decimal p)) (ip' ++ (b':' ∷ decimal p')) t t' l l'
        (sym (regroup ip (decimal p) t) ∙ rest ∙ regroup ip' (decimal p') t') in
    let (ei, ep) = address_port_injective ip ip' p p' ea in (decimal-injective c c' ec, ei, ep, et)

-- Two instances with the same metadata key have the same cloud, address and port.
pub generate_metadata_key-injective :
    (c c' : ℕ) (ip ip' : Text) (p p' : ℕ)
    → generate_metadata_key c ip p ≡ generate_metadata_key c' ip' p'
    → (c ≡ c') × (ip ≡ ip') × (p ≡ p')
unfolding generate_metadata_key
generate_metadata_key-injective c c' ip ip' p p' e =
    let (ec, rest) =
      cut_first b':' (decimal c) (decimal c') _ _ (decimal-Lacks c) (decimal-Lacks c') e in
    let (ei, ep) = address_port_injective ip ip' p p' rest in (decimal-injective c c' ec, ei, ep)

-- `instanceKey` at an int port and `GenerateMetadataKey` are one function.
pub instance_key-generate_metadata_key :
    (c : ℕ) (ip : Text) (p : ℕ) → instance_key c ip p ≡ generate_metadata_key c ip p
unfolding instance_key generate_metadata_key
instance_key-generate_metadata_key c ip p = refl

-- Two clusters with the same lock key are the same cluster.
pub generate_cluster_key-injective :
    (c c' k k' : ℕ) → generate_cluster_key c k ≡ generate_cluster_key c' k' → (c ≡ c') × (k ≡ k')
unfolding generate_cluster_key
generate_cluster_key-injective c c' k k' e =
    let (ec, ek) =
      cut_first b':' (decimal c) (decimal c') _ _ (decimal-Lacks c) (decimal-Lacks c') e in
    (decimal-injective c c' ec, decimal-injective k k' ek)
