-- ===== src/Flow/Permission.antt =====
-- Which requests may be handed to a switcher, and which ones are made from a group.
use dbha.Prelude.{
  ℕ, List, [], ◌∷◌, ◌++◌, none, some, Bool, true, false, Text, ◌≡◌, ◌≢◌, sym, refl, arith, text_eq,
  ◌==◌, text_beq_iff, if◌then◌else◌, Memᴰ, map, Bool-cases, Option-cases, inl, inr, is_empty, All,
  subst, All-append, All-keep, All-keep_of, elem, decimal, decimal-Lacks, decimal-injective,
  cut_first, All-map,
}
use dbha.Failure.{FailureInstanceInfo, FailureGroup, group_ips}
use dbha.Flow.{
  DbInstMetadata, Request, Services, Effect, alarm, switching, unavailable, add_db_inst_metadata,
  add_available, create_request_with_group, query_black_white_list, whitelist_cluster,
  cluster_of_meta, keep_whitelisted,
}

whitelist_cluster-injective :
    (b b' c c' k k' : ℕ)
    → whitelist_cluster b c k ≡ whitelist_cluster b' c' k'
    → (b ≡ b') × (c ≡ c') × (k ≡ k')
unfolding whitelist_cluster
whitelist_cluster-injective b b' c c' k k' e =
    let (eb, rest) =
      cut_first b':' (decimal b) (decimal b') _ _ (decimal-Lacks b) (decimal-Lacks b') e in
    let (ec, ek) =
      cut_first b':' (decimal c) (decimal c') _ _ (decimal-Lacks c) (decimal-Lacks c') rest in
    (decimal-injective b b' eb, decimal-injective c c' ec, decimal-injective k k' ek)

-- The instance's cluster is one of those that the whitelist of the business and the cloud names.
abbrev pub Listed : ℕ → ℕ → List ℕ → DbInstMetadata → Type 0
Listed biz cloud items meta =
    (meta.bk_biz_id ≡ biz) × (meta.bk_cloud_id ≡ cloud) × Memᴰ meta.cluster_id items

Listed-of_elem :
    (biz cloud : ℕ) (items : List ℕ) (meta : DbInstMetadata)
    → elem (cluster_of_meta meta) (map (whitelist_cluster biz cloud) items) ≡ true
    → Listed biz cloud items meta
Listed-of_elem biz cloud [] meta h = cc
Listed-of_elem biz cloud (item ∷ items) meta h =
    elim (Bool-cases (whitelist_cluster biz cloud item == cluster_of_meta meta)) [
      | inl e ↦
          let (eb, ec, ek) =
            whitelist_cluster-injective biz meta.bk_biz_id cloud meta.bk_cloud_id item
              meta.cluster_id
              ((text_beq_iff (whitelist_cluster biz cloud item) (cluster_of_meta meta)).0 e) in
          (sym eb, sym ec, Memᴰ.head (sym ek))
      | inr e ↦
          let (eb, ec, m) = Listed-of_elem biz cloud items meta (ground (arith, h, e)) in
          (eb, ec, Memᴰ.tail m)
    ]

abbrev pub IsAvailable : DbInstMetadata → Type 0
IsAvailable meta = (meta.status == unavailable) ≡ false

-- The whitelist, where it is on, names the cluster of every instance of the request.
abbrev pub WhitelistAllows : Services → FailureGroup → Request → Type 0
WhitelistAllows s group req =
    (first : FailureInstanceInfo) × (rest : List FailureInstanceInfo) × (group.instances
      ≡ first ∷ rest)
    × (items : List ℕ) × (query_black_white_list s first.bk_biz_id group.bk_cloud_id ≡ some items)
    × All (Listed first.bk_biz_id group.bk_cloud_id items) req.mysql_inst_data

-- A request that may be handed to the switcher of a database type.
pub record IsPermitted (s : Services) (group : FailureGroup) (db_type : Text) (req : Request)
    : Type 0 where
  pub enabled : s.enable_switching ≡ true
  pub supported : s.has_switcher db_type ≡ true
  pub same_type : db_type ≡ group.db_type
  pub not_empty : req.mysql_inst_data ≢ []
  pub are_available : All IsAvailable req.mysql_inst_data
  pub listed : s.enable_white_list ≡ true → WhitelistAllows s group req

abbrev pub IsAllowed : Services → FailureGroup → Effect → Type 0
IsAllowed s group (alarm biz) = Unit
IsAllowed s group (switching db_type req) = IsPermitted s group db_type req

-- A request whose instances are available, and listed if the whitelist and switching are on.
pub record IsChecked (s : Services) (group : FailureGroup) (req : Request) : Type 0 where
  pub are_available : All IsAvailable req.mysql_inst_data
  pub listed :
      s.enable_white_list ≡ true
      → s.enable_switching ≡ true
      → req.mysql_inst_data ≢ []
      → WhitelistAllows s group req

add_available_lem :
    (req : Request) (metas : List DbInstMetadata)
    → All IsAvailable req.mysql_inst_data
    → All IsAvailable (add_available req metas).mysql_inst_data
unfolding add_available add_db_inst_metadata
add_available_lem req [] h = h
add_available_lem req (meta ∷ rest) h = elim (Bool-cases (meta.status == unavailable)) [
  | inl e ↦ rw (e, add_available) (add_available_lem req rest h)
  | inr e ↦
      rw (e, add_available)
        (add_available_lem (record req { mysql_inst_data = req.mysql_inst_data ++ meta ∷ [] }) rest
          (All-append IsAvailable req.mysql_inst_data (meta ∷ []) h (e, tt)))
]

pub keep_whitelisted_lem :
    (biz cloud : ℕ) (items : List ℕ) (req : Request)
    → All IsAvailable req.mysql_inst_data
    → let r = (keep_whitelisted biz cloud items req).0 in
      All IsAvailable r.mysql_inst_data × All (Listed biz cloud items) r.mysql_inst_data
unfolding keep_whitelisted
keep_whitelisted_lem biz cloud items req h =
    let listed : DbInstMetadata → Bool =
      λ meta. elem (cluster_of_meta meta) (map (whitelist_cluster biz cloud) items) in
    (
      All-keep_of IsAvailable listed req.mysql_inst_data h,
      All-map _ (λ meta e. Listed-of_elem biz cloud items meta e)
          (All-keep listed req.mysql_inst_data),
    )

abbrev empty_request : FailureGroup → Request
empty_request group = record {
  switch_id = [];
  action_scope = [];
  db_type = group.db_type;
  mysql_inst_data = [];
}

pub create_request_lem :
    (s : Services) (group : FailureGroup) (req : Request)
    → create_request_with_group s group ≡ some req
    → group_ips group ≢ [] × All IsAvailable req.mysql_inst_data
unfolding create_request_with_group
create_request_lem s group req h = elim (Bool-cases (is_empty (group_ips group))) [
  | inl e ↦ let made : create_request_with_group s group ≡ none = rw e refl in absurd (cc (h, made))
  | inr e ↦ elim (Option-cases (s.query_metadata_from_dbm group.bk_cloud_id (group_ips group))) [
    | inl failed ↦
        let made : create_request_with_group s group ≡ none = rw (e, failed) refl in
        absurd (cc (h, made))
    | inr (metas, got) ↦
        let made : create_request_with_group s group
            ≡ some (add_available (empty_request group) metas) =
          rw (e, got) refl in
        let same : add_available (empty_request group) metas ≡ req = cc (h, made) in
        (
          λ none_there. ground (arith, none_there, e),
          subst (λ (r : Request). All IsAvailable r.mysql_inst_data) same
              (add_available_lem (empty_request group) metas tt),
        )
  ]
]

pub alarms-IsAllowed :
    (s : Services) (group : FailureGroup) (biz : ℕ) (items : List ℕ) (req : Request)
    → All (IsAllowed s group) (keep_whitelisted biz group.bk_cloud_id items req).1
unfolding keep_whitelisted
alarms-IsAllowed s group biz items req = if_allowed _
  where
    if_allowed : (b : Bool) → All (IsAllowed s group) (if b then [] else alarm biz ∷ [])
    if_allowed true = tt
    if_allowed false = (tt, tt)
