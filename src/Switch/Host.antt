-- ===== src/Switch/Host.antt =====
-- internal/analysis/switcher/switchcore/switch_host_execution.go: the failed instances of one host
-- are switched together. Go starts goroutines for the groups and for the instances of a group; here
-- they run one after the other in the order of the maps, so that the semaphore, which only bounds
-- how many run at once, is left out. What is asked answers from the trace of the calls so far.
pub mod Processing
pub mod Locking
pub mod Keeping
pub mod Checking
pub mod Abort
use dbha.Prelude.{
  ℕ, List, [], ◌∷◌, ◌++◌, Option, none, some, Bool, true, false, not, Text, codes, ◌||◌, ◌&&◌, ◌==◌,
  nat_beq, map, keep, if◌then◌else◌, is_empty, text_eq, ◌≡◌, Map, lookup, insert, elem, group_from,
}
use dbha.Failure.{generate_cluster_key}
use dbha.Switch.{switch_required, switch_not_needed, running, available}

pub data HostEvent : Type 0 where
  asked_ctx : HostEvent
  set_unavailable : ℕ → List (Text × ℕ) → Bool → HostEvent
  tried_lock : Text → Bool → HostEvent
  unlocked : Text → HostEvent
  checked : Text → ℕ → HostEvent
  switched : Text → Bool → HostEvent
  updated_meta : Text → Bool → HostEvent
  finalized : Text → Bool → HostEvent

pub data HostError : Type 0 where
  ctx_done : Text → HostError
  status_unpass : List Text → HostError
  set_unavailable_failed : Text → HostError
  check_unpass : List Text → HostError
  empty_cluster_key : HostError
  lock_timeout : Text → HostError
  switch_failed : Text → HostError
  update_meta_failed : Text → HostError
  final_failed : Text → HostError

-- An instance with what it answers.
pub record HostInstance : Type 0 where
  pub bk_cloud_id : ℕ
  pub ip : Text
  pub port : ℕ
  pub cluster_id : ℕ
  pub cluster_type : Text
  pub machine_type : Text
  pub status : Text
  pub check_before_switch : List HostEvent → ℕ
  pub do_switch : List HostEvent → Option Text
  pub update_meta_info : List HostEvent → Option Text
  pub do_final : List HostEvent → Option Text

-- What the process answers: the context (none if it is nil), the locks, the API of the metadata.
pub record HostWorld : Type 0 where
  pub ctx : Option (List HostEvent → Option Text)
  pub locks : Text → List HostEvent → Bool
  pub update_batch_instances_status : ℕ → List (Text × ℕ) → List HostEvent → Option Text

abbrev pub Instances : Type 0
Instances = List (Text × HostInstance)

-- `errIfCtxDoneInHostSwitch`
unfoldable pub err_if_ctx_done_in_host_switch :
    HostWorld → List HostEvent → Option HostError × List HostEvent
err_if_ctx_done_in_host_switch w t = elim w.ctx [
  | none ↦ (none, t)
  | some err ↦ elim (err t) [
    | none ↦ (none, asked_ctx ∷ t)
    | some e ↦ (some (ctx_done e), asked_ctx ∷ t)
  ]
]

-- `LockClusterWithTimeout`
unfoldable pub lock_cluster : HostWorld → Text → List HostEvent → Option HostError × List HostEvent
lock_cluster w key t =
    if is_empty key
    then (some empty_cluster_key, t)
    else (if w.locks key t
        then (none, tried_lock key true ∷ t)
        else (some (lock_timeout key), tried_lock key false ∷ t))

-- `checkStatusForHostSwitch`
unfoldable pub check_status_for_host_switch :
    HostWorld → Instances → List HostEvent → List Text × List HostEvent
check_status_for_host_switch w [] t = ([], t)
check_status_for_host_switch w ((k, ins) ∷ rest) t =
    let (done, t1) = err_if_ctx_done_in_host_switch w t in
    let (failed, t2) = check_status_for_host_switch w rest t1 in
    elim done [
      | some e ↦ (k ∷ failed, t2)
      | none ↦
          if (ins.status == running) || (ins.status == available)
          then (failed, t2)
          else (k ∷ failed, t2)
    ]

-- The cloud of the last instance, 0 if there is none.
unfoldable pub last_cloud : Instances → ℕ → ℕ
last_cloud [] cloud = cloud
last_cloud ((k, ins) ∷ rest) cloud = last_cloud rest ins.bk_cloud_id

-- The batch call at the end of `setStatusForHostSwitch`.
unfoldable pub set_status_in_batch :
    HostWorld → Instances → List HostEvent → Option HostError × List HostEvent
unfolding last_cloud
set_status_in_batch w insts t =
    let cloud = last_cloud insts 0 in
    let addresses = map (λ kv. (kv.1.ip, kv.1.port)) insts in
    elim (w.update_batch_instances_status cloud addresses t) [
      | none ↦ (none, set_unavailable cloud addresses true ∷ t)
      | some e ↦ (some (set_unavailable_failed e), set_unavailable cloud addresses false ∷ t)
    ]

-- `setStatusForHostSwitch`
unfoldable pub set_status_for_host_switch :
    HostWorld → Instances → List HostEvent → Option HostError × List HostEvent
set_status_for_host_switch w insts t =
    if is_empty insts
    then (none, t)
    else (let (done, t') = err_if_ctx_done_in_host_switch w t in
        elim done [ some e ↦ (some e, t') | none ↦ set_status_in_batch w insts t' ])

abbrev pub cluster_key_of : HostInstance → Text
cluster_key_of ins = generate_cluster_key ins.bk_cloud_id ins.cluster_id

-- The goroutines of `checkOnSameHostSameCluster`: the keys that need no switch, those that fail.
unfoldable pub check_each :
    HostWorld → Instances → List HostEvent → (List Text × List Text) × List HostEvent
check_each w [] t = (([], []), t)
check_each w ((k, ins) ∷ rest) t =
    let (done, t1) = err_if_ctx_done_in_host_switch w t in
    elim done [
      | some e ↦ let ((needless, failed), t2) = check_each w rest t1 in ((needless, k ∷ failed), t2)
      | none ↦
          let code = ins.check_before_switch t1 in
          let ((needless, failed), t2) = check_each w rest (checked k code ∷ t1) in
          if nat_beq code switch_required
          then ((needless, failed), t2)
          else (if nat_beq code switch_not_needed
              then ((k ∷ needless, failed), t2)
              else ((needless, k ∷ failed), t2))
    ]

-- `checkOnSameHostSameCluster`
unfoldable pub check_on_same_host_same_cluster :
    HostWorld → Text → Instances → List HostEvent → (List Text × List Text) × List HostEvent
check_on_same_host_same_cluster w key group t =
    let (err, t1) = lock_cluster w key t in
    elim err [
      | some e ↦ (([], map (λ kv. kv.0) group), t1)
      | none ↦ let (result, t2) = check_each w group t1 in (result, unlocked key ∷ t2)
    ]

-- The goroutines of `checkOnSameHost`.
unfoldable pub check_groups :
    HostWorld → List (Text × Instances) → List HostEvent → (List Text × List Text) × List HostEvent
check_groups w [] t = (([], []), t)
check_groups w ((key, group) ∷ rest) t =
    let ((needless, failed), t1) = check_on_same_host_same_cluster w key group t in
    let ((needless', failed'), t2) = check_groups w rest t1 in
    ((needless ++ needless', failed ++ failed'), t2)

-- `checkOnSameHost`
unfoldable pub check_on_same_host :
    HostWorld → Instances → List HostEvent → (List Text × List Text) × List HostEvent
check_on_same_host w insts t = check_groups w (group_from (λ kv. cluster_key_of kv.1) [] insts) t
