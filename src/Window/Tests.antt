-- ===== src/Window/Tests.antt =====
-- Runs of the windows on one failed instance, and the theorems of the windows at them.
use dbha.Prelude.{
  sort_by, decimal, delete, insert, ℕ, ◌≡◌, ◌↔◌, refl, List, [], ◌∷◌, none, some, true, false, Text,
  codes, lookup, if◌then◌else◌, nat_beq, ◌==◌, text_eq, keep, IsSorted, any, arith,
}
use mathlib.Core.List.{Perm}
use dbha.Failure.{FailureInstanceInfo, window_key_of, instance_window_key}
use dbha.Window.{
  BizWindowManager, new_biz_window_manager, push, push_into_window, get_or_create_window,
  new_sliding_window, window_push, pop_and_mark_start, mark_all, store_or_drop, window_pop,
  pop_loop, matured, earlier, manager_window_len,
}
use dbha.Window.Manager.{entry_at, IsInflight, ManagerIsValid, push-refused_iff, entry_at-push}
use dbha.Window.Sliding.{merged}
use dbha.Window.Popping.{pop_and_mark_start_lem, biz_entries}
use dbha.Window.Inflight.{
  Call, pushes, pops, after_call, run_calls, reached-ManagerIsValid, inflight-pop_and_mark_start,
}
use dbha.Window.Once.{is_popped, pop_once}

abbrev backend : FailureInstanceInfo
backend = record {
  bk_cloud_id = 0;
  ip = codes "10.0.0.1";
  port = 3306;
  bk_biz_id = 7;
  cluster = codes "db.example";
  cluster_id = 11;
  db_type = codes "mysql";
  event_name = codes "dbha_mysql_failure";
  event_name_reason = 1;
  cluster_type = codes "tendbha";
  machine_type = codes "backend";
  instance_role = codes "backend_master";
  check_start_time = none;
  check_finished_time = none;
}

-- A window of 10 and marks that live for 100.
abbrev empty_manager : BizWindowManager
empty_manager = new_biz_window_manager 10 100 []

-- The instance has failed at 5 and is popped at 20.
abbrev first_calls : List Call
first_calls = pushes 5 7 backend 5 ∷ []

abbrev loaded : BizWindowManager
loaded = run_calls empty_manager first_calls

abbrev popped : BizWindowManager
popped = (pop_and_mark_start loaded 7 20).1

loaded-len : manager_window_len loaded 7 ≡ 1
unfolding manager_window_len run_calls after_call push push_into_window get_or_create_window
    new_sliding_window window_push new_biz_window_manager lookup insert
loaded-len = refl

popped-len : manager_window_len popped 7 ≡ 0
unfolding manager_window_len run_calls after_call push push_into_window get_or_create_window
    new_sliding_window window_push new_biz_window_manager pop_and_mark_start window_pop pop_loop
    matured mark_all store_or_drop lookup insert delete instance_window_key decimal
popped-len = refl

backend_popped : is_popped (window_key_of backend) (pop_and_mark_start loaded 7 20).0 ≡ true
unfolding run_calls after_call push push_into_window get_or_create_window new_sliding_window
    window_push new_biz_window_manager pop_and_mark_start window_pop pop_loop matured mark_all
    store_or_drop lookup insert sort_by instance_window_key decimal
backend_popped = refl

ttl_is_100 : loaded.inflight_ttl ≡ 100
unfolding run_calls after_call push push_into_window get_or_create_window new_sliding_window
    window_push new_biz_window_manager lookup
ttl_is_100 = refl

popped_refuses : (push popped 30 7 backend 30).1 ≡ false
unfolding run_calls after_call push push_into_window get_or_create_window new_sliding_window
    window_push new_biz_window_manager pop_and_mark_start window_pop pop_loop matured mark_all
    store_or_drop lookup insert delete instance_window_key decimal sort_by
popped_refuses = refl

loaded_takes : (push loaded 6 7 backend 6).1 ≡ true
unfolding run_calls after_call push push_into_window get_or_create_window new_sliding_window
    window_push new_biz_window_manager lookup
loaded_takes = refl

-- The instance fails again and another pop comes before it is released.
abbrev later_calls : List Call
later_calls = pushes 30 7 backend 30 ∷ pops 7 45 ∷ []

pop_once_example :
    is_popped
      (window_key_of backend)
      (pop_and_mark_start (run_calls (pop_and_mark_start loaded 7 20).1 later_calls) 7 60).0
    ≡ false
pop_once_example =
    pop_once loaded 7 20 (window_key_of backend) later_calls 60
      (reached-ManagerIsValid 10 100 [] first_calls) backend_popped
      (omega (arith, ttl_is_100), (omega arith, tt))

push-refused_iff_example :
    ((push popped 30 7 backend 30).1 ≡ false) ↔ IsInflight popped (window_key_of backend) 30
push-refused_iff_example = push-refused_iff popped 30 7 backend 30

entry_at-push_example : entry_at (push loaded 6 7 backend 6).0 7 (window_key_of backend) ≡ (
    if nat_beq 7 7
    then (if window_key_of backend == window_key_of backend
        then some (merged (entry_at loaded 7 (window_key_of backend)) backend 6)
        else entry_at loaded 7 (window_key_of backend))
    else entry_at loaded 7 (window_key_of backend))
entry_at-push_example = entry_at-push loaded 6 7 backend 6 7 (window_key_of backend) loaded_takes

reached-ManagerIsValid_example :
    ManagerIsValid
      (run_calls (new_biz_window_manager 10 100 []) (pushes 5 7 backend 5 ∷ pops 7 20 ∷ []))
reached-ManagerIsValid_example =
    reached-ManagerIsValid 10 100 [] (pushes 5 7 backend 5 ∷ pops 7 20 ∷ [])

pop_and_mark_start_lem_example :
    Perm
      (pop_and_mark_start loaded 7 20).0
      (keep (matured loaded.window_duration 20) (biz_entries loaded 7))
    × IsSorted earlier (pop_and_mark_start loaded 7 20).0
    × ((biz' : ℕ) (k : Text)
        → entry_at (pop_and_mark_start loaded 7 20).1 biz' k ≡ (
            if nat_beq 7 biz'
            then elim (entry_at loaded 7 k) [
              | none ↦ none
              | some x ↦ if matured loaded.window_duration 20 x then none else some x
            ]
            else entry_at loaded biz' k))
pop_and_mark_start_lem_example =
    pop_and_mark_start_lem loaded 7 20 (reached-ManagerIsValid 10 100 [] first_calls)

inflight-pop_and_mark_start_example :
    lookup (window_key_of backend) (pop_and_mark_start loaded 7 20).1.inflight ≡ (
      if any (λ e. window_key_of e.inst == window_key_of backend) (pop_and_mark_start loaded 7 20).0
      then some 20
      else lookup (window_key_of backend) loaded.inflight)
inflight-pop_and_mark_start_example =
    inflight-pop_and_mark_start loaded 7 20 (window_key_of backend)
