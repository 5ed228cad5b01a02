-- ===== src/Flow/Release.antt =====
-- What is popped for a business is released again, whatever the services answer.
use dbha.Prelude.{
  ℕ, List, [], ◌∷◌, none, true, Text, ◌≡◌, ap, sym, arith, text_eq, text_beq_iff, if◌then◌else◌,
  lookup, lookup-delete, Memᴰ, map, is_empty,
}
use dbha.Failure.{FailureInstanceInfo, FailureGroup, window_key_of}
use dbha.Window.{FailureWindowEntry, BizWindowManager, pop_and_mark_start, mark_done}
use dbha.Flow.{Services}
use dbha.Flow.Handling.{
  collect_group_instance_keys, mark_done_all, handle_failure_group,
  group_entries_by_cloud_and_db_type, handle_groups, pop_and_switch_for_biz,
}
use dbha.Flow.Grouping.{group_entries-covers}

mark_done_all_keeps :
    (m : BizWindowManager) (ks : List Text) (k : Text)
    → lookup k m.inflight ≡ none
    → lookup k (mark_done_all m ks).inflight ≡ none
unfolding mark_done_all mark_done
mark_done_all_keeps m [] k h = h
mark_done_all_keeps m (j ∷ ks) k h =
    mark_done_all_keeps (mark_done m j) ks k (ground (arith, h, lookup-delete j k m.inflight))

mark_done_all_lem :
    (m : BizWindowManager) (ks : List Text) (k : Text)
    → Memᴰ k ks
    → lookup k (mark_done_all m ks).inflight ≡ none
unfolding mark_done_all mark_done
mark_done_all_lem m [] k h = elim h [ ]
mark_done_all_lem m (j ∷ ks) k (Memᴰ.head q) =
    mark_done_all_keeps (mark_done m j) ks k
      (ground (arith, lookup-delete j k m.inflight, text_beq_iff j k, q))
mark_done_all_lem m (j ∷ ks) k (Memᴰ.tail q) = mark_done_all_lem (mark_done m j) ks k q

mem_keys :
    (insts : List FailureInstanceInfo) (inst : FailureInstanceInfo)
    → Memᴰ inst insts
    → Memᴰ (window_key_of inst) (map window_key_of insts)
mem_keys [] inst h = elim h [ ]
mem_keys (i ∷ insts) inst (Memᴰ.head q) = Memᴰ.head (ap window_key_of q)
mem_keys (i ∷ insts) inst (Memᴰ.tail q) = Memᴰ.tail (mem_keys insts inst q)

-- `handleFailureGroup` releases every instance of its group on each of its paths.
pub handle_failure_group-releases :
    (s : Services) (group : FailureGroup) (m : BizWindowManager) (inst : FailureInstanceInfo)
    → Memᴰ inst group.instances
    → lookup (window_key_of inst) (handle_failure_group s group m).1.inflight ≡ none
unfolding handle_failure_group collect_group_instance_keys
handle_failure_group-releases s group m inst h =
    mark_done_all_lem m (map window_key_of group.instances) (window_key_of inst)
      (mem_keys group.instances inst h)

handle_groups_keeps :
    (s : Services) (gs : List FailureGroup) (m : BizWindowManager) (k : Text)
    → lookup k m.inflight ≡ none
    → lookup k (handle_groups s gs m).1.inflight ≡ none
unfolding handle_groups handle_failure_group
handle_groups_keeps s [] m k h = h
handle_groups_keeps s (g ∷ gs) m k h =
    handle_groups_keeps s gs (mark_done_all m (collect_group_instance_keys g)) k
      (mark_done_all_keeps m (collect_group_instance_keys g) k h)

handle_groups_lem :
    (s : Services) (gs : List FailureGroup) (m : BizWindowManager) (g : FailureGroup)
    (inst : FailureInstanceInfo)
    → Memᴰ g gs
    → Memᴰ inst g.instances
    → lookup (window_key_of inst) (handle_groups s gs m).1.inflight ≡ none
unfolding handle_groups
handle_groups_lem s [] m g inst h i = elim h [ ]
handle_groups_lem s (f ∷ gs) m g inst (Memᴰ.head q) i =
    handle_groups_keeps s gs (handle_failure_group s f m).1 (window_key_of inst)
      (handle_failure_group-releases s f m inst (rw (sym q) i))
handle_groups_lem s (f ∷ gs) m g inst (Memᴰ.tail q) i =
    handle_groups_lem s gs (handle_failure_group s f m).1 g inst q i

-- After a pass of `popAndSwitchForBiz` that has got the lock of the business, no instance that it has
-- popped is inflight, whatever its groups meet: a failed query, no strategy, an alarm, a whitelist or
-- a switch.
pub pop_and_switch_for_biz-releases :
    (s : Services) (biz now : ℕ) (m : BizWindowManager) (entry : FailureWindowEntry)
    → Memᴰ entry (pop_and_mark_start m biz now).0
    → lookup (window_key_of entry.inst) (pop_and_switch_for_biz s true biz now m).1.inflight ≡ none
unfolding pop_and_switch_for_biz
pop_and_switch_for_biz-releases s biz now m entry h =
    from_entries (pop_and_mark_start m biz now).0 (pop_and_mark_start m biz now).1 h
  where
    from_entries :
        (entries : List FailureWindowEntry) (m' : BizWindowManager)
        → Memᴰ entry entries
        → lookup
            (window_key_of entry.inst)
            (if is_empty entries
              then ([], m')
              else handle_groups s (group_entries_by_cloud_and_db_type entries) m').1.inflight
          ≡ none
    from_entries [] m' p = elim p [ ]
    from_entries (e ∷ es) m' p =
        let (g, in_groups, in_group) = group_entries-covers (e ∷ es) entry p in
        handle_groups_lem s (group_entries_by_cloud_and_db_type (e ∷ es)) m' g entry.inst in_groups
          in_group
