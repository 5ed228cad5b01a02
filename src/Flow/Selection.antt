-- ===== src/Flow/Selection.antt =====
-- What a group of failed instances may lead to: which requests reach a switcher.
use dbha.Prelude.{
  List, [], ◌∷◌, ◌++◌, Option, none, some, Bool, true, false, not, ◌≡◌, ◌≢◌, refl, arith, text_eq,
  ◌==◌, if◌then◌else◌, Bool-cases, Option-cases, inl, inr, is_empty, All, subst, All-append,
}
use dbha.Failure.{FailureInstanceInfo, FailureGroup, group_ips, ips_from}
use dbha.Strategy.{DbSwitchingStrategy, match_strategy_for_group}
use dbha.Flow.{
  Request, Services, Effect, alarm, switching, action_notify, action_switch,
  create_request_with_group, query_black_white_list, keep_whitelisted,
  filter_by_whitelist_for_switch, trigger_switching, notify, handle_strategy_switch,
  has_db_inst_metadata, exclude_unavailable_instances,
}
use dbha.Flow.Handling.{filter_and_switch, handle_failure_group_body}
use dbha.Flow.Permission.{
  IsAvailable, IsAllowed, keep_whitelisted_lem, create_request_lem, alarms-IsAllowed, IsChecked,
}

-- What the filter for a switch leaves.
abbrev Filtered : Services → FailureGroup → Bool × Request × List Effect → Type 0
Filtered s group r = IsChecked s group r.1 × All (IsAllowed s group) r.2

filter_lem :
    (s : Services) (group : FailureGroup) (first : FailureInstanceInfo)
    (rest : List FailureInstanceInfo) (req : Request)
    → All IsAvailable req.mysql_inst_data
    → group.instances ≡ first ∷ rest
    → Filtered s group (filter_by_whitelist_for_switch s group req)
unfolding filter_by_whitelist_for_switch
filter_lem s group first rest req h e = elim (Bool-cases s.enable_white_list) [
  | inr off ↦
      subst (Filtered s group) {x = (false, req, [])}
        {y = filter_by_whitelist_for_switch s group req} (rw off refl)
        (record { are_available = h; listed = λ on. cc }, tt)
  | inl on ↦ elim (Bool-cases s.enable_switching) [
    | inr off ↦
        subst (Filtered s group) {x = (false, req, [])}
          {y = filter_by_whitelist_for_switch s group req} (rw (on, off) refl)
          (record { are_available = h; listed = λ p q. cc }, tt)
    | inl on2 ↦ elim (Option-cases (query_black_white_list s first.bk_biz_id group.bk_cloud_id)) [
      | inl failed ↦
          subst (Filtered s group)
            {x = (true, record req { mysql_inst_data = [] }, alarm first.bk_biz_id ∷ [])}
            {y = filter_by_whitelist_for_switch s group req} (rw (on, on2, e, failed) refl)
            (record { are_available = tt; listed = λ p q r. absurd (r refl) }, (tt, tt))
      | inr (items, got) ↦
          let (free, listed) = keep_whitelisted_lem first.bk_biz_id group.bk_cloud_id items req h in
          subst (Filtered s group)
            {x = (
              false,
              (keep_whitelisted first.bk_biz_id group.bk_cloud_id items req).0,
              (keep_whitelisted first.bk_biz_id group.bk_cloud_id items req).1,
            )}
            {y = filter_by_whitelist_for_switch s group req} (rw (on, on2, e, got) refl)
            (
              record {
                are_available = free;
                listed = λ p q r. (first, rest, e, items, got, listed);
              },
              alarms-IsAllowed s group first.bk_biz_id items req,
            )
    ]
  ]
]

trigger_switching_lem :
    (s : Services) (group : FailureGroup) (req : Request)
    → IsChecked s group req
    → req.mysql_inst_data ≢ []
    → All (IsAllowed s group) (trigger_switching s group.db_type req)
unfolding trigger_switching
trigger_switching_lem s group req c some_inst = elim (Bool-cases s.enable_switching) [
  | inr off ↦ subst (All (IsAllowed s group)) {x = []} (rw off refl) tt
  | inl on ↦ elim (Bool-cases (s.has_switcher group.db_type)) [
    | inr off ↦ subst (All (IsAllowed s group)) {x = []} (rw (on, off) refl) tt
    | inl has ↦
        subst (All (IsAllowed s group)) {x = switching group.db_type req ∷ []} (rw (on, has) refl) (
          record {
            enabled = on;
            supported = has;
            same_type = refl;
            not_empty = some_inst;
            are_available = c.are_available;
            listed = λ p. c.listed p on some_inst;
          },
          tt,
        )
  ]
]

handle_strategy_switch_lem :
    (s : Services) (group : FailureGroup) (strategy : DbSwitchingStrategy) (req : Request)
    (effects : List Effect)
    → IsChecked s group req
    → req.mysql_inst_data ≢ []
    → handle_strategy_switch s strategy group req ≡ some effects
    → All (IsAllowed s group) effects
unfolding handle_strategy_switch
handle_strategy_switch_lem s group strategy req effects c some_inst h =
    elim (Bool-cases (strategy.action == action_switch)) [
      | inr e ↦
          let made : handle_strategy_switch s strategy group req ≡ none = rw e refl in
          absurd (cc (h, made))
      | inl e ↦
          let sent : Request = record req {
            action_scope = strategy.scope;
            switch_id = s.new_switch_id;
          } in
          let made : handle_strategy_switch s strategy group req
              ≡ some (trigger_switching s group.db_type sent) =
            rw e refl in
          subst (All (IsAllowed s group)) (cc (h, made)) (
            trigger_switching_lem s group sent
              (record { are_available = c.are_available; listed = c.listed }) some_inst)
    ]

filter_and_switch_lem :
    (s : Services) (group : FailureGroup) (first : FailureInstanceInfo)
    (rest : List FailureInstanceInfo) (strategy : DbSwitchingStrategy) (req : Request)
    → All IsAvailable req.mysql_inst_data
    → group.instances ≡ first ∷ rest
    → All (IsAllowed s group) (filter_and_switch s strategy group req)
unfolding filter_and_switch
filter_and_switch_lem s group first rest strategy req h e =
    after (filter_by_whitelist_for_switch s group req) (filter_lem s group first rest req h e)
  where
    after :
        (r : Bool × Request × List Effect)
        → Filtered s group r
        → All (IsAllowed s group) (
            if r.0
            then r.2
            else if not (has_db_inst_metadata r.1)
            then r.2
            else elim (handle_strategy_switch s strategy group r.1) [
              | some effects ↦ r.2 ++ effects
              | none ↦ r.2
            ])
    after (true, req', alarms) (c, a) = a
    after (false, req', alarms) (c, a) = elim (Bool-cases (is_empty req'.mysql_inst_data)) [
      | inl e ↦ rw e a
      | inr e ↦ elim (Option-cases (handle_strategy_switch s strategy group req')) [
        | inl q ↦ rw (e, q) a
        | inr (effects, q) ↦
            rw (e, q)
              (All-append (IsAllowed s group) alarms effects a (
                handle_strategy_switch_lem s group strategy req' effects c
                  (λ z. ground (arith, z, e)) q))
      ]
    ]

no_ips : (group : FailureGroup) → group.instances ≡ [] → group_ips group ≡ []
unfolding group_ips ips_from
no_ips group e = rw e refl

notify-IsAllowed : (s : Services) (group : FailureGroup) → All (IsAllowed s group) (notify group)
unfolding notify
notify-IsAllowed s group = by_instances group.instances
  where
    by_instances :
        (insts : List FailureInstanceInfo)
        → All
            (IsAllowed s group)
            (elim insts [ [] ↦ [] | first ∷ rest ↦ alarm first.bk_biz_id ∷ [] ])
    by_instances [] = tt
    by_instances (i ∷ insts) = (tt, tt)

act_on-IsAllowed :
    (s : Services) (group : FailureGroup) (req : Request) (matched : Option DbSwitchingStrategy)
    (insts : List FailureInstanceInfo)
    → All IsAvailable req.mysql_inst_data
    → group_ips group ≢ []
    → group.instances ≡ insts
    → All (IsAllowed s group) (elim matched [
      | none ↦ []
      | some strategy ↦
          if strategy.action == action_notify
          then notify group
          else filter_and_switch s strategy group req
    ])
act_on-IsAllowed s group req none insts h ips e = tt
act_on-IsAllowed s group req (some strategy) [] h ips e = absurd (ips (no_ips group e))
act_on-IsAllowed s group req (some strategy) (first ∷ rest) h ips e =
    elim (Bool-cases (strategy.action == action_notify)) [
      | inl q ↦ rw q (notify-IsAllowed s group)
      | inr q ↦ rw q (filter_and_switch_lem s group first rest strategy req h e)
    ]

-- Every request that a group of failed instances brings to a switcher is permitted: switching is
-- enabled and the type has a switcher; there is an instance in it, and all are available by the
-- metadata that was asked for; and if the whitelist is on, its query for the business of the group's
-- first instance and the group's cloud has answered, every instance is of that business and cloud,
-- and the answer names its cluster.
pub handle_failure_group-IsAllowed :
    (s : Services) (group : FailureGroup)
    → All (IsAllowed s group) (handle_failure_group_body s group)
unfolding handle_failure_group_body
handle_failure_group-IsAllowed s group = elim (Option-cases (create_request_with_group s group)) [
  | inl e ↦ rw (e, handle_failure_group_body) tt
  | inr (req, e) ↦
      let (ips, h) = create_request_lem s group req e in
      elim (Bool-cases (is_empty req.mysql_inst_data)) [
        | inl q ↦ rw (e, q, handle_failure_group_body) tt
        | inr q ↦
            rw (e, q, handle_failure_group_body)
              (act_on-IsAllowed s group req
                (match_strategy_for_group s.read_switching_strategy
                  (record group { instances = exclude_unavailable_instances group.instances req }))
                group.instances h ips refl)
      ]
]
