-- ===== src/Permissions/Rules.antt =====
-- service/runtime_permissions.py: the rules that always allow, over sequences of events.
use zj_cyber_workbench.Prelude.{
  string_eq, nat_eq, ◌||◌, any, ℕ, String, ◌≡◌, refl, ap, ◌∙◌, Bool, true, false, Option, none,
  some, List, [], ◌∷◌, ◌++◌, arith,
}
use zj_cyber_workbench.Permissions.{
  PermissionDecision, always_allow, PermissionRequest, PendingPermission, PermissionRule,
  Permissions, covers, rule_matches, add_rule, require_permission, get_pending, pop_pending,
  answer_decision, resume_permission, decide_found, decide_pending, decide, update_mode,
}
use zj_cyber_workbench.Permissions.Decisions.{
  Event, ask, resume, decision, switch, clear, resume_if, happen, happen_all, is_granted,
}

abbrev pub no_clear : List Event → Bool
no_clear [] = true
no_clear (clear ∷ events) = false
no_clear (_ ∷ events) = no_clear events

module _ {A : Type 0} (q : A → Bool) where
  any-append_row : (rows : List A) (row : A) → any q (rows ++ (row ∷ [])) ≡ (any q rows || q row)
  unfolding any
  any-append_row [] row = ground arith
  any-append_row (r ∷ rows) row = ground (arith, any-append_row rows row)

add_rule-kept :
    (action_type target a t : String) (now : ℕ) (rules : List PermissionRule)
    → rule_matches action_type target rules ≡ true
    → rule_matches action_type target (add_rule a t now rules) ≡ true
unfolding add_rule rule_matches
add_rule-kept action_type target a t now rules h = ground (
  arith,
  h,
  any-append_row (covers action_type target) rules
      (record { action_type = a; target = t; created_at = now }),
)

add_rule-own :
    (a t : String) (now : ℕ) (rules : List PermissionRule)
    → rule_matches a t (add_rule a t now rules) ≡ true
unfolding add_rule rule_matches
add_rule-own a t now rules = ground (
  arith,
  string_eq.same_iff a a,
  string_eq.same_iff t t,
  any-append_row (covers a t) rules (record { action_type = a; target = t; created_at = now }),
)

module _ (action_type target : String) where
  resume_permission-rules :
      (p : PendingPermission) (timeout : Bool) (st : Permissions)
      → (resume_permission p timeout st).1.rules ≡ st.rules
  unfolding resume_permission answer_decision pop_pending
  resume_permission-rules p timeout st = ground arith

  decide_pending-rules :
      (found : Option PendingPermission) (requester_id : ℕ) (d : PermissionDecision) (now : ℕ)
      (st : Permissions)
      → rule_matches action_type target st.rules ≡ true
      → rule_matches action_type target (decide_pending found requester_id d now st).1.rules ≡ true
  unfolding decide_pending decide_found
  decide_pending-rules none requester_id d now st h = h
  decide_pending-rules (some p) requester_id d now st h = ground (
    arith,
    h,
    add_rule-kept action_type target p.request.action_type p.request.target now st.rules h,
  )

  resume_if-rules :
      (found : Option PendingPermission) (timeout : Bool) (st : Permissions)
      → (resume_if found timeout st).rules ≡ st.rules
  resume_if-rules none timeout st = refl
  resume_if-rules (some p) timeout st = resume_permission-rules p timeout st

  happen_all-rules :
      (events : List Event) (st : Permissions)
      → no_clear events ≡ true
      → rule_matches action_type target st.rules ≡ true
      → rule_matches action_type target (happen_all events st).rules ≡ true
  unfolding happen_all happen require_permission decide update_mode
  happen_all-rules [] st n h = h
  happen_all-rules (ask request ∷ events) st n h = happen_all-rules events _ n (ground (arith, h))
  happen_all-rules (resume request_id timeout ∷ events) st n h =
      happen_all-rules events _ n
        (ap (rule_matches action_type target) (resume_if-rules _ timeout st) ∙ h)
  happen_all-rules (decision request_id requester_id d now ∷ events) st n h =
      happen_all-rules events _ n (decide_pending-rules _ requester_id d now st h)
  happen_all-rules (switch mode ∷ events) st n h = happen_all-rules events _ n h
  happen_all-rules (clear ∷ events) st n h = ground (arith, n)

decided-rules :
    (p : PendingPermission) (now : ℕ) (st : Permissions)
    → rule_matches p.request.action_type p.request.target
        (decide_found p p.request.context.user_id always_allow now st).1.rules
      ≡ true
unfolding decide_found
decided-rules p now st =
    ground (arith, add_rule-own p.request.action_type p.request.target now st.rules)

happen_decision :
    (p : PendingPermission) (k u now : ℕ) (d : PermissionDecision) (st : Permissions)
    → get_pending k st ≡ some p
    → happen (decision k u d now) st ≡ (decide_found p u d now st).1
unfolding happen decide decide_pending
happen_decision p k u now d st found = ap (λ f. (decide_pending f u d now st).1) found

-- Once a request's own user has decided to allow it always, every later request for the same action
-- and target is granted without a wait, until the rules are cleared.
pub always_allow-granted :
    (p : PendingPermission) (k now : ℕ) (events : List Event) (st : Permissions)
    (request : PermissionRequest)
    → get_pending k st ≡ some p
    → no_clear events ≡ true
    → request.action_type ≡ p.request.action_type
    → request.target ≡ p.request.target
    → is_granted
        (require_permission request
          (happen_all (decision k p.request.context.user_id always_allow now ∷ events) st)).0
      ≡ true
unfolding require_permission happen_all
always_allow-granted p k now events st request found n a t =
    let kept =
      happen_all-rules p.request.action_type p.request.target events
        (happen (decision k p.request.context.user_id always_allow now) st) n
        (ap (λ s. rule_matches p.request.action_type p.request.target s.rules)
            (happen_decision p k p.request.context.user_id now always_allow st found)
          ∙ decided-rules p now st) in
    rw a (rw t (ground (arith, kept)))
