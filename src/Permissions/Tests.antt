-- ===== src/Permissions/Tests.antt =====
-- A user's decisions on one request, and the theorems at it.
use zj_cyber_workbench.Prelude.{
  string_eq, nat_eq, filter, any, first_where, update_where, ◌≡◌, refl, true, false, none, some, [],
  ◌∷◌,
}
use zj_cyber_workbench.Json.{Json}
use zj_cyber_workbench.Policy.{l2}
use zj_cyber_workbench.Permissions.{
  normal, allow_once, always_allow, pending, PermissionRequest, PendingPermission, Permissions,
  granted, rule_matches, add_rule, require_permission, pop_pending, answer_decision,
  resume_permission, with_decision, decide_found, decide_pending, decide, update_mode, clear_rules,
}
use zj_cyber_workbench.Permissions.Decisions.{
  ask, resume, decision, clear, happen, happen_all, is_granted, resume_permission-undecided,
}
use zj_cyber_workbench.Permissions.Rules.{always_allow-granted}

abbrev scan : PermissionRequest
scan = record {
  id = 1;
  context = record { session_id = "s"; agent_code = "lead"; user_id = 7 };
  action_type = "network.scan";
  target = "10.0.0.1";
  reason = "scan";
  risk_level = l2;
  details = Json.null;
  status = pending;
  created_at = 0;
  expires_at = 60;
}

abbrev pub idle : Permissions
idle = record { mode = normal; approval_timeout_seconds = 60; rules = []; waiting = []; audit = [] }

abbrev pub asked : PendingPermission
asked = record { request = scan; decision = none }

abbrev asking : Permissions
asking = record idle { waiting = asked ∷ [] }

abbrev later_scan : PermissionRequest
later_scan = record scan { id = 2; created_at = 40 }

all_open : Unit {0}
unfolding happen_all happen require_permission rule_matches any first_where filter resume_permission
    answer_decision pop_pending decide decide_pending decide_found update_where add_rule update_mode
    clear_rules
all_open = tt

-- Another user's decision is an error.
other_user : (decide 1 8 allow_once 5 asking).0 ≡ none
unfolding all_open
other_user = refl

-- The user's own one grants the request.
own_user :
    (resume_permission (with_decision allow_once asked) false (decide 1 7 allow_once 5 asking).1).0
    ≡ granted (some allow_once)
unfolding all_open
own_user = refl

resume_permission-undecided_example :
    is_granted
      (resume_permission asked false
        (happen_all (ask scan ∷ decision 1 8 allow_once 5 ∷ clear ∷ []) idle)).0
    ≡ false
unfolding all_open
resume_permission-undecided_example =
    resume_permission-undecided 1 7 (ask scan ∷ decision 1 8 allow_once 5 ∷ clear ∷ []) false idle
      asked (record { normal_mode = refl; unsettled = refl }) refl refl

always_allow-granted_example :
    is_granted
      (require_permission later_scan
        (happen_all (decision 1 7 always_allow 5 ∷ resume 1 false ∷ []) asking)).0
    ≡ true
unfolding all_open
always_allow-granted_example =
    always_allow-granted asked 1 5 (resume 1 false ∷ []) asking later_scan refl refl refl refl
