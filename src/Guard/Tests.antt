-- ===== src/Guard/Tests.antt =====
-- A session with one declared target, and the theorems at it.
use zj_cyber_workbench.Prelude.{
  if◌then◌else◌, string_eq, ◌==◌, nat_eq, any, contains, ◌≡◌, refl, ◌≢◌, ◌↔◌, ◌⊎◌, inl, inr, true,
  false, none, some, [], ◌∷◌, arith,
}
use zj_cyber_workbench.Json.{Json}
use zj_cyber_workbench.Policy.{
  l1, l2, risk_order, reason_if, load_test_violations, denial_reasons, is_production,
  requires_approval, evaluate_action,
}
use zj_cyber_workbench.Permissions.{
  normal, allow_once, always_allow, is_full_access, rule_matches, require_permission, with_decision,
}
use zj_cyber_workbench.Permissions.Tests.{idle, asked}
use zj_cyber_workbench.Guard.Runtime.{
  permission_request, after_permission, resume_authorization, authorize_needed,
  authorize_network_action_runtime,
}
use zj_cyber_workbench.Guard.{
  no_port, Python, GuardContext, undeclared_target, invalid_action, authorized, undecided,
  unauthorized, default_port, scan_code, scan_codes, is_valid_action, target_id, target_ids,
  same_target, any_target, network_scope, network_action, authorize_action, authorize_ids,
  authorize_declared, authorize_network_action, needs_user_decision,
}
use zj_cyber_workbench.Guard.Network.{
  IsInScope, authorize_network_action-IsInScope, NeedsNothing, HasRule,
  authorize_network_action_runtime-allowed, resume_authorization_iff, hostless, IsRead,
  needs_user_decision-hostless,
}

-- Targets of the tests are bare hosts.
abbrev plain : Python
plain = record {
  urlsplit = λ s. some (record { scheme = "http"; hostname = some s; port = no_port });
  strip = λ s. s;
  lower = λ s. s;
  uuid5 = λ s. if s == "10.0.0.1" then 1 else 2;
  address = λ scheme hostname port. hostname;
}

abbrev session : GuardContext
session = record {
  agent = record { session_id = "s"; agent_code = "lead"; user_id = 7 };
  work_project_id = none;
  allowed_targets = "10.0.0.1" ∷ [];
  allowed_action_types = [];
  scope_id = "";
}

all_open : Unit {0}
unfolding authorize_network_action authorize_declared evaluate_action denial_reasons reason_if
    load_test_violations requires_approval is_production network_action network_scope any risk_order
    authorize_network_action_runtime needs_user_decision after_permission require_permission
    permission_request rule_matches same_target target_id contains default_port any_target
    target_ids authorize_ids authorize_action authorize_needed is_valid_action scan_code scan_codes
all_open = tt

declared_scan : (authorize_network_action plain session "http.get" "10.0.0.1" l1 1 5).0 ≡ authorized
unfolding all_open
declared_scan = refl

undeclared_scan :
    (authorize_network_action plain session "http.get" "10.0.0.2" l1 1 5).0
    ≡ unauthorized undeclared_target
unfolding all_open
undeclared_scan = refl

risky_scan :
    (authorize_network_action_runtime plain session "http.get" "10.0.0.1" l2 "get" Json.null 1 5
      idle).0
    ≡ (undecided, [])
unfolding all_open
risky_scan = refl

-- A type without a separator is refused, also on a declared target.
invalid_scan :
    (authorize_network_action plain session "scan" "10.0.0.1" l1 1 5).0
    ≡ unauthorized invalid_action
unfolding all_open
invalid_scan = refl

authorize_network_action-IsInScope_example : IsInScope plain session "http.get" "10.0.0.1" l1
authorize_network_action-IsInScope_example =
    authorize_network_action-IsInScope plain session "http.get" "10.0.0.1" l1 1 5 declared_scan

goes_ahead :
    (authorize_network_action_runtime plain session "http.get" "10.0.0.1" l1 "get" Json.null 1 5
      idle).0.0
    ≡ authorized
unfolding all_open
goes_ahead = refl

authorize_network_action_runtime-allowed_example :
    (plain.strip "10.0.0.1" ≢ "")
    × (NeedsNothing plain session "http.get" (plain.strip "10.0.0.1") l1
        ⊎ HasRule plain idle.rules "http.get" (plain.strip "10.0.0.1"))
authorize_network_action_runtime-allowed_example =
    authorize_network_action_runtime-allowed plain session "http.get" "10.0.0.1" l1 "get" Json.null
      1 5 idle refl goes_ahead

resume_authorization_iff_example :
    ((resume_authorization session (with_decision allow_once asked) false idle).0.0 ≡ authorized)
    ↔ ((false ≡ false)
        × ((is_full_access normal ≡ true)
            ⊎ (some allow_once ≡ some allow_once)
            ⊎ (some allow_once ≡ some always_allow)))
resume_authorization_iff_example =
    resume_authorization_iff session (with_decision allow_once asked) false idle

abbrev bare : Python
bare = record plain { urlsplit = λ s. some hostless }

hostless-IsRead : IsRead bare "10.0.0.1"
hostless-IsRead = record {
  url = hostless;
  read = refl;
  number = 80;
  port = inr (inl refl, inr (λ e. ground (arith, string_eq.same_iff "" "https", e), refl));
}

needs_user_decision-hostless_example :
    needs_user_decision bare session "http.get" "10.9.9.9" l1 ≡ some false
unfolding risk_order
needs_user_decision-hostless_example =
    needs_user_decision-hostless bare session "http.get" "10.9.9.9" "10.0.0.1" l1 refl refl
      (hostless-IsRead, tt) (inl refl) refl (omega arith)
