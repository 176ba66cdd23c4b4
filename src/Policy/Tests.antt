-- ===== src/Policy/Tests.antt =====
-- Concrete scopes and actions, and the theorems at them.
use zj_cyber_workbench.Prelude.{
  nat_eq, string_eq, In, contains, ◌≡◌, refl, ◌↔◌, true, false, none, some, [], ◌∷◌, arith,
}
use zj_cyber_workbench.Json.{Json, end}
use zj_cyber_workbench.Policy.{
  l1, l2, l3, allow, require_approval, deny, test, ReasonCode, target_out_of_scope, scope_expired,
  risk_exceeds_scope, ProposedAction, AuthorizationScope, risk_order, reason_if,
  load_test_violations, denial_reasons, is_production, requires_approval, evaluate_action,
}
use zj_cyber_workbench.Policy.Decision.{
  Violates, NeedsApproval, evaluate_action-deny_iff, evaluate_action-reason_codes,
  evaluate_action-allow_iff,
}
use zj_cyber_workbench.Policy.Widening.{IsWider, evaluate_action-widening}

abbrev pub restart : ProposedAction
restart = record {
  id = 1;
  project_id = 7;
  incident_id = 2;
  target_id = 40;
  action_type = "linux.service.restart";
  arguments = Json.object end;
  risk_level = l2;
  reason = "restart";
  is_write = true;
  is_load_test = false;
  prechecks = [];
  verification_steps = [];
  rollback_steps = "start the old unit" ∷ [];
  requested_rps = none;
  requested_concurrency = none;
  requested_duration_seconds = none;
}

abbrev pub scope : AuthorizationScope
scope = record {
  allowed_target_ids = 40 ∷ 41 ∷ [];
  allowed_action_types = "linux.service.restart" ∷ [];
  maximum_risk_level = l2;
  valid_from = some 10;
  valid_until = some 20;
  max_load_test_rps = none;
  max_load_test_concurrency = none;
  max_load_test_duration_seconds = none;
}

abbrev narrow_scope : AuthorizationScope
narrow_scope = record scope { maximum_risk_level = l1; allowed_target_ids = 41 ∷ [] }

approval_asked : (evaluate_action restart scope test 12).effect ≡ require_approval
unfolding evaluate_action denial_reasons reason_if risk_order load_test_violations requires_approval
    is_production contains
approval_asked = refl

denied_reasons :
    (evaluate_action restart narrow_scope test 25).reason_codes
    ≡ target_out_of_scope ∷ scope_expired ∷ risk_exceeds_scope ∷ []
unfolding evaluate_action denial_reasons reason_if risk_order load_test_violations requires_approval
    is_production contains
denied_reasons = refl

narrow_denies : (evaluate_action restart narrow_scope test 25).effect ≡ deny
unfolding evaluate_action denial_reasons reason_if risk_order load_test_violations requires_approval
    is_production contains
narrow_denies = refl

evaluate_action-deny_iff_example :
    ((evaluate_action restart scope test 12).effect ≡ deny)
    ↔ ((r : ReasonCode) × Violates r restart scope 12)
evaluate_action-deny_iff_example = evaluate_action-deny_iff restart scope test 12

evaluate_action-reason_codes_example :
    In risk_exceeds_scope (evaluate_action restart narrow_scope test 25).reason_codes
    ↔ Violates risk_exceeds_scope restart narrow_scope 25
evaluate_action-reason_codes_example =
    evaluate_action-reason_codes restart narrow_scope test 25 narrow_denies risk_exceeds_scope

evaluate_action-allow_iff_example :
    ((evaluate_action restart scope test 12).effect ≡ allow)
    ↔ (((r : ReasonCode) → ¬ Violates r restart scope 12) × (¬ NeedsApproval restart test))
evaluate_action-allow_iff_example = evaluate_action-allow_iff restart scope test 12

abbrev pub wide_scope : AuthorizationScope
wide_scope = record scope { maximum_risk_level = l3; valid_until = none }

wider : IsWider wide_scope scope
unfolding risk_order
wider = record {
  targets = λ t m. m;
  types = λ t m. m;
  risk = omega arith;
  start = omega arith;
  end_time = tt;
  rps = tt;
  concurrency = tt;
  duration = tt;
}

evaluate_action-widening_example :
    (evaluate_action restart wide_scope test 12).effect
    ≡ (evaluate_action restart scope test 12).effect
evaluate_action-widening_example =
    evaluate_action-widening wide_scope scope restart test 12 wider
      (λ e. ground (arith, approval_asked))
