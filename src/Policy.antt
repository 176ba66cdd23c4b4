-- ===== src/Policy.antt =====
-- core/policy_engine.py with the records of schema/action.py and schema/incident.py: the policy
-- decision on a proposed action. UUIDs and instants are natural numbers, sets are lists, and a
-- reason code is a constructor spelled like the string of the source.
pub mod Decision
pub mod Widening
pub mod Tests
use zj_cyber_workbench.Prelude.{
  ℕ, String, Bool, true, false, not, ◌&&◌, ◌||◌, Option, none, some, List, [], ◌∷◌, ◌++◌, contains,
  nat_eq, string_eq, ltb, leb, if◌then◌else◌,
}
use zj_cyber_workbench.Json.{Json}

pub data RiskLevel : Type 0 where
  l0 l1 l2 l3 : RiskLevel

pub data PolicyEffect : Type 0 where
  allow require_approval deny : PolicyEffect

pub data TargetEnvironment : Type 0 where
  development test staging production : TargetEnvironment

pub data ReasonCode : Type 0 where
  target_out_of_scope action_type_out_of_scope scope_not_yet_valid scope_expired : ReasonCode
  risk_exceeds_scope write_missing_rollback : ReasonCode
  load_test_rps_exceeded load_test_concurrency_exceeded load_test_duration_exceeded : ReasonCode
  approval_required scope_and_policy_satisfied : ReasonCode

pub record ProposedAction : Type 0 where
  pub id : ℕ
  pub project_id : ℕ
  pub incident_id : ℕ
  pub target_id : ℕ
  pub action_type : String
  pub arguments : Json
  pub risk_level : RiskLevel
  pub reason : String
  pub is_write : Bool
  pub is_load_test : Bool
  pub prechecks : List String
  pub verification_steps : List String
  pub rollback_steps : List String
  pub requested_rps : Option ℕ
  pub requested_concurrency : Option ℕ
  pub requested_duration_seconds : Option ℕ

pub record AuthorizationScope : Type 0 where
  pub allowed_target_ids : List ℕ
  pub allowed_action_types : List String
  pub maximum_risk_level : RiskLevel
  pub valid_from : Option ℕ
  pub valid_until : Option ℕ
  pub max_load_test_rps : Option ℕ
  pub max_load_test_concurrency : Option ℕ
  pub max_load_test_duration_seconds : Option ℕ

pub record ScopeConstraints : Type 0 where
  pub maximum_risk_level : RiskLevel
  pub max_load_test_rps : Option ℕ
  pub max_load_test_concurrency : Option ℕ
  pub max_load_test_duration_seconds : Option ℕ

pub record PolicyDecision : Type 0 where
  pub effect : PolicyEffect
  pub risk_level : RiskLevel
  pub reason_codes : List ReasonCode
  pub constraints : ScopeConstraints
  pub approval_ttl_seconds : Option ℕ
  pub decided_at : ℕ

unfoldable pub risk_order : RiskLevel → ℕ
risk_order l0 = 0
risk_order l1 = 1
risk_order l2 = 2
risk_order l3 = 3

abbrev pub window_is_empty : Option ℕ → Option ℕ → Bool
window_is_empty (some from) (some until) = leb until from
window_is_empty (some from) none = false
window_is_empty none until = false

-- The pydantic validator of a scope: `none` is its `ValueError`.
unfoldable pub validate_window : AuthorizationScope → Option AuthorizationScope
validate_window scope =
    if window_is_empty scope.valid_from scope.valid_until then none else some scope

abbrev pub is_empty {ℓ} : {A : Type ℓ} → List A → Bool
is_empty [] = true
is_empty (x ∷ xs) = false

-- `if test: reasons.append(reason)`
unfoldable pub reason_if : Bool → ReasonCode → List ReasonCode
reason_if b reason = if b then reason ∷ [] else []

abbrev pub before : ℕ → Option ℕ → Bool
before now none = false
before now (some from) = ltb now from

abbrev pub at_or_after : ℕ → Option ℕ → Bool
at_or_after now none = false
at_or_after now (some until) = leb until now

-- `requested is None or maximum is None or requested > maximum`
unfoldable pub exceeds : Option ℕ → Option ℕ → Bool
exceeds none maximum = true
exceeds (some requested) none = true
exceeds (some requested) (some maximum) = ltb maximum requested

unfoldable pub load_test_violations : ProposedAction → AuthorizationScope → List ReasonCode
load_test_violations action scope =
    if not action.is_load_test
    then []
    else reason_if (exceeds action.requested_rps scope.max_load_test_rps) load_test_rps_exceeded
      ++ reason_if (exceeds action.requested_concurrency scope.max_load_test_concurrency)
          load_test_concurrency_exceeded
      ++ reason_if (exceeds action.requested_duration_seconds scope.max_load_test_duration_seconds)
          load_test_duration_exceeded

unfoldable pub scope_constraints : AuthorizationScope → ScopeConstraints
scope_constraints scope = record {
  maximum_risk_level = scope.maximum_risk_level;
  max_load_test_rps = scope.max_load_test_rps;
  max_load_test_concurrency = scope.max_load_test_concurrency;
  max_load_test_duration_seconds = scope.max_load_test_duration_seconds;
}

-- The `reasons` that `evaluate_action` collects, in its order.
unfoldable pub denial_reasons : ProposedAction → AuthorizationScope → ℕ → List ReasonCode
denial_reasons action scope now =
    reason_if (not (contains scope.allowed_target_ids action.target_id)) target_out_of_scope
    ++ reason_if (not (contains scope.allowed_action_types action.action_type))
        action_type_out_of_scope
    ++ reason_if (before now scope.valid_from) scope_not_yet_valid
    ++ reason_if (at_or_after now scope.valid_until) scope_expired
    ++ reason_if (ltb (risk_order scope.maximum_risk_level) (risk_order action.risk_level))
        risk_exceeds_scope
    ++ reason_if (action.is_write && is_empty action.rollback_steps) write_missing_rollback
    ++ load_test_violations action scope

unfoldable pub is_production : TargetEnvironment → Bool
is_production production = true
is_production _ = false

unfoldable pub requires_approval : ProposedAction → TargetEnvironment → Bool
requires_approval action environment =
    leb (risk_order l2) (risk_order action.risk_level)
    || (is_production environment && action.is_write)

unfoldable pub evaluate_action :
    ProposedAction → AuthorizationScope → TargetEnvironment → ℕ → PolicyDecision
evaluate_action action scope environment now =
    let reasons = denial_reasons action scope now in
    let approval = requires_approval action environment in
    if is_empty reasons
    then record {
      effect = if approval then require_approval else allow;
      risk_level = action.risk_level;
      reason_codes = if approval then approval_required ∷ [] else scope_and_policy_satisfied ∷ [];
      constraints = scope_constraints scope;
      approval_ttl_seconds = if approval then some 300 else none;
      decided_at = now;
    }
    else record {
      effect = deny;
      risk_level = action.risk_level;
      reason_codes = reasons;
      constraints = scope_constraints scope;
      approval_ttl_seconds = none;
      decided_at = now;
    }
