-- ===== src/Policy/Decision.antt =====
-- The decision of `evaluate_action` against a description of each denial reason.
use zj_cyber_workbench.Prelude.{
  ltb, nat_beq, Eq, ◌==◌, nat_eq, string_eq, not, ◌&&◌, ◌||◌, In, contains, contains_iff,
  contains-append, ℕ, ◌≤◌, ◌<◌, ◌≡◌, refl, ◌≢◌, ◌↔◌, ◌⊎◌, inl, Bool, true, false, Option, none,
  some, List, [], ◌∷◌, arith,
}
use zj_cyber_workbench.Policy.{
  allow, require_approval, deny, TargetEnvironment, production, ReasonCode, target_out_of_scope,
  action_type_out_of_scope, scope_not_yet_valid, scope_expired, risk_exceeds_scope,
  write_missing_rollback, load_test_rps_exceeded, load_test_concurrency_exceeded,
  load_test_duration_exceeded, approval_required, scope_and_policy_satisfied, ProposedAction,
  AuthorizationScope, risk_order, is_empty, reason_if, before, at_or_after, exceeds,
  load_test_violations, denial_reasons, is_production, requires_approval, evaluate_action,
}

abbrev pub IsWithin : Option ℕ → Option ℕ → Type 0
IsWithin (some requested) (some maximum) = requested ≤ maximum
IsWithin _ _ = ⊥

abbrev pub Violates : ReasonCode → ProposedAction → AuthorizationScope → ℕ → Type 0
Violates target_out_of_scope a s now = ¬ In a.target_id s.allowed_target_ids
Violates action_type_out_of_scope a s now = ¬ In a.action_type s.allowed_action_types
Violates scope_not_yet_valid a s now = (t : ℕ) × (s.valid_from ≡ some t) × (now < t)
Violates scope_expired a s now = (t : ℕ) × (s.valid_until ≡ some t) × (t ≤ now)
Violates risk_exceeds_scope a s now = risk_order s.maximum_risk_level < risk_order a.risk_level
Violates write_missing_rollback a s now = (a.is_write ≡ true) × (a.rollback_steps ≡ [])
Violates load_test_rps_exceeded a s now =
    (a.is_load_test ≡ true) × (¬ IsWithin a.requested_rps s.max_load_test_rps)
Violates load_test_concurrency_exceeded a s now =
    (a.is_load_test ≡ true) × (¬ IsWithin a.requested_concurrency s.max_load_test_concurrency)
Violates load_test_duration_exceeded a s now =
    (a.is_load_test ≡ true)
    × (¬ IsWithin a.requested_duration_seconds s.max_load_test_duration_seconds)
Violates approval_required a s now = ⊥
Violates scope_and_policy_satisfied a s now = ⊥

exceeds_iff : (r m : Option ℕ) → (exceeds r m ≡ true) ↔ (¬ IsWithin r m)
unfolding exceeds
exceeds_iff none m = ground arith
exceeds_iff (some r) none = ground arith
exceeds_iff (some r) (some m) = ground arith

abbrev code : ReasonCode → ℕ
code target_out_of_scope = 0
code action_type_out_of_scope = 1
code scope_not_yet_valid = 2
code scope_expired = 3
code risk_exceeds_scope = 4
code write_missing_rollback = 5
code load_test_rps_exceeded = 6
code load_test_concurrency_exceeded = 7
code load_test_duration_exceeded = 8
code approval_required = 9
code scope_and_policy_satisfied = 10

reason_beq_iff : (r q : ReasonCode) → (nat_beq (code r) (code q) ≡ true) ↔ (r ≡ q)
reason_beq_iff r q = ground arith

instance abbrev reason_eq : Eq ReasonCode
reason_eq = record { same = λ r q. nat_beq (code r) (code q); same_iff = reason_beq_iff }

contains-reason_if : (r q : ReasonCode) (b : Bool) → contains (reason_if b q) r ≡ ((r == q) && b)
unfolding reason_if contains
contains-reason_if r q true = ground arith
contains-reason_if r q false = ground arith

module _ (a : ProposedAction) (s : AuthorizationScope) (now : ℕ) where
  abbrev test : ReasonCode → Bool
  test target_out_of_scope = not (contains s.allowed_target_ids a.target_id)
  test action_type_out_of_scope = not (contains s.allowed_action_types a.action_type)
  test scope_not_yet_valid = before now s.valid_from
  test scope_expired = at_or_after now s.valid_until
  test risk_exceeds_scope = ltb (risk_order s.maximum_risk_level) (risk_order a.risk_level)
  test write_missing_rollback = a.is_write && is_empty a.rollback_steps
  test load_test_rps_exceeded = a.is_load_test && exceeds a.requested_rps s.max_load_test_rps
  test load_test_concurrency_exceeded =
      a.is_load_test && exceeds a.requested_concurrency s.max_load_test_concurrency
  test load_test_duration_exceeded =
      a.is_load_test && exceeds a.requested_duration_seconds s.max_load_test_duration_seconds
  test approval_required = false
  test scope_and_policy_satisfied = false

  contains-load_test_violations :
      (r : ReasonCode)
      → contains (load_test_violations a s) r ≡ (
          a.is_load_test
          && ((r == load_test_rps_exceeded) && exceeds a.requested_rps s.max_load_test_rps
              || ((r == load_test_concurrency_exceeded)
                    && exceeds a.requested_concurrency s.max_load_test_concurrency
                  || (r == load_test_duration_exceeded)
                    && exceeds a.requested_duration_seconds s.max_load_test_duration_seconds)))
  unfolding load_test_violations contains reason_if exceeds
  contains-load_test_violations r = ground arith

  contains-denial_reasons : (r : ReasonCode) → contains (denial_reasons a s now) r ≡ test r
  unfolding denial_reasons
  contains-denial_reasons target_out_of_scope =
      simp (contains-append, contains-reason_if, contains-load_test_violations) (ground arith)
  contains-denial_reasons r =
      simp (contains-append, contains-reason_if, contains-load_test_violations) (ground arith)

  test_iff : (r : ReasonCode) → (test r ≡ true) ↔ Violates r a s now
  test_iff target_out_of_scope = ground (arith, contains_iff s.allowed_target_ids a.target_id)
  test_iff action_type_out_of_scope =
      ground (arith, contains_iff s.allowed_action_types a.action_type)
  test_iff load_test_rps_exceeded = ground (arith, exceeds_iff a.requested_rps s.max_load_test_rps)
  test_iff load_test_concurrency_exceeded =
      ground (arith, exceeds_iff a.requested_concurrency s.max_load_test_concurrency)
  test_iff load_test_duration_exceeded =
      ground (arith, exceeds_iff a.requested_duration_seconds s.max_load_test_duration_seconds)
  test_iff r = ground arith

  -- The collected reasons are exactly the reasons that apply.
  pub denial_reasons_iff : (r : ReasonCode) → In r (denial_reasons a s now) ↔ Violates r a s now
  denial_reasons_iff r =
      ground (arith, contains-denial_reasons r, test_iff r, contains_iff (denial_reasons a s now) r)

abbrev pub NeedsApproval : ProposedAction → TargetEnvironment → Type 0
NeedsApproval a env = (2 ≤ risk_order a.risk_level) ⊎ (env ≡ production) × (a.is_write ≡ true)

requires_approval_iff :
    (a : ProposedAction) (env : TargetEnvironment)
    → (requires_approval a env ≡ true) ↔ NeedsApproval a env
unfolding requires_approval is_production risk_order
requires_approval_iff a env = ground arith

head-Violates :
    (a : ProposedAction) (s : AuthorizationScope) (now : ℕ)
    → denial_reasons a s now ≢ []
    → (r : ReasonCode) × Violates r a s now
head-Violates a s now h = go (denial_reasons a s now) h (denial_reasons_iff a s now)
  where
    go :
        (l : List ReasonCode)
        → l ≢ []
        → ((r : ReasonCode) → In r l ↔ Violates r a s now)
        → (r : ReasonCode) × Violates r a s now
    go [] h iff = absurd (h refl)
    go (r ∷ l) h iff = (r, (iff r).0 (inl refl))

no_reasons :
    (a : ProposedAction) (s : AuthorizationScope) (now : ℕ)
    → denial_reasons a s now ≡ []
    → (r : ReasonCode) → ¬ Violates r a s now
no_reasons a s now e r v = rw e at ((denial_reasons_iff a s now r).1 v)

pub no_reasons_of :
    (a : ProposedAction) (s : AuthorizationScope) (now : ℕ)
    → ((r : ReasonCode) → ¬ Violates r a s now)
    → denial_reasons a s now ≡ []
no_reasons_of a s now c = go (denial_reasons a s now) (denial_reasons_iff a s now)
  where
    go : (l : List ReasonCode) → ((r : ReasonCode) → In r l ↔ Violates r a s now) → l ≡ []
    go [] iff = refl
    go (r ∷ l) iff = absurd (c r ((iff r).0 (inl refl)))

module _ (a : ProposedAction) (s : AuthorizationScope) (env : TargetEnvironment) (now : ℕ) where
  -- `evaluate_action` denies exactly when some denial reason applies to the action.
  pub evaluate_action-deny_iff :
      ((evaluate_action a s env now).effect ≡ deny) ↔ ((r : ReasonCode) × Violates r a s now)
  unfolding evaluate_action
  evaluate_action-deny_iff = (
    λ h. head-Violates a s now (λ e. ground arith),
    λ (r, v). ground (arith, λ (e : denial_reasons a s now ≡ []). no_reasons a s now e r v),
  )

  -- A denial lists exactly the reasons that apply.
  pub evaluate_action-reason_codes :
      (evaluate_action a s env now).effect ≡ deny
      → (r : ReasonCode) → In r (evaluate_action a s env now).reason_codes ↔ Violates r a s now
  unfolding evaluate_action
  evaluate_action-reason_codes h r = ground (arith, denial_reasons_iff a s now r)

  -- `evaluate_action` allows exactly when no denial reason applies and the action needs no
  -- approval: its risk is below L2, and it is no write in production.
  pub evaluate_action-allow_iff :
      ((evaluate_action a s env now).effect ≡ allow)
      ↔ (((r : ReasonCode) → ¬ Violates r a s now) × (¬ NeedsApproval a env))
  unfolding evaluate_action
  evaluate_action-allow_iff = (
    λ h. (no_reasons a s now (ground arith), ground (arith, requires_approval_iff a env)),
    λ (c, n). ground (arith, no_reasons_of a s now c, requires_approval_iff a env),
  )

  -- An approval is asked for exactly when no denial reason applies and the action needs approval.
  evaluate_action-approval_iff :
      ((evaluate_action a s env now).effect ≡ require_approval)
      ↔ (((r : ReasonCode) → ¬ Violates r a s now) × NeedsApproval a env)
  unfolding evaluate_action
  evaluate_action-approval_iff = (
    λ h. (no_reasons a s now (ground arith), ground (arith, requires_approval_iff a env)),
    λ (c, n). ground (arith, no_reasons_of a s now c, requires_approval_iff a env),
  )
