-- ===== src/Policy/Widening.antt =====
-- core/policy_engine.py: two scopes of which one is wider.
use zj_cyber_workbench.Prelude.{
  nat_eq, In, ℕ, ◌≤◌, ◌<◌, String, ◌≡◌, ◌≢◌, Option, none, some, arith,
}
use zj_cyber_workbench.Policy.{
  deny, TargetEnvironment, ReasonCode, target_out_of_scope, action_type_out_of_scope,
  scope_not_yet_valid, scope_expired, risk_exceeds_scope, write_missing_rollback,
  load_test_rps_exceeded, load_test_concurrency_exceeded, load_test_duration_exceeded,
  approval_required, scope_and_policy_satisfied, ProposedAction, AuthorizationScope, risk_order,
  evaluate_action,
}
use zj_cyber_workbench.Policy.Decision.{IsWithin, Violates, no_reasons_of, evaluate_action-deny_iff}

-- No maximum in the narrow scope, or a greater one in the wide scope.
abbrev pub MaximumLe : Option ℕ → Option ℕ → Type 0
MaximumLe none m' = Unit
MaximumLe (some m) none = ⊥
MaximumLe (some m) (some m') = m ≤ m'

abbrev pub StartsNoLater : Option ℕ → Option ℕ → Type 0
StartsNoLater f none = Unit
StartsNoLater none (some f') = ⊥
StartsNoLater (some f) (some f') = f' ≤ f

abbrev pub EndsNoEarlier : Option ℕ → Option ℕ → Type 0
EndsNoEarlier u none = Unit
EndsNoEarlier none (some u') = ⊥
EndsNoEarlier (some u) (some u') = u ≤ u'

pub record IsWider (wide narrow : AuthorizationScope) : Type 0 where
  pub targets : (t : ℕ) → In t narrow.allowed_target_ids → In t wide.allowed_target_ids
  pub types : (t : String) → In t narrow.allowed_action_types → In t wide.allowed_action_types
  pub risk : risk_order narrow.maximum_risk_level ≤ risk_order wide.maximum_risk_level
  pub start : StartsNoLater narrow.valid_from wide.valid_from
  pub end_time : EndsNoEarlier narrow.valid_until wide.valid_until
  pub rps : MaximumLe narrow.max_load_test_rps wide.max_load_test_rps
  pub concurrency : MaximumLe narrow.max_load_test_concurrency wide.max_load_test_concurrency
  pub duration : MaximumLe narrow.max_load_test_duration_seconds wide.max_load_test_duration_seconds

IsWithin-mono : (r m m' : Option ℕ) → MaximumLe m m' → IsWithin r m → IsWithin r m'
IsWithin-mono none m m' h w = w
IsWithin-mono (some r) none m' h w = absurd w
IsWithin-mono (some r) (some m) none h w = absurd h
IsWithin-mono (some r) (some m) (some m') h w = omega arith

start_mono :
    (now : ℕ) (f f' : Option ℕ)
    → StartsNoLater f f'
    → ((t : ℕ) × (f' ≡ some t) × (now < t))
    → (t : ℕ) × (f ≡ some t) × (now < t)
start_mono now f none h (t, e, l) = cc
start_mono now none (some f') h v = absurd h
start_mono now (some f) (some f') h (t, e, l) = (f, ground arith, ground arith)

end_mono :
    (now : ℕ) (u u' : Option ℕ)
    → EndsNoEarlier u u'
    → ((t : ℕ) × (u' ≡ some t) × (t ≤ now))
    → (t : ℕ) × (u ≡ some t) × (t ≤ now)
end_mono now u none h (t, e, l) = cc
end_mono now none (some u') h v = absurd h
end_mono now (some u) (some u') h (t, e, l) = (u, ground arith, ground arith)

module _ {wide narrow : AuthorizationScope} (w : IsWider wide narrow) where
  Violates-mono :
      (r : ReasonCode) (a : ProposedAction) (now : ℕ)
      → Violates r a wide now
      → Violates r a narrow now
  Violates-mono target_out_of_scope a now v = λ m. v (w.targets a.target_id m)
  Violates-mono action_type_out_of_scope a now v = λ m. v (w.types a.action_type m)
  Violates-mono scope_not_yet_valid a now v = start_mono now _ _ w.start v
  Violates-mono scope_expired a now v = end_mono now _ _ w.end_time v
  Violates-mono risk_exceeds_scope a now v = omega (arith, w.risk)
  Violates-mono write_missing_rollback a now v = v
  Violates-mono load_test_rps_exceeded a now (e, n) = (e, λ h. n (IsWithin-mono _ _ _ w.rps h))
  Violates-mono load_test_concurrency_exceeded a now (e, n) =
      (e, λ h. n (IsWithin-mono _ _ _ w.concurrency h))
  Violates-mono load_test_duration_exceeded a now (e, n) =
      (e, λ h. n (IsWithin-mono _ _ _ w.duration h))
  Violates-mono approval_required a now v = v
  Violates-mono scope_and_policy_satisfied a now v = v

-- What a scope does not deny, a wider scope decides with the same effect.
pub evaluate_action-widening :
    (wide narrow : AuthorizationScope) (a : ProposedAction) (env : TargetEnvironment) (now : ℕ)
    → IsWider wide narrow
    → (evaluate_action a narrow env now).effect ≢ deny
    → (evaluate_action a wide env now).effect ≡ (evaluate_action a narrow env now).effect
unfolding evaluate_action
evaluate_action-widening wide narrow a env now w h =
    let clean : (r : ReasonCode) → ¬ Violates r a narrow now =
      λ r v. h ((evaluate_action-deny_iff a narrow env now).1 (r, v)) in
    ground (
      arith,
      no_reasons_of a narrow now clean,
      no_reasons_of a wide now (λ r v. clean r (Violates-mono w r a now v)),
    )
