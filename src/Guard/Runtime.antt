-- ===== src/Guard/Runtime.antt =====
-- core/execution_guard.py: the guards that ask for a runtime permission, up to their wait and after.
use zj_cyber_workbench.Prelude.{
  leb, if◌then◌else◌, string_eq, ◌==◌, nat_eq, not, contains, ℕ, String, Bool, true, false, Option,
  none, some, [], ◌∷◌,
}
use zj_cyber_workbench.Json.{Json}
use zj_cyber_workbench.Policy.{RiskLevel, scope_and_policy_satisfied, risk_order}
use zj_cyber_workbench.Permissions.{
  PermissionDecision, pending, PermissionRequest, PendingPermission, Permissions, Answer, granted,
  refused, waits, is_full_access, require_permission, decision_text, resume_permission,
}
use zj_cyber_workbench.Guard.{
  Python, GuardContext, empty_target, diagnostic_out_of_scope, malformed_target, permission_refused,
  code, source, authorized, undecided, unauthorized, Guarded, line, needs_user_decision,
}

-- The request of a guard; its id and creation are those of the new object.
unfoldable pub permission_request :
    GuardContext
    → (action_type target reason : String) → RiskLevel
    → (details : Json) → (id now : ℕ) → PermissionRequest
permission_request context action_type target reason risk details id now = record {
  id = id;
  context = context.agent;
  action_type = action_type;
  target = target;
  reason = reason;
  risk_level = risk;
  details = details;
  status = pending;
  created_at = now;
  expires_at = now;
}

-- `grant_source or "runtime_permission"`
abbrev pub source_text : Option PermissionDecision → String
source_text none = "runtime_permission"
source_text (some d) = decision_text d

-- What a guard does with the answer on its permission; `waits` is the wait itself.
unfoldable pub after_permission :
    GuardContext → (action_type target : String) → Answer × Permissions → Guarded × Permissions
after_permission context action_type target (granted grant_source, st) =
    if is_full_access st.mode then ((authorized, []), st) else (
      (
        authorized,
        line context action_type target "allow" (source (source_text grant_source) ∷ []),
      ),
      st,
    )
after_permission context action_type target (refused error, st) =
    ((unauthorized (permission_refused error), []), st)
after_permission context action_type target (waits, st) = ((undecided, []), st)

-- The rest of a guard whose permission was waited for.
unfoldable pub resume_authorization :
    GuardContext → PendingPermission → (timeout : Bool) → Permissions → Guarded × Permissions
resume_authorization context p timeout st =
    after_permission context p.request.action_type p.request.target (resume_permission p timeout st)

-- By whether a decision of the user is needed.
unfoldable pub authorize_needed :
    GuardContext
    → (action_type normalized : String) → RiskLevel
    → (reason : String) → (details : Json) → (id now : ℕ) → Option Bool
    → Permissions
    → Guarded × Permissions
authorize_needed context action_type normalized risk reason details id now none st =
    ((unauthorized malformed_target, []), st)
authorize_needed context action_type normalized risk reason details id now (some true) st =
    after_permission context action_type normalized (
      require_permission
        (permission_request context action_type normalized reason risk details id now) st)
authorize_needed context action_type normalized risk reason details id now (some false) st = (
  (authorized, line context action_type normalized "allow" (code scope_and_policy_satisfied ∷ [])),
  st,
)

-- Up to the wait, if there is one.
unfoldable pub authorize_network_action_runtime :
    Python
    → GuardContext
    → (action_type target : String) → RiskLevel
    → (reason : String) → (details : Json) → (id now : ℕ) → Permissions
    → Guarded × Permissions
authorize_network_action_runtime py context action_type target risk reason details id now st =
    let normalized = py.strip target in
    if normalized == ""
    then ((unauthorized empty_target, []), st)
    else if is_full_access st.mode
    then ((authorized, []), st)
    else authorize_needed context action_type normalized risk reason details id now
        (needs_user_decision py context action_type normalized risk) st

unfoldable pub authorize_local_diagnostic : GuardContext → (action_type : String) → Guarded
authorize_local_diagnostic context action_type =
    if not (contains ("host.local.diagnostic" ∷ context.allowed_action_types) action_type)
    then (unauthorized diagnostic_out_of_scope, [])
    else (
      authorized,
      line context action_type "local://workspace" "allow" (code scope_and_policy_satisfied ∷ []),
    )

unfoldable pub authorize_local_action_runtime :
    GuardContext
    → (action_type target : String) → RiskLevel
    → (reason : String) → (details : Json) → (id now : ℕ) → Permissions
    → Guarded × Permissions
authorize_local_action_runtime context action_type target risk reason details id now st =
    if is_full_access st.mode
    then ((authorized, []), st)
    else if leb 2 (risk_order risk)
    then after_permission context action_type target (
        require_permission
          (permission_request context action_type target reason risk details id now) st)
    else (authorize_local_diagnostic context action_type, st)
