-- ===== src/Permissions.antt =====
-- service/runtime_permissions.py with schema/runtime_permissions.py: a tool call waits until the
-- user decides on it. `require_permission` runs in two parts, before and after its wait, and other
-- calls come between them. UUIDs and instants are numbers, in seconds. Writes to the audit file and
-- to the rules are taken to succeed; the source drops an audit line that cannot be written. The
-- times of audit lines are left out, and the agent's name, which the source fills with its code.
pub mod Decisions
pub mod Rules
pub mod Tests
use zj_cyber_workbench.Prelude.{
  ltb, if◌then◌else◌, string_eq, ◌==◌, nat_eq, not, ◌&&◌, length, filter, any, first_where,
  update_where, ℕ, ◌+◌, String, Bool, true, false, Option, none, some, List, [], ◌∷◌, ◌++◌, map,
}
use zj_cyber_workbench.Json.{Json}
use zj_cyber_workbench.Policy.{RiskLevel}

pub data PermissionMode : Type 0 where
  normal full_access : PermissionMode

pub data PermissionDecision : Type 0 where
  reject allow_once always_allow : PermissionDecision

pub data PermissionStatus : Type 0 where
  pending allowed rejected expired : PermissionStatus

-- The part of an agent's context that the permissions read.
pub record AgentContext : Type 0 where
  pub session_id : String
  pub agent_code : String
  pub user_id : ℕ

pub record PermissionRequest : Type 0 where
  pub id : ℕ
  pub context : AgentContext
  pub action_type : String
  pub target : String
  pub reason : String
  pub risk_level : RiskLevel
  pub details : Json
  pub status : PermissionStatus
  pub created_at : ℕ
  pub expires_at : ℕ

-- `_PendingPermission`: its event is set exactly when it has a decision.
pub record PendingPermission : Type 0 where
  pub request : PermissionRequest
  pub decision : Option PermissionDecision

pub record PermissionRule : Type 0 where
  pub action_type : String
  pub target : String
  pub created_at : ℕ

pub record AuditLine : Type 0 where
  pub context : AgentContext
  pub action_type : String
  pub target : String
  pub effect : String
  pub source : String

pub record Permissions : Type 0 where
  pub mode : PermissionMode
  pub approval_timeout_seconds : ℕ
  pub rules : List PermissionRule
  pub waiting : List PendingPermission
  pub audit : List AuditLine

pub data PermissionError : Type 0 where
  timed_out user_rejected : PermissionError

-- What `require_permission` ends with: `granted none` is its bare `return`.
pub data Answer : Type 0 where
  granted : Option PermissionDecision → Answer
  refused : PermissionError → Answer
  waits : Answer

abbrev pub is_full_access : PermissionMode → Bool
is_full_access full_access = true
is_full_access normal = false

abbrev pub covers : (action_type target : String) → PermissionRule → Bool
covers action_type target rule = rule.action_type == action_type && rule.target == target

unfoldable pub rule_matches : (action_type target : String) → List PermissionRule → Bool
rule_matches action_type target rules = any (covers action_type target) rules

unfoldable pub add_rule :
    (action_type target : String) → (now : ℕ) → List PermissionRule → List PermissionRule
add_rule action_type target now rules =
    if rule_matches action_type target rules
    then rules
    else rules ++ (record { action_type = action_type; target = target; created_at = now } ∷ [])

abbrev pub write_audit : PermissionRequest → (effect source : String) → Permissions → Permissions
write_audit request effect source st = record st {
  audit =
      st.audit
      ++ (record {
        context = request.context;
        action_type = request.action_type;
        target = request.target;
        effect = effect;
        source = source;
      }
          ∷ []);
}

-- `require_permission`, up to its wait, for the request that it would make.
unfoldable pub require_permission : PermissionRequest → Permissions → Answer × Permissions
require_permission request st =
    let asked = record request {
      status = pending;
      expires_at = request.created_at + st.approval_timeout_seconds;
    } in
    if is_full_access st.mode
    then (granted none, st)
    else if rule_matches request.action_type request.target st.rules
    then (granted (some always_allow), write_audit request "allow" "always_allow" st)
    else (
      waits,
      record st { waiting = st.waiting ++ (record { request = asked; decision = none } ∷ []) },
    )

abbrev pub has_request_id : ℕ → PendingPermission → Bool
has_request_id request_id p = p.request.id == request_id

abbrev pub get_pending : ℕ → Permissions → Option PendingPermission
get_pending request_id st = first_where (has_request_id request_id) st.waiting

-- `_pending.pop(request.id, None)`
unfoldable pub pop_pending : ℕ → Permissions → Permissions
pop_pending request_id st = record st {
  waiting = filter (λ p. not (has_request_id request_id p)) st.waiting;
}

abbrev pub decision_text : PermissionDecision → String
decision_text reject = "reject"
decision_text allow_once = "allow_once"
decision_text always_allow = "always_allow"

unfoldable pub answer_decision :
    PermissionRequest → Option PermissionDecision → Permissions → Answer × Permissions
answer_decision request (some allow_once) st =
    (granted (some allow_once), write_audit request "allow" "allow_once" st)
answer_decision request (some always_allow) st =
    (granted (some always_allow), write_audit request "allow" "always_allow" st)
answer_decision request _ st =
    (refused user_rejected, write_audit request "deny" "user_rejected" st)

-- `require_permission` after its wait. The wait has ended by its timeout or by the event.
unfoldable pub resume_permission :
    PendingPermission → (timeout : Bool) → Permissions → Answer × Permissions
resume_permission p timeout st =
    let popped = pop_pending p.request.id st in
    if timeout
    then (refused timed_out, write_audit p.request "deny" "expired" popped)
    else if is_full_access st.mode
    then (granted none, popped)
    else answer_decision p.request p.decision popped

-- `list_pending`, without the order, which is by creation.
unfoldable pub list_pending : (requester_id now : ℕ) → Permissions → List PermissionRequest
list_pending requester_id now st =
    map (λ p. p.request)
      (filter (λ p. p.request.context.user_id == requester_id && ltb now p.request.expires_at)
        st.waiting)

abbrev pub is_always_allow : PermissionDecision → Bool
is_always_allow always_allow = true
is_always_allow _ = false

abbrev pub status_of : PermissionDecision → PermissionStatus
status_of reject = rejected
status_of _ = allowed

abbrev pub with_decision : PermissionDecision → PendingPermission → PendingPermission
with_decision decision p = record {
  request = record p.request { status = status_of decision };
  decision = some decision;
}

unfoldable pub decide_found :
    PendingPermission
    → (requester_id : ℕ) → PermissionDecision
    → (now : ℕ) → Permissions
    → Option PermissionRequest × Permissions
decide_found p requester_id decision now st =
    if not (p.request.context.user_id == requester_id) then (none, st) else (
      some (with_decision decision p).request,
      record st {
        rules =
            if is_always_allow decision
            then add_rule p.request.action_type p.request.target now st.rules
            else st.rules;
        waiting = update_where (has_request_id p.request.id) (with_decision decision) st.waiting;
      },
    )

-- `none` is the error for a request that is unknown or of another user.
unfoldable pub decide_pending :
    Option PendingPermission
    → (requester_id : ℕ) → PermissionDecision
    → (now : ℕ) → Permissions
    → Option PermissionRequest × Permissions
decide_pending none requester_id decision now st = (none, st)
decide_pending (some p) requester_id decision now st = decide_found p requester_id decision now st

unfoldable pub decide :
    (request_id requester_id : ℕ)
    → PermissionDecision
    → (now : ℕ) → Permissions
    → Option PermissionRequest × Permissions
decide request_id requester_id decision now st =
    decide_pending (get_pending request_id st) requester_id decision now st

unfoldable pub update_mode : PermissionMode → Permissions → Permissions
update_mode mode st = record st {
  mode = mode;
  waiting = if is_full_access mode then map (with_decision allow_once) st.waiting else st.waiting;
}

unfoldable pub clear_rules : Permissions → ℕ × Permissions
clear_rules st = (length st.rules, record st { rules = [] })
