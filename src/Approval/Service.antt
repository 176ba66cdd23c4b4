-- ===== src/Approval/Service.antt =====
-- service/approval.py: creating, deciding and consuming approvals. The folder of JSON files is a
-- function from approval ids to records; an unreadable file is a missing one, as `get` treats it.
-- Instants are in microseconds. `list_records` only reads the folder and is not modelled.
-- A call runs as a whole: the source takes no lock between the read of a record and its write, so
-- that calls of several threads at once are outside this model.
pub mod OneTime
pub mod Authority
use zj_cyber_workbench.Prelude.{
  leb, if◌then◌else◌, ◌==◌, nat_eq, not, ℕ, ◌+◌, ◌*◌, Bool, true, false, Option, none, some, List,
  [],
}
use zj_cyber_workbench.Policy.{
  PolicyEffect, deny, TargetEnvironment, ReasonCode, ProposedAction, AuthorizationScope,
  PolicyDecision, evaluate_action,
}
use zj_cyber_workbench.Approval.Platform.{ApprovalClaims, Platform}
use zj_cyber_workbench.Approval.Token.{
  TokenError, Checked, action_hash, issue_approval_token, verify_approval_token,
}

pub data ApprovalStatus : Type 0 where
  pending granted rejected expired consumed : ApprovalStatus

pub record ApprovalRecord : Type 0 where
  pub approval_id : ℕ
  pub action : ProposedAction
  pub decision : PolicyDecision
  pub status : ApprovalStatus
  pub requester_id : ℕ
  pub approver_id : ℕ
  pub created_at : ℕ
  pub expires_at : ℕ

pub record ApprovalCreateRequest : Type 0 where
  pub action : ProposedAction
  pub scope : AuthorizationScope
  pub environment : TargetEnvironment
  pub approver_id : Option ℕ

pub data ServiceError : Type 0 where
  policy_denied : List ReasonCode → ServiceError
  not_found other_approver approval_expired not_pending not_granted : ServiceError
  token_error : TokenError → ServiceError

pub data Outcome (A : Type 0) : Type 0 where
  returned : A → Outcome A
  raised : ServiceError → Outcome A

abbrev pub Store : Type 0
Store = ℕ → Option ApprovalRecord

-- An operation gives its outcome and the folder that it leaves, also when it raises.
abbrev pub Action : Type 0 → Type 0
Action A = Store → Outcome A × Store

unfoldable pub write : ApprovalRecord → Store → Store
write r store id = if id == r.approval_id then some r else store id

-- `value or default` on an optional number.
abbrev pub or_default : Option ℕ → ℕ → ℕ
or_default none d = d
or_default (some n) d = if n == 0 then d else n

abbrev pub is_deny : PolicyEffect → Bool
is_deny deny = true
is_deny _ = false

abbrev pub is_pending : ApprovalStatus → Bool
is_pending pending = true
is_pending _ = false

abbrev pub is_granted : ApprovalStatus → Bool
is_granted granted = true
is_granted _ = false

abbrev pub with_status : ApprovalStatus → ApprovalRecord → ApprovalRecord
with_status s r = record r { status = s }

unfoldable pub new_record : ApprovalCreateRequest → PolicyDecision → ℕ → ℕ → ℕ → ApprovalRecord
new_record request decision requester_id default_approver_id now = record {
  approval_id = request.action.id;
  action = request.action;
  decision = decision;
  status = pending;
  requester_id = requester_id;
  approver_id = or_default request.approver_id default_approver_id;
  created_at = now;
  expires_at = now + 1000000 * or_default decision.approval_ttl_seconds 300;
}

-- The clock is read twice: by the policy (`evaluated_at`) and then for the record (`now`).
unfoldable pub create : ApprovalCreateRequest → ℕ → ℕ → ℕ → ℕ → Action ApprovalRecord
unfolding new_record
create request requester_id default_approver_id evaluated_at now store =
    let decision = evaluate_action request.action request.scope request.environment evaluated_at in
    let r = new_record request decision requester_id default_approver_id now in
    if is_deny decision.effect
    then (raised (policy_denied decision.reason_codes), store)
    else (returned r, write r store)

abbrev pub after_issue : ApprovalRecord → Checked (List ℕ) → Outcome (ApprovalRecord × List ℕ)
after_issue r (Checked.ok token) = returned (r, token)
after_issue r (Checked.refused e) = raised (token_error e)

module _ (p : Platform) (secret : List ℕ) where
  unfoldable pub claims_of : ApprovalRecord → ℕ → ApprovalClaims
  claims_of r approver_id = record {
    approval_id = r.approval_id;
    project_id = r.action.project_id;
    incident_id = r.action.incident_id;
    action_id = r.action.id;
    action_hash = action_hash p r.action;
    target_id = r.action.target_id;
    approver_id = approver_id;
    expires_at = r.expires_at;
  }

  unfoldable pub decide_record : ApprovalRecord → ℕ → Bool → ℕ → Action (ApprovalRecord × List ℕ)
  decide_record r approver_id approved now store =
      if not (r.approver_id == approver_id)
      then (raised other_approver, store)
      else if leb r.expires_at now
      then (raised approval_expired, write (with_status expired r) store)
      else if not (is_pending r.status)
      then (raised not_pending, store)
      else if not approved
      then (returned (with_status rejected r, []), write (with_status rejected r) store)
      else (
        after_issue (with_status granted r)
            (issue_approval_token p (claims_of (with_status granted r) approver_id) secret),
        write (with_status granted r) store,
      )

  abbrev pub decide_found : Option ApprovalRecord → ℕ → Bool → ℕ → Action (ApprovalRecord × List ℕ)
  decide_found none approver_id approved now store = (raised not_found, store)
  decide_found (some r) approver_id approved now store =
      decide_record r approver_id approved now store

  unfoldable pub decide : ℕ → ℕ → Bool → ℕ → Action (ApprovalRecord × List ℕ)
  decide approval_id approver_id approved now store =
      decide_found (store approval_id) approver_id approved now store

  unfoldable pub consume_record :
      Option ApprovalRecord → ApprovalClaims → Action (ApprovalRecord × ApprovalClaims)
  consume_record none claims store = (raised not_granted, store)
  consume_record (some r) claims store =
      if is_granted r.status
      then (returned (with_status consumed r, claims), write (with_status consumed r) store)
      else (raised not_granted, store)

  abbrev pub consume_verified : Checked ApprovalClaims → Action (ApprovalRecord × ApprovalClaims)
  consume_verified (Checked.refused e) store = (raised (token_error e), store)
  consume_verified (Checked.ok claims) store =
      consume_record (store claims.approval_id) claims store

  unfoldable pub consume :
      ProposedAction → List ℕ → ℕ → ℕ → Action (ApprovalRecord × ApprovalClaims)
  consume action token approver_id now store =
      consume_verified (verify_approval_token p token secret action approver_id now) store
