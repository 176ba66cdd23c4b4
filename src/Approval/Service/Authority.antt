-- ===== src/Approval/Service/Authority.antt =====
-- Who can grant an approval, and what a consumed one was granted for.
use zj_cyber_workbench.Prelude.{
  nat_eq, ℕ, ◌+◌, ◌<◌, ◌≡◌, refl, sym, ap, ◌∙◌, ◌≢◌, Bool, Option, none, some, List, arith,
}
use zj_cyber_workbench.Policy.{deny, ProposedAction, evaluate_action}
use zj_cyber_workbench.Approval.Platform.{ApprovalClaims, Platform, PlatformLaws}
use zj_cyber_workbench.Approval.Token.{
  Checked, action_hash, issue_approval_token, verify_approval_token,
}
use zj_cyber_workbench.Approval.Token.Verification.{
  Matches, verify-issue, verify_approval_token-Matches,
}
use zj_cyber_workbench.Approval.Service.{
  pending, granted, consumed, ApprovalRecord, ApprovalCreateRequest, returned, Store, write,
  with_status, create, after_issue, claims_of, decide_record, decide_found, decide, consume_record,
  consume_verified, consume,
}

-- An approval that was created is pending, for an action that the policy does not deny, and lasts
-- 300 seconds; a denied request leaves the folder as it was.
create_lem :
    (q : ApprovalCreateRequest) (requester default_approver evaluated_at now : ℕ) (store : Store)
    {r : ApprovalRecord} {after : Store}
    → create q requester default_approver evaluated_at now store ≡ (returned r, after)
    → ((evaluate_action q.action q.scope q.environment evaluated_at).effect ≢ deny)
      × (r.status ≡ pending)
      × (r.action ≡ q.action)
      × (r.expires_at ≡ now + 300000000)
      × (after q.action.id ≡ some r)
unfolding create write evaluate_action
create_lem q requester default_approver evaluated_at now store h = ground arith

after_issue-returned :
    (q : ApprovalRecord) (v : Checked (List ℕ)) {r : ApprovalRecord} {token : List ℕ}
    → after_issue q v ≡ returned (r, token)
    → (q ≡ r) × (v ≡ Checked.ok token)
after_issue-returned q (Checked.ok t) h = ground arith
after_issue-returned q (Checked.refused e) h = cc

module _ (p : Platform) (secret : List ℕ) where
  -- The record from which an approver grants: its approver, not yet expired, still pending.
  pub record IsGrantable (store : Store) (approval_id approver_id now : ℕ) (r : ApprovalRecord)
      : Type 0 where
    pub stored : store approval_id ≡ some r
    pub own : r.approver_id ≡ approver_id
    pub in_time : now < r.expires_at
    pub undecided : r.status ≡ pending

  grantable :
      (store : Store) (id approver now : ℕ) (approved : Bool) (o : Option ApprovalRecord)
      {r : ApprovalRecord} {token : List ℕ} {after : Store}
      → store id ≡ o
      → decide_found p secret o approver approved now store ≡ (returned (r, token), after)
      → r.status ≡ granted
      → (q : ApprovalRecord) × IsGrantable store id approver now q
        × (r ≡ with_status granted q)
        × (issue_approval_token p (claims_of p secret r approver) secret ≡ Checked.ok token)
        × (after ≡ write r store)
  unfolding decide_record
  grantable store id approver now approved none e h g = cc
  grantable store id approver now approved (some q) e h g = (
    q,
    record { stored = e; own = ground arith; in_time = ground arith; undecided = ground arith },
    ground arith,
    ground (
      arith,
      after_issue-returned (with_status granted q)
          (issue_approval_token p (claims_of p secret (with_status granted q) approver) secret),
    ),
    ground arith,
  )

  -- A grant is made only by the record's own approver, before it expires and while it is pending;
  -- it changes nothing but that record's status.
  pub decide-granted :
      (store : Store) (id approver now : ℕ) (approved : Bool) {r : ApprovalRecord} {token : List ℕ}
      {after : Store}
      → decide p secret id approver approved now store ≡ (returned (r, token), after)
      → r.status ≡ granted
      → (q : ApprovalRecord) × IsGrantable store id approver now q
        × (r ≡ with_status granted q)
        × (after ≡ write (with_status granted q) store)
  unfolding decide
  decide-granted store id approver now approved h g =
      let (q, can, same, issued, left) =
        grantable store id approver now approved (store id) refl h g in
      (q, can, same, left ∙ ap (λ x. write x store) same)

  consumed_from :
      (store : Store) (o : Option ApprovalRecord) (c : ApprovalClaims) {r : ApprovalRecord}
      {claims : ApprovalClaims} {after : Store}
      → consume_record p secret o c store ≡ (returned (r, claims), after)
      → (q : ApprovalRecord) × (o ≡ some q)
        × (q.status ≡ granted)
        × (r ≡ with_status consumed q)
        × (claims ≡ c)
        × (after ≡ write (with_status consumed q) store)
  unfolding consume_record
  consumed_from store none c h = cc
  consumed_from store (some q) c h =
      (q, refl, ground arith, ground arith, ground arith, ground arith)

  verified_from :
      (store : Store) (v : Checked ApprovalClaims) {r : ApprovalRecord} {claims : ApprovalClaims}
      {after : Store}
      → consume_verified p secret v store ≡ (returned (r, claims), after)
      → (v ≡ Checked.ok claims)
        × ((q : ApprovalRecord) × (store claims.approval_id ≡ some q)
            × (q.status ≡ granted)
            × (r ≡ with_status consumed q)
            × (after ≡ write (with_status consumed q) store))
  verified_from store (Checked.refused e) h = cc
  verified_from store (Checked.ok c) h =
      let (q, e, g, same, claimed, left) = consumed_from store (store c.approval_id) c h in
      (
        ap Checked.ok (sym claimed),
        (q, ap store (ap (λ (x : ApprovalClaims). x.approval_id) claimed) ∙ e, g, same, left),
      )

  -- Only a granted approval is consumed, with claims that match the action, the approver and the
  -- moment; the record is then marked consumed and nothing else changes.
  pub consume-granted :
      (store : Store) (action : ProposedAction) (token : List ℕ) (approver now : ℕ)
      {r : ApprovalRecord} {claims : ApprovalClaims} {after : Store}
      → consume p secret action token approver now store ≡ (returned (r, claims), after)
      → Matches p claims action approver now
        × ((q : ApprovalRecord) × (store claims.approval_id ≡ some q)
            × (q.status ≡ granted)
            × (r ≡ with_status consumed q)
            × (after ≡ write (with_status consumed q) store))
  unfolding consume
  consume-granted store action token approver now {claims = claims} h =
      let (verified, rest) =
        verified_from store (verify_approval_token p token secret action approver now) h in
      ((verify_approval_token-Matches p token secret action approver now claims verified).1, rest)

  claims_of-Matches :
      (r : ApprovalRecord) (approver now : ℕ)
      → now < r.expires_at
      → Matches p (claims_of p secret r approver) r.action approver now
  unfolding claims_of action_hash
  claims_of-Matches r approver now t = record {
    valid = t;
    action_id = refl;
    content = refl;
    target_id = refl;
    incident_id = refl;
    project_id = refl;
    approver = refl;
  }

  consume_record-write :
      (r : ApprovalRecord) (c : ApprovalClaims) (store : Store) {after : Store}
      → after ≡ write r store
      → r.status ≡ granted
      → consume_record p secret (after r.approval_id) c after
        ≡ (returned (with_status consumed r, c), write (with_status consumed r) after)
  unfolding consume_record
  consume_record-write r c store left g =
      let found : write r store r.approval_id ≡ some r = unfold write in ground arith in
      rw left (rw found (rw g))

  -- The whole way: the token that a grant returns is accepted for the granted action, by the same
  -- approver, until the approval expires, and consumes the record.
  pub consume_after_grant :
      (laws : PlatformLaws p) (store : Store) (id approver now later : ℕ) (approved : Bool)
      {r : ApprovalRecord} {token : List ℕ} {after : Store}
      → decide p secret id approver approved now store ≡ (returned (r, token), after)
      → r.status ≡ granted
      → later < r.expires_at
      → consume p secret r.action token approver later after ≡ (
        returned (with_status consumed r, claims_of p secret r approver),
        write (with_status consumed r) after,
      )
  unfolding decide consume claims_of
  consume_after_grant laws store id approver now later approved {r = r} {token = token} h g t =
      let (q, can, same, issued, left) =
        grantable store id approver now approved (store id) refl h g in
      let m : Matches p (claims_of p secret r approver) r.action approver later =
        claims_of-Matches r approver later t in
      rw
        (verify-issue p laws (claims_of p secret r approver) secret token r.action approver later
          issued m)
        (consume_record-write r (claims_of p secret r approver) store left g)
