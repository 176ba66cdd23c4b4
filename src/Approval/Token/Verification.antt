-- ===== src/Approval/Token/Verification.antt =====
-- What a verified token stands for.
use zj_cyber_workbench.Prelude.{
  nat_eq, not, ℕ, ◌<◌, ◌≡◌, sym, ap, ◌∙◌, true, some, List, ◌∷◌, ◌++◌, arith,
}
use zj_cyber_workbench.Policy.{ProposedAction}
use zj_cyber_workbench.Approval.Platform.{ApprovalClaims, Platform, dot, PlatformLaws}
use zj_cyber_workbench.Approval.Token.{
  invalid_signature, invalid_claims, ok, >>=-eq-ok, reject_if, or_raise, same_bytes, action_hash,
  encode, validate_secret, issue_approval_token, read_token, check_claims, verify_approval_token,
}
use zj_cyber_workbench.Approval.Token.Codec.{
  decode-encode, encode-NoneOf, split_dot-append, same_bytes_refl, same_bytes_eq,
}

-- The claims name the action, its content, its target, incident and project, and the approver.
pub record Matches (p : Platform) (claims : ApprovalClaims) (action : ProposedAction)
    (approver_id now : ℕ) : Type 0 where
  pub valid : now < claims.expires_at
  pub action_id : claims.action_id ≡ action.id
  pub content : claims.action_hash ≡ p.sha256_hex (p.dump_action action)
  pub target_id : claims.target_id ≡ action.target_id
  pub incident_id : claims.incident_id ≡ action.incident_id
  pub project_id : claims.project_id ≡ action.project_id
  pub approver : claims.approver_id ≡ approver_id

module _ (p : Platform) (claims : ApprovalClaims) (action : ProposedAction)
    (approver_id now : ℕ) where
  check_claims-Matches :
      {c : ApprovalClaims}
      → check_claims p claims action approver_id now ≡ ok c
      → (c ≡ claims) × Matches p claims action approver_id now
  unfolding check_claims action_hash
  check_claims-Matches h =
      ground (arith, same_bytes_eq claims.action_hash (p.sha256_hex (p.dump_action action)))

  Matches-check_claims :
      Matches p claims action approver_id now
      → check_claims p claims action approver_id now ≡ ok claims
  unfolding check_claims action_hash
  Matches-check_claims m =
      let same : same_bytes claims.action_hash (p.sha256_hex (p.dump_action action)) ≡ true =
        rw m.content (same_bytes_refl (p.sha256_hex (p.dump_action action))) in
      ground (arith, same)

issue-eq-ok :
    (p : Platform) (claims : ApprovalClaims) (secret : List ℕ) {token : List ℕ}
    → issue_approval_token p claims secret ≡ ok token
    → (validate_secret p secret ≡ ok tt)
      × (token
          ≡ encode p (p.dump_claims claims)
            ++ (dot ∷ encode p (p.hmac_sha256 secret (p.dump_claims claims))))
unfolding issue_approval_token validate_secret
issue-eq-ok p claims secret h = ground arith

module _ (p : Platform) (laws : PlatformLaws p) where
  read_token-issue :
      (body signature : List ℕ)
      → read_token p (encode p body ++ (dot ∷ encode p signature)) ≡ ok (body, signature)
  unfolding read_token
  read_token-issue body signature = simp (
    split_dot-append (encode p body) (encode p signature) (encode-NoneOf laws body),
    decode-encode laws,
  )

  -- A token issued with a secret of at least 32 bytes verifies under that secret and gives back
  -- its claims, at any action and moment that the claims match.
  pub verify-issue :
      (claims : ApprovalClaims) (secret token : List ℕ) (action : ProposedAction)
      (approver_id now : ℕ)
      → issue_approval_token p claims secret ≡ ok token
      → Matches p claims action approver_id now
      → verify_approval_token p token secret action approver_id now ≡ ok claims
  unfolding verify_approval_token
  verify-issue claims secret token action approver_id now h m =
      let (long, split) = issue-eq-ok p claims secret h in
      let body = p.dump_claims claims in
      simp (
        long,
        split,
        read_token-issue body (p.hmac_sha256 secret body),
        same_bytes_refl (p.hmac_sha256 secret body),
        laws.load-dump,
        Matches-check_claims p claims action approver_id now m,
      )

module _ (p : Platform) where
  -- What verification accepts: the two parts decode, the second is the HMAC of the first under
  -- the secret, the first reads as the claims returned, and these match the action, the approver
  -- and the moment.
  pub verify_approval_token-Matches :
      (token secret : List ℕ) (action : ProposedAction) (approver_id now : ℕ)
      (claims : ApprovalClaims)
      → verify_approval_token p token secret action approver_id now ≡ ok claims
      → ((body : List ℕ) × (read_token p token ≡ ok (body, p.hmac_sha256 secret body))
          × (p.load_claims body ≡ some claims))
        × Matches p claims action approver_id now
  unfolding verify_approval_token
  verify_approval_token-Matches token secret action approver_id now claims h =
      let (long, a0, h0) = >>=-eq-ok (validate_secret p secret) _ h in
      let (parts, a1, h1) = >>=-eq-ok (read_token p token) _ h0 in
      let differ = not (same_bytes parts.1 (p.hmac_sha256 secret parts.0)) in
      let (signed, a2, h2) = >>=-eq-ok (reject_if differ invalid_signature) _ h1 in
      let (read, a3, h3) = >>=-eq-ok (or_raise (p.load_claims parts.0) invalid_claims) _ h2 in
      let (same, m) = check_claims-Matches p read action approver_id now h3 in
      let good : parts.1 ≡ p.hmac_sha256 secret parts.0 =
        same_bytes_eq parts.1 (p.hmac_sha256 secret parts.0) (ground (arith, a2)) in
      let loaded : p.load_claims parts.0 ≡ some read = ground (arith, a3) in
      ((parts.0, a1 ∙ ap (λ sig. ok (parts.0, sig)) good, loaded ∙ ap some (sym same)), rw same m)
