-- ===== src/Approval/Token.antt =====
-- core/approval_gate.py: approval tokens, issued and verified.
pub mod Codec
pub mod Verification
use zj_cyber_workbench.Prelude.{
  ltb, leb, if◌then◌else◌, ◌==◌, nat_eq, not, ◌&&◌, ◌||◌, length, ℕ, ◌-◌, ◌%◌, ◌≡◌, refl, Bool,
  true, false, Option, none, some, List, [], ◌∷◌, ◌++◌,
}
use zj_cyber_workbench.Policy.{ProposedAction}
use zj_cyber_workbench.Approval.Platform.{ApprovalClaims, Platform, equals_sign, dot, repeat}

pub data TokenError : Type 0 where
  malformed_token invalid_signature invalid_claims token_expired : TokenError
  action_mismatch target_mismatch project_mismatch : TokenError
  short_secret : TokenError

pub data Checked (A : Type 0) : Type 0 where
  ok : A → Checked A
  refused : TokenError → Checked A

-- A raised error ends the function that is being run.
infixl 5 ◌>>=◌ ◌>>◌
abbrev pub ◌>>=◌ : {A B : Type 0} → Checked A → (A → Checked B) → Checked B
refused reason >>= next = refused reason
ok value >>= next = next value

pub >>=-eq-ok :
    {A B : Type 0} (first : Checked A) (next : A → Checked B) {result : B}
    → (first >>= next) ≡ ok result
    → (value : A) × (first ≡ ok value) × (next value ≡ ok result)
>>=-eq-ok (refused reason) next e = cc
>>=-eq-ok (ok value) next e = (value, refl, e)

abbrev pub ◌>>◌ : {B : Type 0} → Checked (Unit {0}) → Checked B → Checked B
check >> next = check >>= λ _. next

-- `if failed: raise error`
abbrev pub reject_if : Bool → TokenError → Checked (Unit {0})
reject_if failed e = if failed then refused e else ok tt

abbrev pub or_raise : {A : Type 0} → Option A → TokenError → Checked A
or_raise none e = refused e
or_raise (some a) e = ok a

-- `bytes.rstrip(b"=")`
unfoldable pub rstrip_equals : List ℕ → List ℕ
rstrip_equals [] = []
rstrip_equals (c ∷ cs) =
    let rest = rstrip_equals cs in
    elim rest [ [] ↦ if c == equals_sign then [] else c ∷ [] | d ∷ ds ↦ c ∷ d ∷ ds ]

-- `token.split(".", maxsplit=1)`; `none` is the failing unpack of one part.
unfoldable pub split_dot : List ℕ → Option (List ℕ × List ℕ)
split_dot [] = none
split_dot (c ∷ cs) =
    let rest = split_dot cs in
    if c == dot then some ([], cs) else elim rest [ none ↦ none | some (a, b) ↦ some (c ∷ a, b) ]

-- `-len(value) % 4`, Python's non-negative remainder.
unfoldable pub padding_of : ℕ → ℕ
padding_of n = (4 - n % 4) % 4

-- Python's `==` on byte strings and texts.
unfoldable pub same_bytes : List ℕ → List ℕ → Bool
same_bytes [] [] = true
same_bytes (x ∷ xs) (y ∷ ys) = x == y && same_bytes xs ys
same_bytes _ _ = false

module _ (p : Platform) where
  unfoldable pub action_hash : ProposedAction → List ℕ
  action_hash action = p.sha256_hex (p.dump_action action)

  unfoldable pub encode : List ℕ → List ℕ
  encode value = rstrip_equals (p.urlsafe_b64encode value)

  unfoldable pub decode : List ℕ → Option (List ℕ)
  decode value = p.urlsafe_b64decode (value ++ repeat (padding_of (length value)) equals_sign)

  unfoldable pub validate_secret : List ℕ → Checked (Unit {0})
  validate_secret secret = reject_if (ltb (length secret) 32) short_secret

  unfoldable pub issue_approval_token : ApprovalClaims → List ℕ → Checked (List ℕ)
  issue_approval_token claims secret = do
    validate_secret secret
    let body = p.dump_claims claims
    let signature = p.hmac_sha256 secret body
    ok (encode body ++ (dot ∷ encode signature))

  -- The `try` block of `verify_approval_token`.
  unfoldable pub read_token : List ℕ → Checked (List ℕ × List ℕ)
  read_token token = do
    (body_part, signature_part) ← or_raise (split_dot token) malformed_token
    body ← or_raise (decode body_part) malformed_token
    signature ← or_raise (decode signature_part) malformed_token
    ok (body, signature)

  unfoldable pub check_claims : ApprovalClaims → ProposedAction → ℕ → ℕ → Checked ApprovalClaims
  check_claims claims action approver_id now = do
    reject_if (leb claims.expires_at now) token_expired
    reject_if
        (not (claims.action_id == action.id)
          || not (same_bytes claims.action_hash (action_hash action)))
        action_mismatch
    reject_if
        (not (claims.target_id == action.target_id)
          || not (claims.incident_id == action.incident_id))
        target_mismatch
    reject_if
        (not (claims.project_id == action.project_id) || not (claims.approver_id == approver_id))
        project_mismatch
    ok claims

  unfoldable pub verify_approval_token :
      List ℕ → List ℕ → ProposedAction → ℕ → ℕ → Checked ApprovalClaims
  verify_approval_token token secret action approver_id now = do
    validate_secret secret
    (body, signature) ← read_token token
    reject_if (not (same_bytes signature (p.hmac_sha256 secret body))) invalid_signature
    claims ← or_raise (p.load_claims body) invalid_claims
    check_claims claims action approver_id now
