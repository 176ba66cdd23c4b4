-- ===== src/Approval/Platform.antt =====
-- What the approval code takes from the Python library and from pydantic: hashing, base64 and the
-- JSON forms of claims and actions. Bytes and characters are natural numbers.
use zj_cyber_workbench.Prelude.{
  length, All, In, ℕ, zero, suc, ◌+◌, ◌%◌, ◌<◌, ◌≡◌, Option, some, List, [], ◌∷◌, ◌++◌,
}
use zj_cyber_workbench.Policy.{ProposedAction}

pub record ApprovalClaims : Type 0 where
  pub approval_id : ℕ
  pub project_id : ℕ
  pub incident_id : ℕ
  pub action_id : ℕ
  pub action_hash : List ℕ
  pub target_id : ℕ
  pub approver_id : ℕ
  pub expires_at : ℕ

pub record Platform : Type 0 where
  pub sha256_hex : List ℕ → List ℕ
  pub hmac_sha256 : List ℕ → List ℕ → List ℕ
  pub urlsafe_b64encode : List ℕ → List ℕ
  pub urlsafe_b64decode : List ℕ → Option (List ℕ)
  -- `json.dumps(action.model_dump(mode="json", exclude={"id"}), ...).encode()`
  pub dump_action : ProposedAction → List ℕ
  pub dump_claims : ApprovalClaims → List ℕ
  pub load_claims : List ℕ → Option ApprovalClaims

abbrev pub NoneOf : List ℕ → List ℕ → Type 0
NoneOf cs xs = All (λ x. ¬ In x cs) xs

abbrev pub equals_sign : ℕ
equals_sign = b'='

abbrev pub dot : ℕ
dot = b'.'

abbrev pub repeat : ℕ → ℕ → List ℕ
repeat zero c = []
repeat (suc n) c = c ∷ repeat n c

-- RFC 4648: a text of the URL-safe alphabet, padded by `=` at its end to a multiple of four.
pub record EncodedForm (text : List ℕ) : Type 0 where
  pub body : List ℕ
  pub pad : ℕ
  pub split : text ≡ body ++ repeat pad equals_sign
  pub alphabet : NoneOf (equals_sign ∷ dot ∷ []) body
  pub short : pad < 4
  pub aligned : (length body + pad) % 4 ≡ 0

-- The documented behaviour of these functions that the theorems use.
pub record PlatformLaws (p : Platform) : Type 0 where
  pub encoded : (bytes : List ℕ) → EncodedForm (p.urlsafe_b64encode bytes)
  pub decode-encode :
      (bytes : List ℕ) → p.urlsafe_b64decode (p.urlsafe_b64encode bytes) ≡ some bytes
  pub load-dump : (claims : ApprovalClaims) → p.load_claims (p.dump_claims claims) ≡ some claims
