-- ===== src/Approval/Tests.antt =====
-- A concrete platform that meets its laws, and the theorems at it. Bytes are encoded as units of
-- four characters, one `A` for each unit of the number above the two signs that are excluded.
use zj_cyber_workbench.Approval.Service.Authority.{
  IsGrantable, decide-granted, consume-granted, consume_after_grant,
}
use zj_cyber_workbench.Approval.Token.Verification.{
  Matches, verify-issue, verify_approval_token-Matches,
}
use zj_cyber_workbench.Prelude.{
  nat_eq, length, contains, ℕ, ◌+◌, ◌-◌, ◌%◌, ◌≤◌, ◌≡◌, refl, ap, true, Option, none, some, List,
  [], ◌∷◌, ◌++◌, arith,
}
use zj_cyber_workbench.Policy.{
  test, risk_order, reason_if, load_test_violations, scope_constraints, denial_reasons,
  is_production, requires_approval, evaluate_action,
}
use zj_cyber_workbench.Policy.Tests.{restart, scope}
use zj_cyber_workbench.Approval.Platform.{
  ApprovalClaims, Platform, NoneOf, equals_sign, dot, repeat, PlatformLaws,
}
use zj_cyber_workbench.Approval.Token.{
  ok, rstrip_equals, split_dot, padding_of, same_bytes, action_hash, encode, decode,
  validate_secret, issue_approval_token, read_token, check_claims, verify_approval_token,
}
use zj_cyber_workbench.Approval.Service.{
  granted, consumed, ApprovalRecord, ApprovalCreateRequest, Outcome, returned, Store, write,
  with_status, new_record, create, claims_of, decide_record, decide, consume_record, consume,
}
use zj_cyber_workbench.Approval.Service.OneTime.{
  IsFiled, Request, decide_request, consume_request, left_of, serve, consumptions, creations,
  consumptions-le,
}

-- Four characters for a number, none of them `=` or `.`.
abbrev spell : List ℕ → List ℕ
spell [] = []
spell (x ∷ xs) = (x + 100) ∷ 100 ∷ 100 ∷ 100 ∷ spell xs

abbrev unspell : List ℕ → Option (List ℕ)
unspell (a ∷ b ∷ c ∷ d ∷ rest) = elim (unspell rest) [
  | none ↦ none
  | some xs ↦ some ((a - 100) ∷ xs)
]
unspell _ = some []

abbrev flat_claims : ApprovalClaims → List ℕ
flat_claims c =
    c.approval_id ∷ c.project_id ∷ c.incident_id ∷ c.action_id ∷ c.target_id ∷ c.approver_id
    ∷ c.expires_at ∷ c.action_hash

abbrev unflat_claims : List ℕ → Option ApprovalClaims
unflat_claims (a ∷ b ∷ c ∷ d ∷ e ∷ f ∷ g ∷ rest) = some (record {
  approval_id = a;
  project_id = b;
  incident_id = c;
  action_id = d;
  action_hash = rest;
  target_id = e;
  approver_id = f;
  expires_at = g;
})
unflat_claims _ = none

abbrev toy : Platform
toy = record {
  sha256_hex = λ bytes. bytes;
  hmac_sha256 = λ secret body. body;
  urlsafe_b64encode = spell;
  urlsafe_b64decode = unspell;
  dump_action = λ action. action.target_id ∷ action.project_id ∷ [];
  dump_claims = flat_claims;
  load_claims = unflat_claims;
}

spell-NoneOf : (xs : List ℕ) → NoneOf (equals_sign ∷ dot ∷ []) (spell xs)
spell-NoneOf [] = tt
spell-NoneOf (x ∷ xs) = ground (arith, spell-NoneOf xs)

spell-aligned : (xs : List ℕ) → (length (spell xs) + 0) % 4 ≡ 0
spell-aligned [] = refl
spell-aligned (x ∷ xs) = omega (arith, spell-aligned xs)

unspell-spell : (xs : List ℕ) → unspell (spell xs) ≡ some xs
unspell-spell [] = refl
unspell-spell (x ∷ xs) = ground (arith, unspell-spell xs)

append_nil : (xs : List ℕ) → xs ≡ xs ++ []
append_nil [] = refl
append_nil (x ∷ xs) = ap (λ l. x ∷ l) (append_nil xs)

toy_laws : PlatformLaws toy
toy_laws = record {
  encoded = λ bytes. record {
    body = spell bytes;
    pad = 0;
    split = append_nil (spell bytes);
    alphabet = spell-NoneOf bytes;
    short = omega arith;
    aligned = spell-aligned bytes;
  };
  decode-encode = unspell-spell;
  load-dump = λ claims. refl;
}

abbrev key : List ℕ
key = repeat 32 7

abbrev sample_request : ApprovalCreateRequest
sample_request = record {
  action = restart;
  scope = scope;
  environment = test;
  approver_id = some 9;
}

abbrev made : Outcome ApprovalRecord × Store
made = create sample_request 3 5 12 13 (λ id. none)

abbrev made_record : ApprovalRecord
made_record = new_record sample_request (evaluate_action restart scope test 12) 3 5 13

abbrev made_store : Store
made_store = write made_record (λ id. none)

all_open : Unit {0}
unfolding create new_record write evaluate_action denial_reasons reason_if risk_order
    load_test_violations scope_constraints requires_approval is_production contains decide
    decide_record consume consume_record claims_of action_hash issue_approval_token encode decode
    rstrip_equals split_dot padding_of same_bytes validate_secret read_token check_claims
    verify_approval_token consumptions serve
all_open = tt

made_lem : made ≡ (returned made_record, made_store)
unfolding all_open
made_lem = refl

abbrev granted_record : ApprovalRecord
granted_record = with_status granted made_record

abbrev granted_store : Store
granted_store = write granted_record made_store

abbrev sample_claims : ApprovalClaims
sample_claims = claims_of toy key granted_record 9

abbrev token : List ℕ
token = encode toy (flat_claims sample_claims) ++ (dot ∷ encode toy (flat_claims sample_claims))

issue_sample : issue_approval_token toy sample_claims key ≡ ok token
unfolding all_open
issue_sample = refl

sample-Matches : Matches toy sample_claims restart 9 500
unfolding all_open
sample-Matches = record {
  valid = omega arith;
  action_id = refl;
  content = refl;
  target_id = refl;
  incident_id = refl;
  project_id = refl;
  approver = refl;
}

verify-issue_example : verify_approval_token toy token key restart 9 500 ≡ ok sample_claims
verify-issue_example =
    verify-issue toy toy_laws sample_claims key token restart 9 500 issue_sample sample-Matches

verify_sample : verify_approval_token toy token key restart 9 500 ≡ ok sample_claims
unfolding all_open
verify_sample = refl

verify_approval_token-Matches_example :
    ((body : List ℕ) × (read_token toy token ≡ ok (body, body))
      × (toy.load_claims body ≡ some sample_claims))
    × Matches toy sample_claims restart 9 500
verify_approval_token-Matches_example =
    verify_approval_token-Matches toy token key restart 9 500 sample_claims verify_sample

decide_sample :
    decide toy key 1 9 true 20 made_store ≡ (returned (granted_record, token), granted_store)
unfolding all_open
decide_sample = refl

decide-granted_example :
    (q : ApprovalRecord) × IsGrantable toy key made_store 1 9 20 q
    × (granted_record ≡ with_status granted q)
    × (granted_store ≡ write (with_status granted q) made_store)
decide-granted_example = decide-granted toy key made_store 1 9 20 true decide_sample refl

consume_after_grant_example : consume toy key restart token 9 500 granted_store ≡ (
  returned (with_status consumed granted_record, sample_claims),
  write (with_status consumed granted_record) granted_store,
)
unfolding all_open
consume_after_grant_example =
    consume_after_grant toy key toy_laws made_store 1 9 20 500 true decide_sample refl (omega arith)

consume_sample : consume toy key restart token 9 500 granted_store ≡ (
  returned (with_status consumed granted_record, sample_claims),
  write (with_status consumed granted_record) granted_store,
)
unfolding all_open
consume_sample = refl

consume-granted_example :
    Matches toy sample_claims restart 9 500
    × ((q : ApprovalRecord) × (granted_store 1 ≡ some q)
        × (q.status ≡ granted)
        × (with_status consumed granted_record ≡ with_status consumed q)
        × (write (with_status consumed granted_record) granted_store
            ≡ write (with_status consumed q) granted_store))
unfolding all_open
consume-granted_example = consume-granted toy key granted_store restart token 9 500 consume_sample

-- The token is presented twice; the second time the approval is no longer granted.
abbrev twice : List Request
twice =
    decide_request 1 9 true 20
    ∷ consume_request restart token 9 500
    ∷ consume_request restart token 9 501
    ∷ []

consumed_once : consumptions toy key 1 twice made_store ≡ 1
unfolding all_open
consumed_once = refl

made-IsFiled : IsFiled made_store
unfolding write new_record
made-IsFiled = record { under = λ id r e. ground arith }

consumptions-le_example :
    consumptions toy key 1 twice made_store
    ≤ left_of (made_store 1) + creations toy key 1 twice made_store
consumptions-le_example = consumptions-le toy key 1 twice made_store made-IsFiled
