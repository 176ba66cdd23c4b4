-- ===== src/Approval/Service/OneTime.antt =====
-- service/approval.py: how often an approval is consumed, over sequences of calls.
use zj_cyber_workbench.Prelude.{
  if◌then◌else◌, ◌==◌, nat_eq, ℕ, ◌+◌, ◌≤◌, ◌≡◌, refl, ap, ◌∙◌, Bool, Option, none, some, List, [],
  ◌∷◌, arith,
}
use zj_cyber_workbench.Policy.{ProposedAction, evaluate_action}
use zj_cyber_workbench.Approval.Platform.{ApprovalClaims, Platform}
use zj_cyber_workbench.Approval.Token.{Checked, verify_approval_token}
use zj_cyber_workbench.Approval.Service.{
  pending, granted, rejected, expired, consumed, ApprovalRecord, ApprovalCreateRequest, Outcome,
  returned, raised, Store, write, with_status, new_record, create, decide_record, decide_found,
  decide, consume_record, consume_verified, consume,
}

-- A record is filed under its own id, as `write` does.
pub record IsFiled (store : Store) : Type 0 where
  pub under : (id : ℕ) (r : ApprovalRecord) → store id ≡ some r → r.approval_id ≡ id

pub data Request : Type 0 where
  create_request :
      ApprovalCreateRequest → (requester default_approver evaluated_at now : ℕ) → Request
  decide_request : (approval_id approver_id : ℕ) → Bool → (now : ℕ) → Request
  consume_request : ProposedAction → List ℕ → (approver_id now : ℕ) → Request

-- 1 if the call consumed the approval `k`.
abbrev hits : ℕ → Outcome (ApprovalRecord × ApprovalClaims) → ℕ
hits k (returned (r, _)) = if r.approval_id == k then 1 else 0
hits k (raised _) = 0

-- 1 if the call created the approval `k`.
abbrev makes : ℕ → Outcome ApprovalRecord → ℕ
makes k (returned r) = if r.approval_id == k then 1 else 0
makes k (raised _) = 0

-- What the record of an approval still allows.
abbrev pub left_of : Option ApprovalRecord → ℕ
left_of none = 0
left_of (some r) = elim r.status [ pending ↦ 1 | granted ↦ 1 | _ ↦ 0 ]

write-IsFiled : {store : Store} (r : ApprovalRecord) → IsFiled store → IsFiled (write r store)
unfolding write
write-IsFiled r f = record { under = λ id q e. ground (arith, f.under id q) }

left_of-write :
    (store : Store) (r : ApprovalRecord) (k : ℕ)
    → left_of (write r store k)
      ≡ (if k == r.approval_id then left_of (some r) else left_of (store k))
unfolding write
left_of-write store r k = ground arith

module _ (p : Platform) (secret : List ℕ) where
  -- One call, as a whole: the folder that it leaves, and how often it consumed and created `k`.
  unfoldable pub serve : ℕ → Request → Store → Store × ℕ × ℕ
  serve k (create_request request requester default_approver evaluated_at now) store =
      let result = create request requester default_approver evaluated_at now store in
      (result.1, 0, makes k result.0)
  serve k (decide_request approval_id approver_id approved now) store =
      ((decide p secret approval_id approver_id approved now store).1, 0, 0)
  serve k (consume_request action token approver_id now) store =
      let result = consume p secret action token approver_id now store in
      (result.1, hits k result.0, 0)

  unfoldable pub consumptions : ℕ → List Request → Store → ℕ
  consumptions k [] store = 0
  consumptions k (request ∷ rest) store =
      let result = serve k request store in result.1 + consumptions k rest result.0

  unfoldable pub creations : ℕ → List Request → Store → ℕ
  creations k [] store = 0
  creations k (request ∷ rest) store =
      let result = serve k request store in result.2 + creations k rest result.0

  decide_record-IsFiled :
      (store : Store) (r : ApprovalRecord) (approver now : ℕ) (approved : Bool)
      → IsFiled store
      → IsFiled (decide_record p secret r approver approved now store).1
  unfolding decide_record
  decide_record-IsFiled store r approver now approved f = ground (
    arith,
    f,
    write-IsFiled (with_status expired r) f,
    write-IsFiled (with_status rejected r) f,
    write-IsFiled (with_status granted r) f,
  )

  decide_record-left_of :
      (k : ℕ) (store : Store) (r : ApprovalRecord) (approver now : ℕ) (approved : Bool)
      → store r.approval_id ≡ some r
      → left_of ((decide_record p secret r approver approved now store).1 k) ≤ left_of (store k)
  unfolding decide_record write
  decide_record-left_of k store r approver now approved e = ground arith

  record Spends (k : ℕ) (store : Store) (request : Request) : Type 0 where
    filed : IsFiled (serve k request store).0
    bound :
        (serve k request store).1 + left_of ((serve k request store).0 k)
        ≤ left_of (store k) + (serve k request store).2

  create-Spends :
      (k : ℕ) (store : Store) (q : ApprovalCreateRequest) (a b c d : ℕ)
      → IsFiled store
      → Spends k store (create_request q a b c d)
  unfolding serve create
  create-Spends k store q a b c d f =
      let decision = evaluate_action q.action q.scope q.environment c in
      record {
        filed = ground (arith, f, write-IsFiled (new_record q decision a b d) f);
        bound = ground (arith, left_of-write store (new_record q decision a b d) k);
      }

  decide_found-left_of :
      (k id : ℕ) (store : Store) (o : Option ApprovalRecord) (approver now : ℕ) (approved : Bool)
      → IsFiled store
      → store id ≡ o
      → IsFiled (decide_found p secret o approver approved now store).1
        × (left_of ((decide_found p secret o approver approved now store).1 k) ≤ left_of (store k))
  decide_found-left_of k id store none approver now approved f e = (f, omega arith)
  decide_found-left_of k id store (some r) approver now approved f e = (
    decide_record-IsFiled store r approver now approved f,
    decide_record-left_of k store r approver now approved (ap store (f.under id r e) ∙ e),
  )

  decide-Spends :
      (k : ℕ) (store : Store) (id approver now : ℕ) (approved : Bool)
      → IsFiled store
      → Spends k store (decide_request id approver approved now)
  unfolding serve decide
  decide-Spends k store id approver now approved f =
      let (filed, bound) =
        decide_found-left_of k id store (store id) approver now approved f refl in
      record { filed = filed; bound = omega (arith, bound) }

  consume_record-left_of :
      (k id : ℕ) (store : Store) (o : Option ApprovalRecord) (claims : ApprovalClaims)
      → IsFiled store
      → store id ≡ o
      → IsFiled (consume_record p secret o claims store).1
        × (hits k (consume_record p secret o claims store).0
              + left_of ((consume_record p secret o claims store).1 k)
            ≤ left_of (store k))
  unfolding consume_record
  consume_record-left_of k id store none claims f e = (f, omega arith)
  consume_record-left_of k id store (some r) claims f e = (
    ground (arith, f, write-IsFiled (with_status consumed r) f),
    ground (arith, f.under id r e, left_of-write store (with_status consumed r) k),
  )

  consume_verified-left_of :
      (k : ℕ) (store : Store) (v : Checked ApprovalClaims)
      → IsFiled store
      → IsFiled (consume_verified p secret v store).1
        × (hits k (consume_verified p secret v store).0
              + left_of ((consume_verified p secret v store).1 k)
            ≤ left_of (store k))
  consume_verified-left_of k store (Checked.refused e) f = (f, omega arith)
  consume_verified-left_of k store (Checked.ok claims) f =
      consume_record-left_of k claims.approval_id store (store claims.approval_id) claims f refl

  consume-Spends :
      (k : ℕ) (store : Store) (action : ProposedAction) (token : List ℕ) (approver now : ℕ)
      → IsFiled store
      → Spends k store (consume_request action token approver now)
  unfolding serve consume
  consume-Spends k store action token approver now f =
      let verified = verify_approval_token p token secret action approver now in
      let (filed, bound) = consume_verified-left_of k store verified f in
      record { filed = filed; bound = omega (arith, bound) }

  serve-Spends : (k : ℕ) (store : Store) (q : Request) → IsFiled store → Spends k store q
  serve-Spends k store (create_request q a b c d) f = create-Spends k store q a b c d f
  serve-Spends k store (decide_request i a b n) f = decide-Spends k store i a n b f
  serve-Spends k store (consume_request a t i n) f = consume-Spends k store a t i n f

  -- In any sequence of calls, each of which runs as a whole before the next, an approval is consumed
  -- at most once for each time that it was created, counting one if it was pending or granted at the
  -- start. A request to create that the policy denies creates nothing.
  pub consumptions-le :
      (k : ℕ) (requests : List Request) (store : Store)
      → IsFiled store
      → consumptions k requests store ≤ left_of (store k) + creations k requests store
  unfolding consumptions creations
  consumptions-le k [] store f = omega arith
  consumptions-le k (q ∷ rest) store f =
      let s = serve-Spends k store q f in
      omega (arith, s.bound, consumptions-le k rest (serve k q store).0 s.filed)
