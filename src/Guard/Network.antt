-- ===== src/Guard/Network.antt =====
-- core/execution_guard.py: which actions the guards let through.
use Prim.Native.String.{◌++◌ as str_append}
use zj_cyber_workbench.Prelude.{
  Bool-cases, string_eq, ◌==◌, nat_eq, ◌&&◌, All, any, In, contains, ℕ, ◌≤◌, String, ◌≡◌, refl, ap,
  subst, ◌≢◌, ◌↔◌, ◌⊎◌, inl, inr, Bool, true, false, Option, none, some, List, [], ◌∷◌, arith,
}
use zj_cyber_workbench.Json.{Json}
use zj_cyber_workbench.Policy.{
  RiskLevel, risk_order, is_empty, reason_if, load_test_violations, denial_reasons, is_production,
  requires_approval, evaluate_action,
}
use zj_cyber_workbench.Permissions.{
  allow_once, always_allow, PendingPermission, PermissionRule, Permissions, is_full_access, covers,
  rule_matches, require_permission, pop_pending, answer_decision, resume_permission,
}
use zj_cyber_workbench.Guard.{
  Port, no_port, invalid_port, port_of, SplitUrl, Python, GuardContext, authorized, default_port,
  or_port, same_host, allowed_or_own, is_valid_action, or_next, same_target, any_target,
  network_scope, network_action, authorize_action, authorize_ids, authorize_declared,
  authorize_network_action, decision_if, needs_user_decision,
}
use zj_cyber_workbench.Guard.Targets.{IsPort, IsDeclared, any_target_sound}
use zj_cyber_workbench.Guard.Runtime.{
  permission_request, after_permission, resume_authorization, authorize_needed,
  authorize_network_action_runtime, authorize_local_diagnostic, authorize_local_action_runtime,
}

module _ (py : Python) where
  -- What the session permits without asking.
  pub record IsInScope (context : GuardContext) (action_type target : String) (risk : RiskLevel)
      : Type 0 where
    pub not_empty : py.strip target ≢ ""
    pub declared : IsDeclared py context (py.strip target)
    pub well_formed :
        is_valid_action (py.strip action_type) (py.strip (str_append "agent tool " action_type))
        ≡ true
    pub type_allowed :
        (context.allowed_action_types ≡ [] × (action_type ≡ py.strip action_type))
        ⊎ (contains context.allowed_action_types (py.strip action_type) ≡ true)
    pub low_risk : risk_order risk ≤ 1

  type_allowed-cases :
      (types : List String) (action_type stripped : String)
      → contains (allowed_or_own types action_type) stripped ≡ true
      → (types ≡ [] × (action_type ≡ stripped)) ⊎ (contains types stripped ≡ true)
  unfolding contains
  type_allowed-cases [] action_type stripped h = inl (
    refl,
    ground (
      arith,
      h,
      string_eq.same_iff action_type stripped,
      string_eq.same_iff stripped action_type,
    ),
  )
  type_allowed-cases (t ∷ types) action_type stripped h = inr h

  -- What an action that is allowed by the policy has.
  record IsAllowed (context : GuardContext) (action_type : String) (risk : RiskLevel) : Type 0 where
    valid :
        is_valid_action (py.strip action_type) (py.strip (str_append "agent tool " action_type))
        ≡ true
    allowed :
        contains (allowed_or_own context.allowed_action_types action_type) (py.strip action_type)
        ≡ true
    low : risk_order risk ≤ 1

  authorize_ids-IsAllowed :
      (context : GuardContext) (action_type normalized : String) (risk : RiskLevel) (id now : ℕ)
      (ids : Option (List ℕ)) (of_target : Option ℕ)
      → (authorize_ids py context action_type normalized risk id now ids of_target).0 ≡ authorized
      → IsAllowed context action_type risk
  unfolding authorize_ids authorize_action evaluate_action denial_reasons reason_if
      load_test_violations requires_approval is_production network_action network_scope risk_order
  authorize_ids-IsAllowed context action_type normalized risk id now none t h = ground (arith, h)
  authorize_ids-IsAllowed context action_type normalized risk id now (some ids) none h =
      ground (arith, h)
  authorize_ids-IsAllowed context action_type normalized risk id now (some ids) (some t) h =
      elim (Bool-cases (
        is_valid_action (py.strip action_type) (py.strip (str_append "agent tool " action_type)))) [
          | inr e ↦ ground (arith, e, h)
          | inl e ↦ record { valid = e; allowed = ground (arith, e, h); low = ground (arith, e, h) }
        ]

  authorize_declared-IsAllowed :
      (context : GuardContext) (action_type normalized : String) (risk : RiskLevel) (id now : ℕ)
      (declared : Option Bool)
      → (authorize_declared py context action_type normalized risk id now declared).0 ≡ authorized
      → IsAllowed context action_type risk × (declared ≡ some true)
  unfolding authorize_declared
  authorize_declared-IsAllowed context action_type normalized risk id now none h = ground (arith, h)
  authorize_declared-IsAllowed context action_type normalized risk id now (some false) h =
      ground (arith, h)
  authorize_declared-IsAllowed context action_type normalized risk id now (some true) h =
      (authorize_ids-IsAllowed context action_type normalized risk id now _ _ h, refl)

  -- A network action is authorized only in the scope of its session: its target is not empty, and
  -- is read as the scheme, the host and the port of a declared one; its type is well formed and
  -- allowed, or the session restricts none and the type is stripped; its risk is at most L1.
  pub authorize_network_action-IsInScope :
      (context : GuardContext) (action_type target : String) (risk : RiskLevel) (id now : ℕ)
      → (authorize_network_action py context action_type target risk id now).0 ≡ authorized
      → IsInScope context action_type target risk
  unfolding authorize_network_action
  authorize_network_action-IsInScope context action_type target risk id now h =
      let (allowed, declared) =
        authorize_declared-IsAllowed context action_type (py.strip target) risk id now
          (any_target py (py.strip target) context.allowed_targets) (ground (arith, h)) in
      record {
        not_empty = ground (arith, h, string_eq.same_iff (py.strip target) "");
        declared = any_target_sound py (py.strip target) context.allowed_targets declared;
        well_formed = allowed.valid;
        type_allowed =
            type_allowed-cases context.allowed_action_types action_type (py.strip action_type)
              allowed.allowed;
        low_risk = allowed.low;
      }

  -- What goes ahead without a question: a declared target, a type that is not excluded, and a risk
  -- of at most L1.
  pub record NeedsNothing (context : GuardContext) (action_type target : String) (risk : RiskLevel)
      : Type 0 where
    pub declared : IsDeclared py context target
    pub type_allowed :
        (context.allowed_action_types ≡ [])
        ⊎ (contains context.allowed_action_types action_type ≡ true)
    pub low_risk : risk_order risk ≤ 1

  -- The user has allowed the type on the target always.
  abbrev pub HasRule : List PermissionRule → (action_type target : String) → Type 0
  HasRule rules action_type target =
      (rule : PermissionRule) × In rule rules
      × (rule.action_type ≡ action_type)
      × (rule.target ≡ target)

  rule_matches-HasRule :
      (action_type target : String) (rules : List PermissionRule)
      → rule_matches action_type target rules ≡ true
      → HasRule rules action_type target
  unfolding rule_matches any
  rule_matches-HasRule action_type target [] h = ground (arith, h)
  rule_matches-HasRule action_type target (r ∷ rules) h =
      elim (Bool-cases (covers action_type target r)) [
        | inl e ↦ (
          r,
          inl refl,
          (string_eq.same_iff r.action_type action_type).0 (ground (arith, e)),
          (string_eq.same_iff r.target target).0 (ground (arith, e)),
        )
        | inr e ↦
            let rest = rule_matches-HasRule action_type target rules (ground (arith, e, h)) in
            (rest.0, inr rest.1, rest.2, rest.3)
      ]

  nil_of_is_empty : (types : List String) → is_empty types ≡ true → types ≡ []
  nil_of_is_empty [] h = refl
  nil_of_is_empty (t ∷ types) h = ground (arith, h)

  decision_if-false :
      (others : Bool) (declared : Option Bool)
      → decision_if py others declared ≡ some false
      → (others ≡ false) × (declared ≡ some true)
  decision_if-false others none h = ground (arith, h)
  decision_if-false others (some true) h = ground (arith, h)
  decision_if-false others (some false) h = ground (arith, h)

  needs_user_decision-NeedsNothing :
      (context : GuardContext) (action_type target : String) (risk : RiskLevel)
      → needs_user_decision py context action_type target risk ≡ some false
      → NeedsNothing context action_type target risk
  unfolding needs_user_decision risk_order
  needs_user_decision-NeedsNothing context action_type target risk h =
      let parts = decision_if-false _ (any_target py target context.allowed_targets) h in
      record {
        declared = any_target_sound py target context.allowed_targets parts.1;
        type_allowed = elim (Bool-cases (is_empty context.allowed_action_types)) [
          | inl e ↦ inl (nil_of_is_empty context.allowed_action_types e)
          | inr e ↦ inr (ground (arith, e, parts.0))
        ];
        low_risk = ground (arith, parts.0);
      }

  authorize_needed-cases :
      (context : GuardContext) (action_type normalized : String) (risk : RiskLevel)
      (reason : String) (details : Json) (id now : ℕ) (needed : Option Bool) (st : Permissions)
      → is_full_access st.mode ≡ false
      → (authorize_needed context action_type normalized risk reason details id now needed st).0.0
        ≡ authorized
      → (needed ≡ some false) ⊎ (rule_matches action_type normalized st.rules ≡ true)
  unfolding authorize_needed after_permission require_permission permission_request
  authorize_needed-cases context action_type normalized risk reason details id now none st m h =
      ground (arith, h)
  authorize_needed-cases context action_type normalized risk reason details id now (some false) st m
        h =
      inl refl
  authorize_needed-cases context action_type normalized risk reason details id now (some true) st m
        h =
      ground (arith, m, h)

  -- In normal mode, a network action goes ahead at once only if its target is not empty and either
  -- the user has allowed its type on it always, or it is read as the scheme, the host and the port
  -- of a declared target, its type is among the allowed ones, if there are any, and its risk is at
  -- most L1.
  pub authorize_network_action_runtime-allowed :
      (context : GuardContext) (action_type target : String) (risk : RiskLevel) (reason : String)
      (details : Json) (id now : ℕ) (st : Permissions)
      → is_full_access st.mode ≡ false
      → (authorize_network_action_runtime py context action_type target risk reason details id now
          st).0.0
        ≡ authorized
      → (py.strip target ≢ "")
        × (NeedsNothing context action_type (py.strip target) risk
            ⊎ HasRule st.rules action_type (py.strip target))
  unfolding authorize_network_action_runtime
  authorize_network_action_runtime-allowed context action_type target risk reason details id now st
        m h =
      (
        ground (arith, h, string_eq.same_iff (py.strip target) ""),
        elim (authorize_needed-cases context action_type (py.strip target) risk reason details id
            now (needs_user_decision py context action_type (py.strip target) risk) st m
            (ground (arith, m, h))) [
              | inl e ↦
                  inl
                    (needs_user_decision-NeedsNothing context action_type (py.strip target) risk e)
              | inr e ↦ inr (rule_matches-HasRule action_type (py.strip target) st.rules e)
            ],
      )

-- In normal mode, a local action goes ahead at once exactly when its risk is at least L2 and the
-- user has allowed it always, or its risk is lower and it is a diagnostic of the session.
authorize_local_action_runtime_iff :
    (context : GuardContext) (action_type target : String) (risk : RiskLevel) (reason : String)
    (details : Json) (id now : ℕ) (st : Permissions)
    → is_full_access st.mode ≡ false
    → ((authorize_local_action_runtime context action_type target risk reason details id now st).0.0
        ≡ authorized)
      ↔ (((2 ≤ risk_order risk) × (rule_matches action_type target st.rules ≡ true))
          ⊎ ((risk_order risk ≤ 1)
              × (contains ("host.local.diagnostic" ∷ context.allowed_action_types) action_type
                  ≡ true)))
unfolding authorize_local_action_runtime authorize_local_diagnostic after_permission
    require_permission permission_request risk_order
authorize_local_action_runtime_iff context action_type target risk reason details id now st m =
    ground (arith, m)

-- A guard that waited goes ahead exactly when the wait ended by a decision and not by its timeout,
-- and this allows the request, or full access has been switched on.
pub resume_authorization_iff :
    (context : GuardContext) (p : PendingPermission) (timeout : Bool) (st : Permissions)
    → ((resume_authorization context p timeout st).0.0 ≡ authorized) ↔ (
        (timeout ≡ false)
        × ((is_full_access st.mode ≡ true)
            ⊎ (p.decision ≡ some allow_once)
            ⊎ (p.decision ≡ some always_allow)))
unfolding resume_authorization after_permission resume_permission answer_decision pop_pending
resume_authorization_iff context p timeout st = ground arith

-- What `urlsplit` reads from a text without `//`, such as a bare host name.
abbrev pub hostless : SplitUrl
hostless = record { scheme = ""; hostname = none; port = no_port }

-- The target is read, and so is its port.
pub record IsRead (py : Python) (target : String) : Type 0 where
  pub url : SplitUrl
  pub read : py.urlsplit target ≡ some url
  pub number : ℕ
  pub port : IsPort url number

IsPort-or_port :
    (url : SplitUrl) (n : ℕ) → IsPort url n → or_port url.port (default_port url.scheme) ≡ some n
unfolding default_port
IsPort-or_port url n h = port_lem url.port refl
  where
    port_lem : (p : Port) → p ≡ url.port → or_port p (default_port url.scheme) ≡ some n
    port_lem invalid_port e = ground (arith, h, e)
    port_lem no_port e = ground (arith, h, e, string_eq.same_iff url.scheme "https")
    port_lem (port_of m) e = ground (arith, h, e, string_eq.same_iff url.scheme "https")

-- A target without a host is compared with any target that is read.
same_target-read :
    (py : Python) (target declared : String)
    → py.urlsplit target ≡ some hostless
    → IsRead py declared
    → (b : Bool) × (same_target py target declared ≡ some b)
unfolding same_target
same_target-read py target declared h d =
    let port = IsPort-or_port d.url d.number d.port in
    elim (Bool-cases ("" == d.url.scheme && same_host none d.url.hostname)) [
      | inl e ↦ (default_port "" == d.number, rw (h, d.read) (rw e (rw port refl)))
      | inr e ↦ (false, rw (h, d.read) (rw e refl))
    ]

same_target-hostless :
    (py : Python) (a d : String)
    → py.urlsplit a ≡ some hostless
    → py.urlsplit d ≡ some hostless
    → same_target py a d ≡ some true
unfolding same_target default_port
same_target-hostless py a d h k = rw (h, k) refl

or_next-read : (a : Bool) (b : Option Bool) → b ≡ some true → or_next (some a) b ≡ some true
or_next-read true b h = refl
or_next-read false b h = h

any_target-hostless :
    (py : Python) (target : String) (targets : List String) (declared : String)
    → py.urlsplit target ≡ some hostless
    → py.urlsplit declared ≡ some hostless
    → All (IsRead py) targets
    → In declared targets
    → any_target py target targets ≡ some true
unfolding any_target
any_target-hostless py target [] declared h k r m = absurd m
any_target-hostless py target (t ∷ targets) declared h k r (inl e) =
    rw (same_target-hostless py target t h (subst (λ x. py.urlsplit x ≡ some hostless) e k)) refl
any_target-hostless py target (t ∷ targets) declared h k r (inr m) =
    let first = same_target-read py target t h r.0 in
    rw first.1 (or_next-read first.0 _ (any_target-hostless py target targets declared h k r.1 m))

-- Targets that are read as having no scheme, host and port are not told apart: if a session
-- declares one and restricts no types of actions, no action of risk L0 or L1 on any other needs a
-- decision of the user. The declared targets and their ports are read without an error.
pub needs_user_decision-hostless :
    (py : Python) (context : GuardContext) (action_type target declared : String) (risk : RiskLevel)
    → py.urlsplit target ≡ some hostless
    → py.urlsplit declared ≡ some hostless
    → All (IsRead py) context.allowed_targets
    → In declared context.allowed_targets
    → context.allowed_action_types ≡ []
    → risk_order risk ≤ 1
    → needs_user_decision py context action_type target risk ≡ some false
unfolding needs_user_decision risk_order
needs_user_decision-hostless py context action_type target declared risk h k r m e l =
    rw (any_target-hostless py target context.allowed_targets declared h k r m)
      (ground (arith, l, ap (λ types. is_empty types) e))
