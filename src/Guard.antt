-- ===== src/Guard.antt =====
-- core/execution_guard.py: what agents' tools ask before they act, over the policy engine and the
-- runtime permissions. A network target is read by Python's `urlsplit`, `strip` and `lower`, and
-- becomes an id by `uuid5`; these are parameters. What `urlsplit` and the port of its result raise is
-- a `malformed_target`, and what pydantic raises on an action an `invalid_action`. `extract_urls` is
-- a regular expression on texts and is not modelled.
pub mod Runtime
pub mod Targets
pub mod Network
pub mod Tests
use zj_cyber_workbench.Prelude.{
  leb, if◌then◌else◌, string_eq, ◌==◌, nat_eq, not, ◌&&◌, ◌||◌, length, contains, ℕ, String, Bool,
  true, false, Option, none, some, map_option, List, [], ◌∷◌, map,
}
use zj_cyber_workbench.Json.{Json, text, end, field}
use zj_cyber_workbench.Policy.{
  RiskLevel, l1, PolicyEffect, allow, require_approval, deny, test, ReasonCode, target_out_of_scope,
  ProposedAction, AuthorizationScope, risk_order, is_empty, evaluate_action,
}
use zj_cyber_workbench.Permissions.{AgentContext, PermissionError}
use zj_cyber_workbench.Utterances.{codes, scan}
use Prim.Native.String.{◌++◌ as str_append}

-- What the property `port` gives: `None`, a number, or a `ValueError`.
pub data Port : Type 0 where
  no_port invalid_port : Port
  port_of : ℕ → Port

pub record SplitUrl : Type 0 where
  pub scheme : String
  pub hostname : Option String
  pub port : Port

pub record Python : Type 0 where
  -- `none` is a `ValueError`.
  pub urlsplit : String → Option SplitUrl
  pub strip : String → String
  pub lower : String → String
  -- `uuid5(_TARGET_NAMESPACE, name)`
  pub uuid5 : String → ℕ
  -- `f"{scheme}://{hostname}:{port}"`
  pub address : (scheme hostname : String) → (port : ℕ) → String

-- The part of an agent's runtime context that the guards read.
pub record GuardContext : Type 0 where
  pub agent : AgentContext
  pub work_project_id : Option ℕ
  pub allowed_targets : List String
  pub allowed_action_types : List String
  pub scope_id : String

pub data GuardError : Type 0 where
  empty_target no_declared_target undeclared_target diagnostic_out_of_scope : GuardError
  malformed_target invalid_action : GuardError
  policy_denied : List ReasonCode → GuardError
  permission_refused : PermissionError → GuardError

-- A line of the audit file of executions; a reason of the source is a code or a grant's source.
pub data Reason : Type 0 where
  code : ReasonCode → Reason
  source : String → Reason

pub record ExecutionLine : Type 0 where
  pub context : GuardContext
  pub action_type : String
  pub target : String
  pub effect : String
  pub reasons : List Reason

pub data Authorization : Type 0 where
  authorized undecided : Authorization
  unauthorized : GuardError → Authorization

-- The result of a call with the lines that it appends to the audit file.
abbrev pub Guarded : Type 0
Guarded = Authorization × List ExecutionLine

unfoldable pub default_port : String → ℕ
default_port scheme = if scheme == "https" then 443 else 80

-- `parsed.port or _default_port(parsed.scheme)`
abbrev pub or_port : Port → ℕ → Option ℕ
or_port invalid_port default = none
or_port no_port default = some default
or_port (port_of port) default = some (if port == 0 then default else port)

abbrev pub same_port : Option ℕ → Option ℕ → Option Bool
same_port (some a) (some b) = some (a == b)
same_port _ _ = none

abbrev pub same_host : Option String → Option String → Bool
same_host none none = true
same_host (some a) (some b) = a == b
same_host _ _ = false

abbrev pub effect_text : PolicyEffect → String
effect_text allow = "allow"
effect_text require_approval = "require_approval"
effect_text deny = "deny"

abbrev pub is_allow : PolicyEffect → Bool
is_allow allow = true
is_allow _ = false

abbrev pub line :
    GuardContext → (action_type target effect : String) → List Reason → List ExecutionLine
line context action_type target effect reasons =
    (record {
      context = context;
      action_type = action_type;
      target = target;
      effect = effect;
      reasons = reasons;
    })
    ∷ []

-- `set(context.allowed_action_types) or {action_type}`
abbrev pub allowed_or_own : List String → String → List String
allowed_or_own [] action_type = action_type ∷ []
allowed_or_own types action_type = types

abbrev pub or_one : Option ℕ → ℕ
or_one none = 1
or_one (some n) = if n == 0 then 1 else n

-- Where a text stands in the pattern of an action's type, `^[a-z0-9]+(?:[._-][a-z0-9]+)+$`.
pub data TypeScan : Type 0 where
  at_start in_first behind_separator in_later no_match : TypeScan

abbrev pub is_word_code : ℕ → Bool
is_word_code c = (leb b'a' c && leb c b'z') || (leb b'0' c && leb c b'9')

abbrev pub is_separator : ℕ → Bool
is_separator c = c == b'.' || c == b'_' || c == b'-'

unfoldable pub scan_code : TypeScan → ℕ → TypeScan
scan_code at_start c = if is_word_code c then in_first else no_match
scan_code in_first c =
    if is_word_code c then in_first else if is_separator c then behind_separator else no_match
scan_code behind_separator c = if is_word_code c then in_later else no_match
scan_code in_later c =
    if is_word_code c then in_later else if is_separator c then behind_separator else no_match
scan_code no_match c = no_match

unfoldable pub scan_codes : TypeScan → List ℕ → TypeScan
scan_codes scan [] = scan
scan_codes scan (c ∷ cs) = scan_codes (scan_code scan c) cs

abbrev pub is_in_later : TypeScan → Bool
is_in_later in_later = true
is_in_later _ = false

-- The fields of `ProposedAction` that pydantic may refuse here; the project is not 0.
unfoldable pub is_valid_action : (action_type reason : String) → Bool
is_valid_action action_type reason =
    leb 3 (length (codes action_type))
    && leb (length (codes action_type)) 128
    && is_in_later (scan_codes at_start (codes action_type))
    && leb 1 (length (codes reason))
    && leb (length (codes reason)) 2000

-- The step of `any` over one more test.
abbrev pub or_next : Option Bool → Option Bool → Option Bool
or_next none rest = none
or_next (some true) rest = some true
or_next (some false) rest = rest

abbrev pub cons_id : Option ℕ → Option (List ℕ) → Option (List ℕ)
cons_id (some id) (some ids) = some (id ∷ ids)
cons_id _ _ = none

module _ (py : Python) where
  abbrev pub canonical_of : (target : String) → SplitUrl → Option String
  canonical_of target parsed = elim parsed.hostname [
    | none ↦ some (py.lower (py.strip target))
    | some hostname ↦
        if hostname == ""
        then some (py.lower (py.strip target))
        else map_option (λ port. py.address parsed.scheme hostname port)
            (or_port parsed.port (default_port parsed.scheme))
  ]

  abbrev pub canonical_from : (target : String) → Option SplitUrl → Option String
  canonical_from target none = none
  canonical_from target (some parsed) = canonical_of target parsed

  unfoldable pub target_id : String → Option ℕ
  target_id target =
      map_option py.uuid5 (canonical_from target (py.urlsplit (py.lower (py.strip target))))

  unfoldable pub target_ids : List String → Option (List ℕ)
  target_ids [] = some []
  target_ids (target ∷ targets) = cons_id (target_id target) (target_ids targets)

  abbrev pub same_split : Option SplitUrl → Option SplitUrl → Option Bool
  same_split (some a) (some d) =
      if a.scheme == d.scheme && same_host a.hostname d.hostname
      then same_port (or_port a.port (default_port a.scheme))
          (or_port d.port (default_port d.scheme))
      else some false
  same_split _ _ = none

  unfoldable pub same_target : (actual declared : String) → Option Bool
  same_target actual declared = same_split (py.urlsplit actual) (py.urlsplit declared)

  -- `any(_same_target(actual, declared) for declared in targets)`
  unfoldable pub any_target : (actual : String) → List String → Option Bool
  any_target actual [] = some false
  any_target actual (declared ∷ targets) =
      or_next (same_target actual declared) (any_target actual targets)

  unfoldable pub network_scope :
      GuardContext → (action_type : String) → (ids : List ℕ) → AuthorizationScope
  network_scope context action_type ids = record {
    allowed_target_ids = ids;
    allowed_action_types = allowed_or_own context.allowed_action_types action_type;
    maximum_risk_level = l1;
    valid_from = none;
    valid_until = none;
    max_load_test_rps = none;
    max_load_test_concurrency = none;
    max_load_test_duration_seconds = none;
  }

  -- The action's own id is a new UUID, which nothing reads. Its type and reason are stripped before
  -- they are checked; `none` is the `ValidationError`.
  unfoldable pub network_action :
      GuardContext
      → (action_type target : String) → RiskLevel
      → (id of_target : ℕ) → Option ProposedAction
  network_action context action_type target risk id of_target =
      let reason = py.strip (str_append "agent tool " action_type) in
      if is_valid_action (py.strip action_type) reason
      then some (record {
        id = id;
        project_id = or_one context.work_project_id;
        incident_id = py.uuid5 context.agent.session_id;
        target_id = of_target;
        action_type = py.strip action_type;
        arguments = Json.object (field "target" (text target) end);
        risk_level = risk;
        reason = reason;
        is_write = false;
        is_load_test = false;
        prechecks = [];
        verification_steps = [];
        rollback_steps = [];
        requested_rps = none;
        requested_concurrency = none;
        requested_duration_seconds = none;
      })
      else none

  unfoldable pub authorize_action :
      GuardContext
      → (action_type normalized : String) → AuthorizationScope
      → (now : ℕ) → Option ProposedAction
      → Guarded
  authorize_action context action_type normalized scope now none = (unauthorized invalid_action, [])
  authorize_action context action_type normalized scope now (some action) =
      let decision = evaluate_action action scope test now in
      (
        if is_allow decision.effect
            then authorized
            else unauthorized (policy_denied decision.reason_codes),
        line context action_type normalized (effect_text decision.effect)
            (map code decision.reason_codes),
      )

  unfoldable pub authorize_ids :
      GuardContext
      → (action_type normalized : String) → RiskLevel
      → (id now : ℕ) → Option (List ℕ)
      → Option ℕ
      → Guarded
  authorize_ids context action_type normalized risk id now (some ids) (some of_target) =
      authorize_action context action_type normalized (network_scope context action_type ids) now
        (network_action context action_type normalized risk id of_target)
  authorize_ids context action_type normalized risk id now _ _ = (unauthorized malformed_target, [])

  -- By whether the target is declared.
  unfoldable pub authorize_declared :
      GuardContext
      → (action_type normalized : String) → RiskLevel
      → (id now : ℕ) → Option Bool
      → Guarded
  authorize_declared context action_type normalized risk id now none =
      (unauthorized malformed_target, [])
  authorize_declared context action_type normalized risk id now (some false) = (
    unauthorized undeclared_target,
    line context action_type normalized "deny" (code target_out_of_scope ∷ []),
  )
  authorize_declared context action_type normalized risk id now (some true) =
      authorize_ids context action_type normalized risk id now (target_ids context.allowed_targets)
        (target_id normalized)

  unfoldable pub authorize_network_action :
      GuardContext → (action_type target : String) → RiskLevel → (id now : ℕ) → Guarded
  authorize_network_action context action_type target risk id now =
      let normalized = py.strip target in
      if normalized == ""
      then (unauthorized empty_target, [])
      else if is_empty context.allowed_targets
      then (unauthorized no_declared_target, [])
      else authorize_declared context action_type normalized risk id now
          (any_target normalized context.allowed_targets)

  abbrev pub decision_if : (others : Bool) → Option Bool → Option Bool
  decision_if others none = none
  decision_if others (some declared) = some (not declared || others)

  -- `needs_user_decision`; `none` is a `ValueError`.
  unfoldable pub needs_user_decision :
      GuardContext → (action_type normalized : String) → RiskLevel → Option Bool
  needs_user_decision context action_type normalized risk =
      decision_if
        ((not (is_empty context.allowed_action_types)
            && not (contains context.allowed_action_types action_type))
          || leb 2 (risk_order risk))
        (any_target normalized context.allowed_targets)
