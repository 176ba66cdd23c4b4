-- ===== src/Registry.antt =====
-- core/action_registry.py: the specifications of actions, by their types. The dict is the list of its
-- values, which hold their keys; an exception is `none`.
pub mod Lookup
pub mod Tests
use zj_cyber_workbench.Prelude.{
  if◌then◌else◌, and_then, string_eq, ◌==◌, any, first_where, ℕ, String, Bool, true, false, Option,
  none, some, List, [], ◌∷◌, ◌++◌,
}
use zj_cyber_workbench.Policy.{RiskLevel, l0, l1, l2}

pub record ActionSpec : Type 0 where
  pub action_type : String
  pub platforms : List String
  pub risk_level : RiskLevel
  pub required_scope : List String
  pub timeout_seconds : ℕ
  pub max_output_bytes : ℕ
  pub idempotent : Bool
  pub requires_backup : Bool
  pub requires_verification : Bool
  pub requires_rollback : Bool

abbrev pub is_type : String → ActionSpec → Bool
is_type action_type spec = spec.action_type == action_type

-- `ActionRegistry.require`
unfoldable pub require : String → List ActionSpec → Option ActionSpec
require action_type specs = first_where (is_type action_type) specs

-- `ActionRegistry.register`
unfoldable pub register : ActionSpec → List ActionSpec → Option (List ActionSpec)
register spec specs =
    if any (is_type spec.action_type) specs then none else some (specs ++ (spec ∷ []))

-- `ActionRegistry.__init__`, on from what is registered.
unfoldable pub register_all : List ActionSpec → List ActionSpec → Option (List ActionSpec)
register_all [] registered = some registered
register_all (spec ∷ specs) registered =
    and_then (register spec registered) (λ next. register_all specs next)

abbrev pub spec :
    String
    → List String
    → RiskLevel
    → List String
    → ℕ
    → ℕ
    → (idempotent backup : Bool) → (verification rollback : Bool) → ActionSpec
spec action_type platforms risk_level required_scope timeout_seconds max_output_bytes idempotent
      backup verification rollback =
    record {
      action_type = action_type;
      platforms = platforms;
      risk_level = risk_level;
      required_scope = required_scope;
      timeout_seconds = timeout_seconds;
      max_output_bytes = max_output_bytes;
      idempotent = idempotent;
      requires_backup = backup;
      requires_verification = verification;
      requires_rollback = rollback;
    }

-- `DEFAULT_ACTION_REGISTRY`
unfoldable pub default_specs : List ActionSpec
default_specs =
    spec "host.local.diagnostic" ("windows" ∷ []) l0 ("local" ∷ []) 30 256000 true false false false
    ∷ spec "ssh.command" ("linux" ∷ []) l1 ("ssh" ∷ []) 120 512000 false false false false
    ∷ spec "ssh.shell" ("linux" ∷ []) l1 ("ssh" ∷ []) 0 512000 false false false false
    ∷ spec "ssh.sftp.list" ("linux" ∷ []) l0 ("ssh" ∷ "file" ∷ []) 30 256000 true false false false
    ∷ spec "ssh.sftp.upload" ("linux" ∷ []) l2 ("ssh" ∷ "file" ∷ []) 60 256000 false true true true
    ∷ spec "ssh.sftp.download" ("linux" ∷ []) l1 ("ssh" ∷ "file" ∷ []) 60 256000 true false false
        false
    ∷ spec "linux.service.status" ("linux" ∷ []) l0 ("ssh" ∷ []) 30 256000 true false false false
    ∷ spec "linux.service.restart" ("linux" ∷ []) l2 ("ssh" ∷ []) 120 256000 false false true true
    ∷ spec "linux.log.tail" ("linux" ∷ []) l0 ("ssh" ∷ []) 30 512000 true false false false
    ∷ spec "linux.disk.summary" ("linux" ∷ []) l0 ("ssh" ∷ []) 30 256000 true false false false
    ∷ spec "linux.network.connections" ("linux" ∷ []) l0 ("ssh" ∷ []) 30 256000 true false false
        false
    ∷ spec "windows.service.status" ("windows" ∷ []) l0 ("powershell" ∷ []) 30 256000 true false
        false false
    ∷ spec "windows.service.restart" ("windows" ∷ []) l2 ("powershell" ∷ []) 120 256000 false false
        true true
    ∷ spec "windows.eventlog.query" ("windows" ∷ []) l0 ("powershell" ∷ []) 60 512000 true false
        false false
    ∷ spec "windows.file.backup" ("windows" ∷ []) l1 ("file" ∷ []) 60 256000 true false false false
    ∷ spec "windows.file.replace" ("windows" ∷ []) l2 ("file" ∷ []) 60 256000 false true true true
    ∷ spec "web.http.health" ("windows" ∷ "linux" ∷ []) l0 ("web" ∷ []) 30 256000 true false false
        false
    ∷ spec "web.http.headers" ("windows" ∷ "linux" ∷ []) l1 ("web" ∷ []) 30 256000 true false false
        false
    ∷ spec "web.tls.inspect" ("windows" ∷ "linux" ∷ []) l1 ("web" ∷ []) 30 256000 true false false
        false
    ∷ spec "network.dns.lookup" ("windows" ∷ "linux" ∷ []) l1 ("web" ∷ []) 30 256000 true false
        false false
    ∷ spec "network.ping" ("windows" ∷ "linux" ∷ []) l1 ("web" ∷ []) 30 256000 true false false
        false
    ∷ spec "network.port.probe" ("windows" ∷ "linux" ∷ []) l1 ("web" ∷ []) 60 256000 true false
        false false
    ∷ spec "network.port.quickcheck" ("windows" ∷ "linux" ∷ []) l1 ("web" ∷ []) 60 256000 true false
        false false
    ∷ spec "network.dns.trace" ("windows" ∷ "linux" ∷ []) l1 ("web" ∷ []) 30 256000 true false false
        false
    ∷ spec "web.port.probe" ("windows" ∷ "linux" ∷ []) l1 ("web" ∷ []) 60 256000 true false false
        false
    ∷ spec "web.http.request" ("windows" ∷ "linux" ∷ []) l1 ("web" ∷ []) 60 512000 true false false
        false
    ∷ spec "web.http.probe" ("windows" ∷ "linux" ∷ []) l1 ("web" ∷ []) 120 512000 true false false
        false
    ∷ spec "ops.system.info" ("windows" ∷ "linux" ∷ []) l0 ("local" ∷ "ssh" ∷ []) 30 256000 true
        false false false
    ∷ spec "ops.disk.usage" ("windows" ∷ "linux" ∷ []) l1 ("file" ∷ []) 120 512000 true false false
        false
    ∷ spec "ops.process.list" ("windows" ∷ "linux" ∷ []) l0 ("local" ∷ "ssh" ∷ []) 30 512000 true
        false false false
    ∷ spec "ops.net.connections" ("windows" ∷ "linux" ∷ []) l0 ("local" ∷ "ssh" ∷ []) 30 512000 true
        false false false
    ∷ spec "ops.env.check" ("windows" ∷ "linux" ∷ []) l0 ("local" ∷ "ssh" ∷ []) 30 256000 true false
        false false
    ∷ spec "file.log.tail" ("windows" ∷ "linux" ∷ []) l1 ("file" ∷ []) 30 512000 true false false
        false
    ∷ spec "file.log.grep" ("windows" ∷ "linux" ∷ []) l1 ("file" ∷ []) 60 512000 true false false
        false
    ∷ spec "file.hash" ("windows" ∷ "linux" ∷ []) l1 ("file" ∷ []) 60 256000 true false false false
    ∷ spec "archive.inspect" ("windows" ∷ "linux" ∷ []) l1 ("file" ∷ []) 60 512000 true false false
        false
    ∷ spec "tool.ffuf.run" ("windows" ∷ []) l1 ("web" ∷ "tool" ∷ []) 300 512000 false false false
        false
    ∷ spec "tool.httpx.run" ("windows" ∷ []) l1 ("web" ∷ "tool" ∷ []) 120 512000 true false false
        false
    ∷ spec "tool.dnsx.run" ("windows" ∷ []) l1 ("web" ∷ "tool" ∷ []) 120 512000 true false false
        false
    ∷ spec "tool.subfinder.run" ("windows" ∷ []) l1 ("web" ∷ "tool" ∷ []) 180 512000 true false
        false false
    ∷ spec "tool.nmap.ssh" ("linux" ∷ []) l1 ("ssh" ∷ "tool" ∷ []) 300 512000 false false false
        false
    ∷ spec "load.k6.run" ("windows" ∷ "linux" ∷ []) l2 ("web" ∷ "load" ∷ []) 600 512000 false false
        false false
    ∷ []
