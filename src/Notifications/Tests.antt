-- ===== src/Notifications/Tests.antt =====
-- The inbox on concrete tables, and the theorems at them.
use zj_cyber_workbench.Notifications.Obligations.{scope-resolve}
use zj_cyber_workbench.Notifications.Steps.Terminal.{run-terminal}
use zj_cyber_workbench.Notifications.Steps.Claiming.{
  IsKeyed, IsClaim, claim_next_pending_notification-IsClaim,
}
use zj_cyber_workbench.Notifications.Steps.Interruption.{
  is_fresh_message, is_main_work, interrupt-fresh_iff,
}
use zj_cyber_workbench.Notifications.Steps.Liveness.{run-outstanding}
use zj_cyber_workbench.Prelude.{
  string_eq, ◌==◌, nat_eq, ◌&&◌, filter, any, In, first_where, update_where, count_where, String,
  ◌≡◌, refl, ap, ◌↔◌, inl, Bool, true, none, some, [], ◌∷◌, arith,
}
use zj_cyber_workbench.Json.{Json, text, end}
use zj_cyber_workbench.Notifications.{
  subagent_finished, user_message, pending, processing, completed, canceled, RuntimeScope, Sandbox,
  AgentNotification, snapshot_from_notification,
}
use zj_cyber_workbench.Notifications.Claims.{
  better, first_by_order, start_row, claim_row, claim_found, is_target, is_claimable,
  claim_next_pending_notification, has_pending_notification, is_interrupted,
  cancel_main_agent_interrupted_notifications, has_active_session_notifications,
}
use zj_cyber_workbench.Notifications.Inbox.{
  Table, NewNotification, add_obligation_in_session, resolve_row, cancel_row, cancel_notifications,
  in_session,
}
use zj_cyber_workbench.Notifications.Steps.{claim_next, complete, release, reset_processing, run}

-- `LIKE` for the one instance of the tests.
abbrev is_like : String → String → Bool
is_like value pattern = value == "main:s:1:lead" && pattern == "main:%"

abbrev pub no_sandbox : Sandbox
no_sandbox = record {
  sandbox_container_id = none;
  sandbox_container_generation = 0;
  sandbox_skill_metadata = [];
}

abbrev fresh : NewNotification
fresh = record {
  new_id = "n1";
  new_run_id = "r1";
  new_session_id = "s";
  new_target_agent_code = "lead";
  new_target_agent_instance_id = "main:s:1:lead";
  new_nested_for_agent_code = "";
  new_nested_call_id = "";
  new_sandbox = no_sandbox;
}

abbrev pub scan_scope : RuntimeScope
scan_scope = record { allowed_targets = "10.0.0.1" ∷ []; allowed_action_types = []; scope_id = "" }

abbrev no_scope : RuntimeScope
no_scope = record { allowed_targets = []; allowed_action_types = []; scope_id = "" }

abbrev message : AgentNotification
message = record {
  id = "n1";
  session_id = "s";
  target_agent_code = "lead";
  target_agent_instance_id = "main:s:1:lead";
  nested_for_agent_code = "";
  nested_call_id = "";
  sandbox = no_sandbox;
  kind = user_message;
  status = pending;
  priority = 10;
  run_id = "r1";
  payload = end;
  error = "";
  created_at = 5;
  updated_at = 5;
  started_at = none;
  finished_at = none;
}

abbrev report : AgentNotification
report = record message {
  id = "n2";
  kind = subagent_finished;
  priority = 0;
  run_id = "r2";
  created_at = 1;
}

abbrev inbox : Table
inbox = report ∷ message ∷ []

abbrev started_message : AgentNotification
started_message = record message { status = processing; started_at = some 7; updated_at = 7 }

abbrev done : AgentNotification
done = record message { status = completed; finished_at = some 9 }

all_open : Unit {0}
unfolding claim_next_pending_notification claim_found claim_row count_where update_where first_where
    first_by_order better filter any is_claimable in_session is_target start_row
    cancel_main_agent_interrupted_notifications cancel_notifications is_interrupted cancel_row
    has_pending_notification has_active_session_notifications
all_open = tt

-- The user's message comes first, though the report is older.
claimed_first :
    (claim_next_pending_notification is_like "s" none none 7 inbox).0 ≡ some started_message
unfolding all_open
claimed_first = refl

-- An interrupt leaves the fresh message.
interrupted_report :
    (cancel_main_agent_interrupted_notifications is_like "s" "" 8 inbox).1
    ≡ (record report { status = canceled; updated_at = 8; finished_at = some 8 }) ∷ message ∷ []
unfolding all_open
interrupted_report = refl

inbox-IsKeyed : IsKeyed inbox
inbox-IsKeyed = ((λ e. ground (arith, ap (λ x. x == "n1") e), tt), (tt, tt))

run-terminal_example :
    In done (run is_like (reset_processing 3 ∷ complete "n1" 4 ∷ []) (done ∷ report ∷ []))
run-terminal_example =
    run-terminal is_like (reset_processing 3 ∷ complete "n1" 4 ∷ []) done (done ∷ report ∷ []) refl
      (inl refl)

claim_next_pending_notification-IsClaim_example :
    (row : AgentNotification) × IsClaim is_like "s" none none 7 inbox
      (claim_next_pending_notification is_like "s" none none 7 inbox).1
      started_message
      row
claim_next_pending_notification-IsClaim_example =
    claim_next_pending_notification-IsClaim is_like "s" none none 7 inbox started_message
      inbox-IsKeyed claimed_first

interrupt-fresh_iff_example :
    (In message (cancel_main_agent_interrupted_notifications is_like "s" "" 8 inbox).1
      × (is_main_work is_like "s" message ≡ true))
    ↔ (In message inbox
        × (is_main_work is_like "s" message ≡ true)
        × (is_fresh_message message ≡ true))
interrupt-fresh_iff_example = interrupt-fresh_iff is_like "s" "" 8 message inbox

run-outstanding_example :
    has_active_session_notifications "s"
      (run is_like (claim_next "s" none none 7 ∷ release "n1" 8 ∷ []) inbox)
    ≡ true
unfolding has_active_session_notifications any in_session
run-outstanding_example =
    run-outstanding is_like "s" (claim_next "s" none none 7 ∷ release "n1" 8 ∷ []) inbox refl refl

abbrev show : Json → String
show (text t) = t
show _ = "?"

scope-resolve_example :
    (snapshot_from_notification show (
      resolve_row true
        (some end)
        ""
        9
        (add_obligation_in_session subagent_finished fresh none scan_scope 3 []).0)).scope
    ≡ scan_scope
scope-resolve_example =
    scope-resolve show (λ t. refl) subagent_finished fresh none (some end) scan_scope true "" 3 9 []
      refl
