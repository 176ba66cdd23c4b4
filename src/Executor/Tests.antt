-- ===== src/Executor/Tests.antt =====
-- An agent with one message in its inbox, and the theorem at it.
use zj_cyber_workbench.Prelude.{
  string_eq, ◌==◌, nat_eq, filter, any, first_where, update_where, count_where, ℕ, String, ◌≡◌,
  refl, ap, Bool, false, none, some, List, [], ◌∷◌, arith,
}
use zj_cyber_workbench.Json.{end}
use zj_cyber_workbench.Notifications.{user_message, pending, AgentNotification}
use zj_cyber_workbench.Notifications.Inbox.{
  Table, commit_if_one, answer_row, finish_notification, complete_notification, fail_notification,
  in_session,
}
use zj_cyber_workbench.Notifications.Claims.{
  better, first_by_order, start_row, claim_row, claim_found, is_target, is_claimable,
  claim_next_pending_notification, has_pending_notification,
}
use zj_cyber_workbench.Notifications.Steps.{run}
use zj_cyber_workbench.Notifications.Steps.Claiming.{IsKeyed}
use zj_cyber_workbench.Notifications.Tests.{no_sandbox}
use zj_cyber_workbench.Executor.{
  TurnEnd, turn_result, turn_interrupted, turn_failed, Turn, idle, after_turn, run_claimed, drain,
  initial_turn, run_until_idle,
}
use zj_cyber_workbench.Executor.Idle.{has_pending, run_until_idle-pending}

abbrev exactly : String → String → Bool
exactly value pattern = value == pattern

abbrev row_of : String → ℕ → AgentNotification
row_of id created_at = record {
  id = id;
  session_id = "s";
  target_agent_code = "lead";
  target_agent_instance_id = "i";
  nested_for_agent_code = "";
  nested_call_id = "";
  sandbox = no_sandbox;
  kind = user_message;
  status = pending;
  priority = 10;
  run_id = "";
  payload = end;
  error = "";
  created_at = created_at;
  updated_at = created_at;
  started_at = none;
  finished_at = none;
}

abbrev turn_of : ℕ → TurnEnd ℕ → Turn ℕ
turn_of now ending = record { claimed_at = now; meanwhile = []; ended_at = now; ending = ending }

-- The first turn fails, the second is interrupted.
abbrev turns : List (Turn ℕ)
turns = turn_of 3 (turn_failed "") ∷ turn_of 4 turn_interrupted ∷ []

abbrev messages : Table
messages = row_of "n1" 1 ∷ row_of "n2" 2 ∷ []

all_open : Unit {0}
unfolding run_until_idle initial_turn drain run_claimed after_turn claim_next_pending_notification
    claim_found claim_row count_where filter is_claimable in_session is_target first_by_order better
    update_where first_where start_row run complete_notification fail_notification
    finish_notification answer_row commit_if_one has_pending_notification any
all_open = tt

becomes_idle :
    (run_until_idle exactly "s" "i" (some (turn_of 0 (turn_result 7))) turns 5 messages).0
    ≡ idle (some 7)
unfolding all_open
becomes_idle = refl

messages-IsKeyed :
    IsKeyed (run_until_idle exactly "s" "i" (some (turn_of 0 (turn_result 7))) turns 5 messages).1
unfolding all_open
messages-IsKeyed = ((λ e. ground (arith, ap (λ x. x == "n1") e), tt), (tt, tt))

run_until_idle-pending_example :
    has_pending exactly "s" "i"
      (run_until_idle exactly "s" "i" (some (turn_of 0 (turn_result 7))) turns 5 messages).1
    ≡ false
run_until_idle-pending_example =
    run_until_idle-pending exactly "s" "i" (some (turn_of 0 (turn_result 7))) turns 5 messages
      (some 7) becomes_idle messages-IsKeyed
