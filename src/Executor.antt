-- ===== src/Executor.antt =====
-- core/task_runtime/executor.py: the loop that runs an agent until its inbox is empty. How each turn
-- ends is an argument, with the calls that change the inbox meanwhile.
pub mod Idle
pub mod Tests
use zj_cyber_workbench.Prelude.{
  if◌then◌else◌, string_eq, ◌==◌, ℕ, String, Bool, Option, none, some, List, [], ◌∷◌,
}
use zj_cyber_workbench.Notifications.{AgentNotification}
use zj_cyber_workbench.Notifications.Inbox.{
  Table, Call, complete_notification, fail_notification, release_notification,
}
use zj_cyber_workbench.Notifications.Claims.{claim_next_pending_notification}
use zj_cyber_workbench.Notifications.Steps.{Step, run}

-- How `run_turn` ends: it returns, or raises `InterruptSignal`, `CancelledError`, or another
-- exception, of this text.
pub data TurnEnd (A : Type 0) : Type 0 where
  turn_result : A → TurnEnd A
  turn_interrupted turn_canceled : TurnEnd A
  turn_failed : (error : String) → TurnEnd A

pub record Turn (A : Type 0) : Type 0 where
  pub claimed_at : ℕ
  pub meanwhile : List Step
  pub ended_at : ℕ
  pub ending : TurnEnd A

-- Where the loop is: it has returned the last result, it has raised, or a turn is running.
pub data Drain (A : Type 0) : Type 0 where
  idle : Option A → Drain A
  canceled_drain : Drain A
  failed_drain : (error : String) → Drain A
  in_turn : Option AgentNotification → Drain A

abbrev pub error_or : (error default : String) → String
error_or error default = if error == "" then default else error

module _ (like : String → String → Bool) (session_id agent_instance_id : String) where
  abbrev pub claim : (now : ℕ) → Table → Call (Option AgentNotification)
  claim now table =
      claim_next_pending_notification like session_id none (some agent_instance_id) now table

  module _ {A : Type 0} where
    -- The statements behind `run_turn`, by how it ends; `go_on` is the rest of the loop.
    unfoldable pub after_turn :
        (notification_id : String)
        → (now : ℕ) → TurnEnd A
        → (go_on : Option A → Table → Drain A × Table) → Option A
        → Table
        → Drain A × Table
    after_turn notification_id now (turn_result r) go_on result table =
        go_on (some r) (complete_notification notification_id now table).1
    after_turn notification_id now turn_interrupted go_on result table =
        go_on result (complete_notification notification_id now table).1
    after_turn notification_id now turn_canceled go_on result table =
        (canceled_drain, (release_notification notification_id now table).1)
    after_turn notification_id now (turn_failed error) go_on result table =
        go_on result
          (fail_notification notification_id (error_or error "notification handling failed") now
            table).1

    -- One round of the loop, by what the claim gave; `none` is a turn that is still running.
    unfoldable pub run_claimed :
        Option AgentNotification
        → Option (Turn A)
        → (go_on : Option A → Table → Drain A × Table) → Option A
        → Table
        → Drain A × Table
    run_claimed none turn go_on result table = (idle result, table)
    run_claimed (some notification) none go_on result table = (in_turn (some notification), table)
    run_claimed (some notification) (some turn) go_on result table =
        after_turn notification.id turn.ended_at turn.ending go_on result
          (run like turn.meanwhile table)

    -- The `while` loop.
    unfoldable pub drain : List (Turn A) → (last_now : ℕ) → Option A → Table → Drain A × Table
    drain [] last_now result table =
        let claimed = claim last_now table in
        run_claimed claimed.0 none (λ r t. (in_turn none, t)) result claimed.1
    drain (turn ∷ turns) last_now result table =
        let claimed = claim turn.claimed_at table in
        run_claimed claimed.0 (some turn) (λ r t. drain turns last_now r t) result claimed.1

    abbrev pub after_initial :
        TurnEnd A → (go_on : Option A → Table → Drain A × Table) → Table → Drain A × Table
    after_initial (turn_result r) go_on table = go_on (some r) table
    after_initial turn_interrupted go_on table = go_on none table
    after_initial turn_canceled go_on table = (canceled_drain, table)
    after_initial (turn_failed error) go_on table = (failed_drain error, table)

    -- The turn of the initial content, if there is one, where only an interrupt is caught.
    unfoldable pub initial_turn :
        Option (Turn A) → (go_on : Option A → Table → Drain A × Table) → Table → Drain A × Table
    initial_turn none go_on table = go_on none table
    initial_turn (some turn) go_on table =
        after_initial turn.ending go_on (run like turn.meanwhile table)

    unfoldable pub run_until_idle :
        (initial : Option (Turn A)) → List (Turn A) → (last_now : ℕ) → Table → Drain A × Table
    run_until_idle initial turns last_now table =
        initial_turn initial (λ r t. drain turns last_now r t) table
