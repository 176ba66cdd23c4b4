-- ===== src/Notifications/Steps.antt =====
-- service/agent/notifications.py: sequences of calls on the table. Each call is one transaction.
pub mod Terminal
pub mod Claiming
pub mod Interruption
pub mod Liveness
pub mod Sparing
use zj_cyber_workbench.Prelude.{ℕ, String, Bool, Option, List, [], ◌∷◌}
use zj_cyber_workbench.Json.{Items, Fields}
use zj_cyber_workbench.Notifications.{NotificationKind, RuntimeScope}
use zj_cyber_workbench.Notifications.Claims.{
  claim_next_pending_notification, cancel_main_agent_interrupted_notifications,
}
use zj_cyber_workbench.Notifications.Inbox.{
  Table, NewNotification, add_obligation_in_session, enqueue_user_message_notification,
  resolve_obligation_in_session, complete_notification, fail_notification, release_notification,
  cancel_session_notifications, reset_processing_notifications_all,
}

-- The calls that change the table, with their arguments; each has the clock's reading.
pub data Step : Type 0 where
  add_obligation : NotificationKind → NewNotification → Option Fields → RuntimeScope → ℕ → Step
  resolve_obligation :
      NotificationKind → String → (ready : Bool) → Option Fields → String → ℕ → Step
  enqueue_user_message : NewNotification → Items → String → String → RuntimeScope → ℕ → Step
  claim_next : (session_id : String) → (agent_code instance_id : Option String) → ℕ → Step
  complete : String → ℕ → Step
  fail : String → String → ℕ → Step
  release : String → ℕ → Step
  cancel_session : String → String → Option String → ℕ → Step
  interrupt_main_agent : String → String → ℕ → Step
  reset_processing : ℕ → Step

module _ (like : String → String → Bool) where
  unfoldable pub step : Step → Table → Table
  step (add_obligation kind n payload s now) table =
      (add_obligation_in_session kind n payload s now table).1
  step (resolve_obligation kind run_id ready payload error now) table =
      (resolve_obligation_in_session kind run_id ready payload error now table).1
  step (enqueue_user_message n content display_text requested s now) table =
      (enqueue_user_message_notification n content display_text requested s now table).1
  step (claim_next session_id agent_code instance_id now) table =
      (claim_next_pending_notification like session_id agent_code instance_id now table).1
  step (complete notification_id now) table = (complete_notification notification_id now table).1
  step (fail notification_id error now) table =
      (fail_notification notification_id error now table).1
  step (release notification_id now) table = (release_notification notification_id now table).1
  step (cancel_session session_id error instance_id now) table =
      (cancel_session_notifications session_id error instance_id now table).1
  step (interrupt_main_agent session_id error now) table =
      (cancel_main_agent_interrupted_notifications like session_id error now table).1
  step (reset_processing now) table = (reset_processing_notifications_all now table).1

  unfoldable pub run : List Step → Table → Table
  run [] table = table
  run (s ∷ steps) table = run steps (step s table)
