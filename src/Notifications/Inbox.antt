-- ===== src/Notifications/Inbox.antt =====
-- service/agent/notifications.py: the operations on the table of notifications. A call gives its
-- result and the table that it leaves.
use zj_cyber_workbench.Prelude.{
  if◌then◌else◌, string_eq, ◌==◌, nat_eq, not, ◌&&◌, filter, first_where, update_first,
  update_where, count_where, ℕ, String, Bool, true, false, Option, none, some, List, [], ◌∷◌, ◌++◌,
  map,
}
use zj_cyber_workbench.Json.{text, array, object, Items, Fields, end, field, fields_set}
use zj_cyber_workbench.Notifications.{
  NotificationKind, user_message, NotificationStatus, awaiting, pending, completed, failed,
  canceled, is_awaiting, is_processing, is_terminal, is_outstanding, same_kind,
  user_message_priority, system_notification_priority, RuntimeScope, Sandbox, AgentNotification,
  runtime_scope_key, payload_with_runtime_scope, runtime_scope_payload,
}

abbrev pub Table : Type 0
Table = List AgentNotification

abbrev pub Call : Type 0 → Type 0
Call A = A × Table

abbrev pub has_id : String → AgentNotification → Bool
has_id notification_id row = row.id == notification_id

-- `session.get(AgentNotification, notification_id)`
abbrev pub get_row : String → Table → Option AgentNotification
get_row notification_id = first_where (has_id notification_id)

-- An update that must change one row: it commits, or it is rolled back.
unfoldable pub commit_if_one :
    (AgentNotification → Bool) → (AgentNotification → AgentNotification) → Table → Table
commit_if_one p f table = if count_where p table == 1 then update_where p f table else table

-- The columns of a new row that its creator chooses. The codes of `nested_*` are empty for user
-- messages.
pub record NewNotification : Type 0 where
  pub new_id : String
  pub new_run_id : String
  pub new_session_id : String
  pub new_target_agent_code : String
  pub new_target_agent_instance_id : String
  pub new_nested_for_agent_code : String
  pub new_nested_call_id : String
  pub new_sandbox : Sandbox

unfoldable pub new_row :
    NewNotification
    → NotificationKind
    → NotificationStatus
    → (priority : ℕ) → Fields
    → (now : ℕ) → AgentNotification
new_row n kind status priority payload now = record {
  id = n.new_id;
  session_id = n.new_session_id;
  target_agent_code = n.new_target_agent_code;
  target_agent_instance_id = n.new_target_agent_instance_id;
  nested_for_agent_code = n.new_nested_for_agent_code;
  nested_call_id = n.new_nested_call_id;
  sandbox = n.new_sandbox;
  kind = kind;
  status = status;
  priority = priority;
  run_id = n.new_run_id;
  payload = payload;
  error = "";
  created_at = now;
  updated_at = now;
  started_at = none;
  finished_at = none;
}

unfoldable pub add_obligation_in_session :
    NotificationKind
    → NewNotification
    → Option Fields
    → RuntimeScope
    → (now : ℕ) → Table
    → Call AgentNotification
add_obligation_in_session kind n payload s now table =
    let row =
      new_row n kind awaiting system_notification_priority (payload_with_runtime_scope payload s)
        now in
    (row, table ++ (row ∷ []))

unfoldable pub user_payload : Items → String → String → Fields
user_payload content display_text requested_agent_code = field "content" (array content) (
    field "display_text" (text display_text)
      (field "requested_agent_code" (text requested_agent_code) end))

unfoldable pub enqueue_user_message_notification :
    NewNotification
    → Items
    → (display_text requested_agent_code : String) → RuntimeScope
    → (now : ℕ) → Table
    → Call AgentNotification
enqueue_user_message_notification n content display_text requested_agent_code s now table =
    let own = record n { new_nested_for_agent_code = ""; new_nested_call_id = "" } in
    let payload = user_payload content display_text requested_agent_code in
    let row =
      new_row own user_message pending user_message_priority
        (payload_with_runtime_scope (some payload) s) now in
    (row, table ++ (row ∷ []))

abbrev pub is_obligation : NotificationKind → String → AgentNotification → Bool
is_obligation kind run_id row = same_kind row.kind kind && row.run_id == run_id

abbrev pub is_empty : Fields → Bool
is_empty end = true
is_empty _ = false

-- A new payload keeps the scope of the old one.
unfoldable pub replace_payload : Option Fields → Fields → Fields
replace_payload none current = current
replace_payload (some payload) current =
    let current_scope = runtime_scope_payload current in
    if is_empty current_scope
    then payload
    else fields_set runtime_scope_key (object current_scope) payload

unfoldable pub resolve_row :
    (ready : Bool)
    → Option Fields
    → (error : String) → (now : ℕ) → AgentNotification
    → AgentNotification
resolve_row ready payload error now row =
    if is_awaiting row.status
    then record row {
      status = (if ready then pending else canceled);
      payload = replace_payload payload row.payload;
      error = error;
      updated_at = now;
      finished_at = (if ready then row.finished_at else some now);
    }
    else row

unfoldable pub resolve_obligation_in_session :
    NotificationKind
    → (run_id : String) → (ready : Bool) → Option Fields
    → (error : String) → (now : ℕ) → Table
    → Call (Option AgentNotification)
resolve_obligation_in_session kind run_id ready payload error now table =
    let after =
      update_first (is_obligation kind run_id) (resolve_row ready payload error now) table in
    (first_where (is_obligation kind run_id) after, after)

-- What a call answers that found `found`, where `after` is the table that it wants to leave.
unfoldable pub answer_row :
    String
    → (settled : AgentNotification → Bool) → Option AgentNotification
    → Table
    → Table
    → Call (Option AgentNotification)
answer_row notification_id settled none after table = (none, table)
answer_row notification_id settled (some row) after table =
    if settled row then (some row, table) else (get_row notification_id after, after)

abbrev pub is_processing_row : String → AgentNotification → Bool
is_processing_row notification_id row = has_id notification_id row && is_processing row.status

unfoldable pub finish_notification :
    String
    → NotificationStatus
    → (error : String) → (now : ℕ) → Table
    → Call (Option AgentNotification)
finish_notification notification_id status error now table =
    answer_row notification_id (λ row. is_terminal row.status) (get_row notification_id table)
      (commit_if_one (is_processing_row notification_id)
        (λ row. record row {
          status = status;
          error = error;
          updated_at = now;
          finished_at = some now;
        })
        table)
      table

unfoldable pub complete_notification : String → (now : ℕ) → Table → Call (Option AgentNotification)
complete_notification notification_id = finish_notification notification_id completed ""

unfoldable pub fail_notification :
    String → (error : String) → (now : ℕ) → Table → Call (Option AgentNotification)
fail_notification notification_id = finish_notification notification_id failed

-- The start is kept, so that an interrupt tells a released message from a fresh one.
unfoldable pub release_notification : String → (now : ℕ) → Table → Call (Option AgentNotification)
release_notification notification_id now table =
    answer_row notification_id (λ row. not (is_processing row.status))
      (get_row notification_id table)
      (commit_if_one (is_processing_row notification_id)
        (λ row. record row { status = pending; error = ""; updated_at = now }) table)
      table

unfoldable pub cancel_row : (error : String) → (now : ℕ) → AgentNotification → AgentNotification
cancel_row error now row = record row {
  status = canceled;
  error = error;
  updated_at = now;
  finished_at = some now;
}

unfoldable pub cancel_notifications :
    (AgentNotification → Bool)
    → (error : String) → (now : ℕ) → Table
    → Call (List AgentNotification)
cancel_notifications p error now table =
    (map (cancel_row error now) (filter p table), update_where p (cancel_row error now) table)

unfoldable pub in_session : String → AgentNotification → Bool
in_session session_id row = row.session_id == session_id

-- A filter that the caller may leave out.
abbrev pub given : Option String → String → Bool
given none value = true
given (some wanted) value = value == wanted

unfoldable pub cancel_session_notifications :
    (session_id : String)
    → (error : String) → Option String
    → (now : ℕ) → Table
    → Call (List AgentNotification)
cancel_session_notifications session_id error instance_id =
    cancel_notifications
      (λ row.
        in_session session_id row
        && is_outstanding row.status
        && given instance_id row.target_agent_instance_id)
      error

unfoldable pub reset_processing_notifications_all : (now : ℕ) → Table → Call ℕ
reset_processing_notifications_all now table =
    let p = λ (row : AgentNotification). is_processing row.status in
    (
      count_where p table,
      update_where p
          (λ row. record row { status = pending; error = ""; started_at = none; updated_at = now })
          table,
    )
