-- ===== src/Notifications.antt =====
-- service/agent/notifications.py with schema/agent/notifications.py and
-- model/agent/notifications.py: the inbox that wakes agents, as the rows of its table. Instants are
-- numbers. This file has the rows, their payloads and the snapshots; Inbox and Claims have the operations.
pub mod Tracked
pub mod Inbox
pub mod Claims
pub mod Steps
pub mod Obligations
pub mod Tests
use zj_cyber_workbench.Prelude.{
  if◌then◌else◌, string_eq, ◌==◌, nat_eq, not, ◌||◌, ℕ, String, Bool, true, false, Option, none,
  some, List, [], ◌∷◌,
}
use zj_cyber_workbench.Json.{
  Json, text, array, object, Items, nil, cons, Fields, end, field, fields_get, fields_set, is_true,
}

pub data NotificationKind : Type 0 where
  subagent_finished sandbox_async_job_finished user_message : NotificationKind

pub data NotificationStatus : Type 0 where
  awaiting pending processing completed failed canceled : NotificationStatus

abbrev pub is_user_message : NotificationKind → Bool
is_user_message user_message = true
is_user_message _ = false

abbrev pub is_awaiting : NotificationStatus → Bool
is_awaiting awaiting = true
is_awaiting _ = false

abbrev pub is_pending : NotificationStatus → Bool
is_pending pending = true
is_pending _ = false

abbrev pub is_processing : NotificationStatus → Bool
is_processing processing = true
is_processing _ = false

-- `_TERMINAL_NOTIFICATION_STATUSES`
abbrev pub is_terminal : NotificationStatus → Bool
is_terminal completed = true
is_terminal failed = true
is_terminal canceled = true
is_terminal _ = false

-- `OUTSTANDING_NOTIFICATION_STATUSES`
abbrev pub is_outstanding : NotificationStatus → Bool
is_outstanding awaiting = true
is_outstanding pending = true
is_outstanding processing = true
is_outstanding _ = false

-- `_ACTIVE_CANCELABLE_VALUES`
abbrev pub is_active : NotificationStatus → Bool
is_active pending = true
is_active processing = true
is_active _ = false

abbrev pub same_kind : NotificationKind → NotificationKind → Bool
same_kind subagent_finished subagent_finished = true
same_kind sandbox_async_job_finished sandbox_async_job_finished = true
same_kind user_message user_message = true
same_kind _ _ = false

abbrev pub user_message_priority : ℕ
user_message_priority = 10

abbrev pub system_notification_priority : ℕ
system_notification_priority = 0

-- What a caller may restrict the work of an agent to.
pub record RuntimeScope : Type 0 where
  pub allowed_targets : List String
  pub allowed_action_types : List String
  pub scope_id : String

pub record Sandbox : Type 0 where
  pub sandbox_container_id : Option ℕ
  pub sandbox_container_generation : ℕ
  pub sandbox_skill_metadata : List String

pub record AgentNotification : Type 0 where
  pub id : String
  pub session_id : String
  pub target_agent_code : String
  pub target_agent_instance_id : String
  pub nested_for_agent_code : String
  pub nested_call_id : String
  pub sandbox : Sandbox
  pub kind : NotificationKind
  pub status : NotificationStatus
  pub priority : ℕ
  pub run_id : String
  pub payload : Fields
  pub error : String
  pub created_at : ℕ
  pub updated_at : ℕ
  pub started_at : Option ℕ
  pub finished_at : Option ℕ

abbrev pub runtime_scope_key : String
runtime_scope_key = "_runtime_scope"

unfoldable pub items_of : List String → Items
items_of [] = nil
items_of (x ∷ xs) = cons (text x) (items_of xs)

-- `_coerce_string_tuple`: the strings of a list; what is no list has none.
unfoldable pub strings_of : Items → List String
strings_of nil = []
strings_of (cons (text x) xs) = x ∷ strings_of xs
strings_of (cons _ xs) = strings_of xs

unfoldable pub coerce_string_tuple : Option Json → List String
coerce_string_tuple (some (array xs)) = strings_of xs
coerce_string_tuple _ = []

abbrev pub has_items : List String → Bool
has_items [] = false
has_items _ = true

abbrev pub has_scope : RuntimeScope → Bool
has_scope s =
    has_items s.allowed_targets || has_items s.allowed_action_types || not (s.scope_id == "")

unfoldable pub scope_object : RuntimeScope → Json
scope_object s = object (
    field "allowed_targets" (array (items_of s.allowed_targets)) (
      field "allowed_action_types" (array (items_of s.allowed_action_types))
        (field "scope_id" (text s.scope_id) end)))

abbrev pub or_empty : Option Fields → Fields
or_empty none = end
or_empty (some fs) = fs

-- `_payload_with_runtime_scope`
unfoldable pub payload_with_runtime_scope : Option Fields → RuntimeScope → Fields
payload_with_runtime_scope payload s =
    if has_scope s
    then fields_set runtime_scope_key (scope_object s) (or_empty payload)
    else or_empty payload

abbrev pub object_or_empty : Option Json → Fields
object_or_empty (some (object fs)) = fs
object_or_empty _ = end

-- `_runtime_scope_payload`, for a payload that is a dict, as every row's is.
unfoldable pub runtime_scope_payload : Fields → Fields
runtime_scope_payload payload = object_or_empty (fields_get runtime_scope_key payload)

abbrev pub items_or_none : Option Json → Option Items
items_or_none (some (array xs)) = some xs
items_or_none _ = none

-- The fields of a snapshot that are computed; the others are those of the row.
pub record AgentNotificationSnapshot : Type 0 where
  pub row : AgentNotification
  pub scope : RuntimeScope
  pub user_content : Option Items
  pub user_display_text : String
  pub user_requested_agent_code : String

-- `str(value or "")`, where `str` is Python's.
abbrev pub str_or_empty : (Json → String) → Option Json → String
str_or_empty str none = ""
str_or_empty str (some v) = if is_true (some v) then str v else ""

unfoldable pub snapshot_from_notification :
    (Json → String) → AgentNotification → AgentNotificationSnapshot
snapshot_from_notification str row =
    let runtime_scope = runtime_scope_payload row.payload in
    let from_user = is_user_message row.kind in
    let texts = λ (key : String). str_or_empty str (fields_get key row.payload) in
    record {
      row = row;
      scope = record {
        allowed_targets = coerce_string_tuple (fields_get "allowed_targets" runtime_scope);
        allowed_action_types =
            coerce_string_tuple (fields_get "allowed_action_types" runtime_scope);
        scope_id = str_or_empty str (fields_get "scope_id" runtime_scope);
      };
      user_content = if from_user then items_or_none (fields_get "content" row.payload) else none;
      user_display_text = if from_user then texts "display_text" else "";
      user_requested_agent_code = if from_user then texts "requested_agent_code" else "";
    }
