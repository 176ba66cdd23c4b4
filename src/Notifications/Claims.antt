-- ===== src/Notifications/Claims.antt =====
-- service/agent/notifications.py: claims, the queries, and the interrupt of a main agent.
use zj_cyber_workbench.Prelude.{
  ltb, leb, if◌then◌else◌, string_eq, ◌==◌, nat_eq, not, ◌&&◌, ◌||◌, filter, any, update_where,
  count_where, ℕ, String, Bool, true, false, Option, none, some, List, [], ◌∷◌,
}
use zj_cyber_workbench.Notifications.{
  processing, is_user_message, is_pending, is_outstanding, is_active, AgentNotification,
}
use zj_cyber_workbench.Notifications.Inbox.{
  Table, Call, has_id, get_row, cancel_notifications, in_session, given,
}

-- `ORDER BY priority DESC, created_at ASC`. Rows that are equal in both come in the table's order.
abbrev pub is_before : AgentNotification → AgentNotification → Bool
is_before a b =
    ltb b.priority a.priority || (a.priority == b.priority && leb a.created_at b.created_at)

unfoldable pub better : AgentNotification → Option AgentNotification → AgentNotification
better row none = row
better row (some best) = if is_before row best then row else best

-- `.order_by(...).limit(1)`
unfoldable pub first_by_order : Table → Option AgentNotification
first_by_order [] = none
first_by_order (row ∷ table) = some (better row (first_by_order table))

unfoldable pub start_row : (now : ℕ) → AgentNotification → AgentNotification
start_row now row = record row { status = processing; started_at = some now; updated_at = now }

abbrev pub is_pending_row : String → AgentNotification → Bool
is_pending_row notification_id row = has_id notification_id row && is_pending row.status

unfoldable pub claim_row : (now : ℕ) → AgentNotification → Table → Call (Option AgentNotification)
claim_row now row table =
    if count_where (is_pending_row row.id) table == 1
    then (let after = update_where (is_pending_row row.id) (start_row now) table in
        (get_row row.id after, after))
    else (none, table)

unfoldable pub claim_found :
    (now : ℕ) → Option AgentNotification → Table → Call (Option AgentNotification)
claim_found now none table = (none, table)
claim_found now (some row) table = claim_row now row table

abbrev pub has_started : Option ℕ → Bool
has_started none = false
has_started (some _) = true

-- `LIKE` of the database: the value, then the pattern.
module _ (like : String → String → Bool) where
  -- `_filter_notification_target`
  unfoldable pub is_target : Option String → AgentNotification → Bool
  is_target none row = like row.target_agent_instance_id "main:%"
  is_target (some instance_id) row = row.target_agent_instance_id == instance_id

  unfoldable pub is_claimable :
      (session_id : String) → (agent_code instance_id : Option String) → AgentNotification → Bool
  is_claimable session_id agent_code instance_id row =
      in_session session_id row
      && is_pending row.status
      && given agent_code row.target_agent_code
      && is_target instance_id row

  -- The claims of one process come one after the other, by a lock.
  unfoldable pub claim_next_pending_notification :
      (session_id : String)
      → (agent_code instance_id : Option String) → (now : ℕ) → Table
      → Call (Option AgentNotification)
  claim_next_pending_notification session_id agent_code instance_id now table =
      claim_found now
        (first_by_order (filter (is_claimable session_id agent_code instance_id) table)) table

  unfoldable pub has_pending_notification :
      (session_id : String) → (agent_code instance_id : Option String) → Table → Bool
  has_pending_notification session_id agent_code instance_id table =
      any (is_claimable session_id agent_code instance_id) table

  unfoldable pub has_pending_main_agent_notification : (session_id : String) → Table → Bool
  has_pending_main_agent_notification session_id table =
      any
        (λ row.
          in_session session_id row
          && is_pending row.status
          && like row.target_agent_instance_id "main:%")
        table

  unfoldable pub has_outstanding_target_notifications :
      (session_id : String) → Option String → Table → Bool
  has_outstanding_target_notifications session_id instance_id table =
      any
        (λ row. in_session session_id row && is_outstanding row.status && is_target instance_id row)
        table

  -- Fresh user messages, which nobody has claimed, are spared.
  unfoldable pub is_interrupted : (session_id : String) → AgentNotification → Bool
  is_interrupted session_id row =
      in_session session_id row
      && is_active row.status
      && like row.target_agent_instance_id "main:%"
      && (not (is_user_message row.kind) || has_started row.started_at)

  unfoldable pub cancel_main_agent_interrupted_notifications :
      (session_id : String) → (error : String) → (now : ℕ) → Table → Call (List AgentNotification)
  cancel_main_agent_interrupted_notifications session_id error =
      cancel_notifications (is_interrupted session_id) error

unfoldable pub has_active_session_notifications : (session_id : String) → Table → Bool
has_active_session_notifications session_id table =
    any (λ row. in_session session_id row && is_outstanding row.status) table
