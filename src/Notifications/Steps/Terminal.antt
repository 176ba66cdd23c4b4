-- ===== src/Notifications/Steps/Terminal.antt =====
-- service/agent/notifications.py: settled notifications, over sequences of calls.
use zj_cyber_workbench.Notifications.Steps.{
  Step, add_obligation, resolve_obligation, enqueue_user_message, claim_next, complete, fail,
  release, cancel_session, interrupt_main_agent, reset_processing, step, run,
}
use zj_cyber_workbench.Prelude.{
  string_eq, nat_eq, In, In-append, update_first, update_where, ℕ, String, ◌≡◌, ap, inl, inr, Bool,
  true, false, Option, none, some, List, [], ◌∷◌, arith,
}
use zj_cyber_workbench.Json.{Fields}
use zj_cyber_workbench.Notifications.{is_terminal, AgentNotification}
use zj_cyber_workbench.Notifications.Claims.{
  start_row, is_pending_row, claim_row, claim_found, claim_next_pending_notification,
  is_interrupted, cancel_main_agent_interrupted_notifications,
}
use zj_cyber_workbench.Notifications.Inbox.{
  Table, commit_if_one, add_obligation_in_session, enqueue_user_message_notification, resolve_row,
  resolve_obligation_in_session, answer_row, finish_notification, complete_notification,
  fail_notification, release_notification, cancel_notifications, cancel_session_notifications,
  reset_processing_notifications_all,
}

update_where-In :
    (p : AgentNotification → Bool) (f : AgentNotification → AgentNotification)
    (row : AgentNotification) (table : Table)
    → p row ≡ false
    → In row table
    → In row (update_where p f table)
unfolding update_where
update_where-In p f row [] h m = m
update_where-In p f row (r ∷ table) h (inl e) = ground (arith, h, ap p e)
update_where-In p f row (r ∷ table) h (inr m) = ground (arith, update_where-In p f row table h m)

update_first-In :
    (p : AgentNotification → Bool) (f : AgentNotification → AgentNotification)
    (row : AgentNotification) (table : Table)
    → f row ≡ row
    → In row table
    → In row (update_first p f table)
unfolding update_first
update_first-In p f row [] h m = m
update_first-In p f row (r ∷ table) h (inl e) = ground (arith, h, ap f e)
update_first-In p f row (r ∷ table) h (inr m) = ground (arith, m, update_first-In p f row table h m)

commit_if_one-In :
    (p : AgentNotification → Bool) (f : AgentNotification → AgentNotification)
    (row : AgentNotification) (table : Table)
    → p row ≡ false
    → In row table
    → In row (commit_if_one p f table)
unfolding commit_if_one
commit_if_one-In p f row table h m = ground (arith, m, update_where-In p f row table h m)

answer_row-In :
    (id : String) (settled : AgentNotification → Bool) (row : AgentNotification)
    (found : Option AgentNotification) (after table : Table)
    → In row table
    → In row after
    → In row (answer_row id settled found after table).1
unfolding answer_row
answer_row-In id settled row none after table m k = m
answer_row-In id settled row (some r) after table m k = ground (arith, m, k)

resolve_row-terminal :
    (ready : Bool) (payload : Option Fields) (error : String) (now : ℕ) (row : AgentNotification)
    → is_terminal row.status ≡ true
    → resolve_row ready payload error now row ≡ row
unfolding resolve_row
resolve_row-terminal ready payload error now row h = ground (arith, h)

claim_row-In :
    (now : ℕ) (r row : AgentNotification) (table : Table)
    → is_terminal row.status ≡ true
    → In row table
    → In row (claim_row now r table).1
unfolding claim_row
claim_row-In now r row table h m =
    ground (arith, h, m, update_where-In (is_pending_row r.id) (start_row now) row table)

claim_found-In :
    (now : ℕ) (found : Option AgentNotification) (row : AgentNotification) (table : Table)
    → is_terminal row.status ≡ true
    → In row table
    → In row (claim_found now found table).1
unfolding claim_found
claim_found-In now none row table h m = m
claim_found-In now (some r) row table h m = claim_row-In now r row table h m

module _ (like : String → String → Bool) where
  step-In :
      (s : Step) (row : AgentNotification) (table : Table)
      → is_terminal row.status ≡ true
      → In row table
      → In row (step like s table)
  unfolding step add_obligation_in_session resolve_obligation_in_session
      enqueue_user_message_notification claim_next_pending_notification complete_notification
      fail_notification finish_notification release_notification cancel_session_notifications
      cancel_main_agent_interrupted_notifications cancel_notifications is_interrupted
      reset_processing_notifications_all
  step-In (add_obligation kind n payload s now) row table h m = (In-append row table _).1 (inl m)
  step-In (resolve_obligation kind run_id ready payload error now) row table h m =
      update_first-In _ _ row table (resolve_row-terminal ready payload error now row h) m
  step-In (enqueue_user_message n content display_text requested s now) row table h m =
      (In-append row table _).1 (inl m)
  step-In (claim_next session_id agent_code instance_id now) row table h m =
      claim_found-In now _ row table h m
  step-In (complete id now) row table h m =
      answer_row-In _ _ row _ _ table m (commit_if_one-In _ _ row table (ground (arith, h)) m)
  step-In (fail id error now) row table h m =
      answer_row-In _ _ row _ _ table m (commit_if_one-In _ _ row table (ground (arith, h)) m)
  step-In (release id now) row table h m =
      answer_row-In _ _ row _ _ table m (commit_if_one-In _ _ row table (ground (arith, h)) m)
  step-In (cancel_session session_id error instance_id now) row table h m =
      update_where-In _ _ row table (ground (arith, h)) m
  step-In (interrupt_main_agent session_id error now) row table h m =
      update_where-In _ _ row table (ground (arith, h)) m
  step-In (reset_processing now) row table h m = update_where-In _ _ row table (ground (arith, h)) m

  -- A notification that is completed, failed or canceled is still in the table, with every column
  -- unchanged, after any sequence of calls.
  pub run-terminal :
      (steps : List Step) (row : AgentNotification) (table : Table)
      → is_terminal row.status ≡ true
      → In row table
      → In row (run like steps table)
  unfolding run
  run-terminal [] row table h m = m
  run-terminal (s ∷ steps) row table h m =
      run-terminal steps row (step like s table) h (step-In s row table h m)
