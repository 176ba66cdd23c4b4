-- ===== src/Notifications/Steps/Liveness.antt =====
-- service/agent/notifications.py: outstanding work, over sequences of calls.
use zj_cyber_workbench.Prelude.{
  string_eq, nat_eq, ◌&&◌, any, update_first, update_where, ℕ, String, ◌≡◌, refl, Bool, true, false,
  Option, none, some, List, [], ◌∷◌, ◌++◌, arith,
}
use zj_cyber_workbench.Notifications.{is_outstanding, AgentNotification}
use zj_cyber_workbench.Notifications.Claims.{
  start_row, is_pending_row, claim_row, claim_found, is_target, claim_next_pending_notification,
  has_outstanding_target_notifications, has_active_session_notifications,
}
use zj_cyber_workbench.Notifications.Inbox.{
  Table, commit_if_one, add_obligation_in_session, enqueue_user_message_notification, resolve_row,
  resolve_obligation_in_session, answer_row, release_notification, cancel_row, cancel_notifications,
  in_session, cancel_session_notifications, reset_processing_notifications_all,
}
use zj_cyber_workbench.Notifications.Steps.{
  Step, add_obligation, resolve_obligation, enqueue_user_message, claim_next, complete, fail,
  release, cancel_session, interrupt_main_agent, reset_processing, step, run,
}

-- The calls that do not finish work.
abbrev pub keeps_work : Step → Bool
keeps_work (resolve_obligation _ _ ready _ _ _) = ready
keeps_work (complete _ _) = false
keeps_work (fail _ _ _) = false
keeps_work (cancel_session _ _ _ _) = false
keeps_work (interrupt_main_agent _ _ _) = false
keeps_work _ = true

abbrev pub all_keep : List Step → Bool
all_keep [] = true
all_keep (s ∷ steps) = keeps_work s && all_keep steps

-- `f` keeps `q` on every row.
abbrev Keeps : (AgentNotification → Bool) → (AgentNotification → AgentNotification) → Type 0
Keeps q f = (row : AgentNotification) → q row ≡ true → q (f row) ≡ true

module _ (q : AgentNotification → Bool) where
  any-append : (table rest : Table) → any q table ≡ true → any q (table ++ rest) ≡ true
  unfolding any
  any-append [] rest h = ground (arith, h)
  any-append (r ∷ table) rest h = ground (arith, h, any-append table rest)

  any-update_where :
      (p : AgentNotification → Bool) (f : AgentNotification → AgentNotification) (table : Table)
      → Keeps q f
      → any q table ≡ true
      → any q (update_where p f table) ≡ true
  unfolding any update_where
  any-update_where p f [] k h = h
  any-update_where p f (r ∷ table) k h = ground (arith, h, k r, any-update_where p f table k)

  any-update_first :
      (p : AgentNotification → Bool) (f : AgentNotification → AgentNotification) (table : Table)
      → Keeps q f
      → any q table ≡ true
      → any q (update_first p f table) ≡ true
  unfolding any update_first
  any-update_first p f [] k h = h
  any-update_first p f (r ∷ table) k h = ground (arith, h, k r, any-update_first p f table k)

  any-commit_if_one :
      (p : AgentNotification → Bool) (f : AgentNotification → AgentNotification) (table : Table)
      → Keeps q f
      → any q table ≡ true
      → any q (commit_if_one p f table) ≡ true
  unfolding commit_if_one
  any-commit_if_one p f table k h = ground (arith, h, any-update_where p f table k h)

  any-answer_row :
      (id : String) (settled : AgentNotification → Bool) (found : Option AgentNotification)
      (after table : Table)
      → any q table ≡ true
      → any q after ≡ true
      → any q (answer_row id settled found after table).1 ≡ true
  unfolding answer_row
  any-answer_row id settled none after table h k = h
  any-answer_row id settled (some r) after table h k = ground (arith, h, k)

  any-claim_found :
      (now : ℕ) (found : Option AgentNotification) (table : Table)
      → Keeps q (start_row now)
      → any q table ≡ true
      → any q (claim_found now found table).1 ≡ true
  unfolding claim_found claim_row
  any-claim_found now none table k h = h
  any-claim_found now (some row) table k h =
      ground (arith, h, any-update_where (is_pending_row row.id) (start_row now) table k h)

-- Work of a session that is outstanding.
abbrev is_work : String → AgentNotification → Bool
is_work session_id row = in_session session_id row && is_outstanding row.status

module _ (like : String → String → Bool) (session_id : String) where
  step-outstanding :
      (s : Step) (table : Table)
      → keeps_work s ≡ true
      → any (is_work session_id) table ≡ true
      → any (is_work session_id) (step like s table) ≡ true
  unfolding step in_session add_obligation_in_session resolve_obligation_in_session
      enqueue_user_message_notification claim_next_pending_notification release_notification
      reset_processing_notifications_all start_row resolve_row
  step-outstanding (add_obligation kind n payload s now) table k h = any-append _ table _ h
  step-outstanding (resolve_obligation kind run_id ready payload error now) table k h =
      any-update_first _ _ _ table (λ row e. ground (arith, k, e)) h
  step-outstanding (enqueue_user_message n content display_text requested s now) table k h =
      any-append _ table _ h
  step-outstanding (claim_next session_id agent_code instance_id now) table k h =
      any-claim_found _ now _ table (λ row e. ground (arith, e)) h
  step-outstanding (complete id now) table k h = ground (arith, k)
  step-outstanding (fail id error now) table k h = ground (arith, k)
  step-outstanding (release id now) table k h =
      any-answer_row _ _ _ _ _ table h
        (any-commit_if_one _ _ _ table (λ row e. ground (arith, e)) h)
  step-outstanding (cancel_session session_id error instance_id now) table k h = ground (arith, k)
  step-outstanding (interrupt_main_agent session_id error now) table k h = ground (arith, k)
  step-outstanding (reset_processing now) table k h =
      any-update_where _ _ _ table (λ row e. ground (arith, e)) h

  -- A session with outstanding work stays live over any sequence of calls that are no completion,
  -- failure, cancellation or interrupt and that resolve obligations only as ready.
  pub run-outstanding :
      (steps : List Step) (table : Table)
      → all_keep steps ≡ true
      → has_active_session_notifications session_id table ≡ true
      → has_active_session_notifications session_id (run like steps table) ≡ true
  unfolding run has_active_session_notifications
  run-outstanding [] table k h = h
  run-outstanding (s ∷ steps) table k h =
      run-outstanding steps (step like s table) (ground (arith, k))
        (step-outstanding s table (ground (arith, k)) h)

  -- After the cancellation of the notifications of an instance, none of its work is outstanding.
  cancel-outstanding :
      (error instance_id : String) (now : ℕ) (table : Table)
      → has_outstanding_target_notifications like session_id
          (some instance_id)
          (cancel_session_notifications session_id error (some instance_id) now table).1
        ≡ false
  unfolding has_outstanding_target_notifications cancel_session_notifications cancel_notifications
      update_where any cancel_row in_session is_target
  cancel-outstanding error instance_id now [] = refl
  cancel-outstanding error instance_id now (r ∷ table) =
      ground (arith, cancel-outstanding error instance_id now table)
