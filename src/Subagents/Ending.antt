-- ===== src/Subagents/Ending.antt =====
-- service/agent/subordinates.py: the end of a task, and what its parent gets.
use zj_cyber_workbench.Prelude.{
  if◌then◌else◌, string_eq, ◌==◌, nat_eq, ◌&&◌, any, first_where, update_where, ℕ, String, ◌≡◌,
  refl, sym, ◌∙◌, Bool, true, false, some, arith,
}
use zj_cyber_workbench.Notifications.{
  subagent_finished, NotificationStatus, is_pending, AgentNotification,
}
use zj_cyber_workbench.Notifications.Inbox.{resolve_row, resolve_obligation_in_session}
use zj_cyber_workbench.Notifications.Tracked.{is_awaited_by}
use zj_cyber_workbench.Prelude.Rows.{
  any-changed, count_where-only, first_where-update_where, first_where-update_other,
}
use zj_cyber_workbench.AsyncJobs.Waking.{is_canceled, any-first_where}
use zj_cyber_workbench.Subagents.{
  SubagentStatus, task_running, task_completed, task_failed, task_canceled, is_running_status,
  wakes_parent, SubagentTask, TaskDatabase, is_run, is_parent_obligation, get_task, TaskResult,
  finish_task, is_running_run, task_payload, finish_running_task, finish_found_task,
  finish_subagent_task,
}
use zj_cyber_workbench.Subagents.Pairing.{has_waiting_parent, run_id_of_task, IsPairedTasks}

-- What the end of a task makes of its obligation, by the status that the task ends in.
abbrev pub answers_parent : SubagentStatus → NotificationStatus → Bool
answers_parent task_completed status = is_pending status
answers_parent task_failed status = is_pending status
answers_parent _ status = is_canceled status

abbrev pub is_end_of : String → SubagentStatus → AgentNotification → Bool
is_end_of run_id ending n = is_parent_obligation run_id n && answers_parent ending n.status

-- The row of a task that has ended with a result.
abbrev pub ended_task : TaskResult → (now : ℕ) → SubagentTask → SubagentTask
ended_task r now task = record task {
  status = r.ending;
  result = r.result;
  error = r.error;
  progress = "";
  updated_at = now;
  finished_at = some now;
}

wakes_parent-answers :
    (ending : SubagentStatus) (n : AgentNotification)
    → (if wakes_parent ending then is_pending n.status else is_canceled n.status)
      ≡ answers_parent ending n.status
wakes_parent-answers task_running n = refl
wakes_parent-answers task_completed n = refl
wakes_parent-answers task_failed n = refl
wakes_parent-answers task_canceled n = refl

-- When a running task that was delegated ends, it is given back as it is then in the table: with
-- the status, the text, the error and the times of the result, without progress, and else
-- unchanged. The rows that other run ids have are as before. Its obligation is pending, so that it
-- wakes the parent, if the task is completed or failed, and canceled if not. The tables are paired.
pub finish_subagent_task-end :
    (run_id : String) (r : TaskResult) (now : ℕ) (db : TaskDatabase) (task : SubagentTask)
    → IsPairedTasks db
    → get_task run_id db ≡ some task
    → has_waiting_parent task ≡ true
    → let answer = finish_subagent_task run_id r now db in
      (answer.0 ≡ some (ended_task r now task))
      × (get_task run_id answer.1 ≡ some (ended_task r now task))
      × ((other : String) → (other == run_id) ≡ false → get_task other answer.1 ≡ get_task other db)
      × (any (is_end_of run_id r.ending) answer.1.inbox ≡ true)
unfolding finish_subagent_task finish_found_task finish_running_task finish_task
    resolve_obligation_in_session resolve_row
finish_subagent_task-end run_id r now db task h found w =
    let awaited =
      sym (h.tracking run_id)
      ∙ any-first_where (is_run run_id) has_waiting_parent db.tasks task found w in
    let runs : is_running_status task.status ≡ true = ground (arith, w) in
    let one =
      count_where-only (is_run run_id) (λ t. is_running_status t.status) db.tasks task
        (h.rows_unique run_id) found runs in
    let row =
      first_where-update_where (is_run run_id) (λ t. is_running_status t.status) (finish_task r now)
        db.tasks task (λ t. refl) found runs in
    (
      ground (arith, found, runs, one, row),
      ground (arith, found, runs, one, row),
      λ other n. ground (
        arith,
        found,
        runs,
        one,
        first_where-update_other (is_run other) (is_running_run run_id) (finish_task r now) db.tasks
            (λ t. refl)
            (λ t e. ground (
              arith,
              e,
              n,
              string_eq.same_iff t.run_id run_id,
              string_eq.same_iff t.run_id other,
              string_eq.same_iff other run_id,
            )),
      ),
      ground (
        arith,
        found,
        runs,
        one,
        any-changed (is_awaited_by subagent_finished run_id_of_task has_waiting_parent run_id)
            (is_parent_obligation run_id) (is_end_of run_id r.ending)
            (resolve_row (wakes_parent r.ending)
              (task_payload (
                first_where (is_run run_id)
                  (update_where (is_running_run run_id) (finish_task r now) db.tasks)))
              r.error now)
            db.inbox (λ n e. ground (arith, e))
            (λ n e. ground (
              arith,
              e,
              wakes_parent-answers r.ending (
                  resolve_row (wakes_parent r.ending)
                    (task_payload (
                      first_where (is_run run_id)
                        (update_where (is_running_run run_id) (finish_task r now) db.tasks)))
                    r.error now n),
            ))
            (h.obligations_unique run_id) awaited,
      ),
    )
