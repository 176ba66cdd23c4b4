-- ===== src/Subagents/Loops.antt =====
-- service/agent/subordinates.py: the loops that end running tasks.
use zj_cyber_workbench.Prelude.{
  string_eq, ◌&&◌, filter, update_where, ℕ, String, Bool, true, false, Option, none, some, List, [],
  ◌∷◌, map,
}
use zj_cyber_workbench.Json.{Fields}
use zj_cyber_workbench.Notifications.{subagent_finished}
use zj_cyber_workbench.Notifications.Inbox.{resolve_obligation_in_session, given}
use zj_cyber_workbench.Subagents.{
  task_failed, task_canceled, is_running_status, SubagentTask, TaskDatabase, is_run,
  subagent_obligation_payload,
}

unfoldable pub cancel_task : (error : String) → (now : ℕ) → SubagentTask → SubagentTask
cancel_task error now task = record task {
  status = task_canceled;
  error = error;
  progress = "";
  updated_at = now;
  finished_at = some now;
}

unfoldable pub fail_stale_task : (error : String) → (now : ℕ) → SubagentTask → SubagentTask
fail_stale_task error now task = record task {
  status = task_failed;
  error = error;
  updated_at = now;
  finished_at = some now;
}

-- One round of either loop: the task is written, and its obligation resolved.
unfoldable pub end_task :
    (SubagentTask → SubagentTask)
    → (ready : Bool) → (SubagentTask → Option Fields)
    → (error : String) → (now : ℕ) → SubagentTask
    → TaskDatabase
    → TaskDatabase
end_task change ready payload error now task db = record {
  tasks = update_where (is_run task.run_id) change db.tasks;
  inbox =
      (resolve_obligation_in_session subagent_finished task.run_id ready (payload (change task))
        error now db.inbox).1;
}

unfoldable pub end_tasks :
    (SubagentTask → SubagentTask)
    → (ready : Bool) → (SubagentTask → Option Fields)
    → (error : String) → (now : ℕ) → List SubagentTask
    → TaskDatabase
    → TaskDatabase
end_tasks change ready payload error now [] db = db
end_tasks change ready payload error now (task ∷ rows) db =
    end_tasks change ready payload error now rows (end_task change ready payload error now task db)

-- `_cancel_running_subagent_tasks`; its three callers give some of the filters.
unfoldable pub cancel_running_subagent_tasks :
    (session_id parent_agent_instance_id : Option String)
    → (error : String) → (now : ℕ) → TaskDatabase
    → List SubagentTask × TaskDatabase
cancel_running_subagent_tasks session_id parent_agent_instance_id error now db =
    let rows =
      filter
        (λ task.
          is_running_status task.status
          && given session_id task.session_id
          && given parent_agent_instance_id task.parent_agent_instance_id)
        db.tasks in
    (
      map (cancel_task error now) rows,
      end_tasks (cancel_task error now) false (λ _. none) error now rows db,
    )

abbrev pub task_restart_error : String
task_restart_error = "Subagent task was interrupted by backend restart."

unfoldable pub mark_stale_running_subagent_tasks_failed :
    (now : ℕ) → TaskDatabase → List SubagentTask × TaskDatabase
mark_stale_running_subagent_tasks_failed now db =
    let rows = filter (λ task. is_running_status task.status) db.tasks in
    (
      map (fail_stale_task task_restart_error now) rows,
      end_tasks (fail_stale_task task_restart_error now) true
          (λ task. some (subagent_obligation_payload task)) task_restart_error now rows db,
    )
