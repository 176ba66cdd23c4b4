-- ===== src/Subagents/Pairing.antt =====
-- service/agent/subordinates.py: running tasks and the obligations of their parents, over sequences
-- of calls.
use zj_cyber_workbench.Json.{Fields}
use zj_cyber_workbench.Prelude.{
  Bool-cases, string_eq, ◌==◌, nat_eq, not, ◌&&◌, ◌||◌, any, first_where, update_where, count_where,
  ℕ, String, ◌≡◌, refl, sym, ap, ◌∙◌, inl, inr, Bool, true, false, Option, none, some, List, [],
  ◌∷◌, arith,
}
use zj_cyber_workbench.Notifications.{subagent_finished, RuntimeScope}
use zj_cyber_workbench.Notifications.Inbox.{new_row, add_obligation_in_session}
use zj_cyber_workbench.Notifications.Tracked.{is_awaited_by, IsTracking, resolved-IsTracking}
use zj_cyber_workbench.Prelude.Rows.{
  count_where-update_where, any-append, any-update_where, fresh_unique,
}
use zj_cyber_workbench.Subagents.{
  is_running_status, is_terminal_status, wakes_parent, SubagentTask, TaskDatabase, NewTask, is_run,
  is_parent_obligation, task_row, create_subagent_task, get_task, with_progress, progress_found,
  update_subagent_progress, TaskResult, finish_task, is_running_run, task_payload,
  finish_running_task, finish_found_task, finish_subagent_task, complete_subagent_task,
  fail_subagent_task, cancel_subagent_task_record,
}
use zj_cyber_workbench.Subagents.Loops.{
  cancel_task, fail_stale_task, end_task, end_tasks, cancel_running_subagent_tasks,
  task_restart_error, mark_stale_running_subagent_tasks_failed,
}

-- The calls that change the tables, with their arguments.
pub data TaskCall : Type 0 where
  create_task : (id run_id : String) → NewTask → RuntimeScope → (now : ℕ) → TaskCall
  update_progress : (run_id progress : String) → (now : ℕ) → TaskCall
  complete_task fail_task cancel_one : (run_id outcome : String) → (now : ℕ) → TaskCall
  cancel_tasks :
      (session_id parent_agent_instance_id : Option String)
      → (error : String) → (now : ℕ) → TaskCall
  fail_stale_tasks : (now : ℕ) → TaskCall

abbrev committed_task : TaskDatabase → Option (SubagentTask × TaskDatabase) → TaskDatabase
committed_task db none = db
committed_task db (some result) = result.1

unfoldable pub serve_task : TaskCall → TaskDatabase → TaskDatabase
serve_task (create_task id run_id n s now) db =
    committed_task db (create_subagent_task id run_id n s now db)
serve_task (update_progress run_id progress now) db =
    (update_subagent_progress run_id progress now db).1
serve_task (complete_task run_id result now) db = (complete_subagent_task run_id result now db).1
serve_task (fail_task run_id error now) db = (fail_subagent_task run_id error now db).1
serve_task (cancel_one run_id error now) db = (cancel_subagent_task_record run_id error now db).1
serve_task (cancel_tasks session_id parent_agent_instance_id error now) db =
    (cancel_running_subagent_tasks session_id parent_agent_instance_id error now db).1
serve_task (fail_stale_tasks now) db = (mark_stale_running_subagent_tasks_failed now db).1

unfoldable pub serve_tasks : List TaskCall → TaskDatabase → TaskDatabase
serve_tasks [] db = db
serve_tasks (call ∷ calls) db = serve_tasks calls (serve_task call db)

-- The running tasks that an agent waits for.
abbrev pub has_waiting_parent : SubagentTask → Bool
has_waiting_parent task = is_running_status task.status && not (task.parent_agent_code == "")

abbrev pub run_id_of_task : SubagentTask → String
run_id_of_task task = task.run_id

-- The parent of each running task has an obligation that is awaited, and no other is.
abbrev pub IsPairedTasks : TaskDatabase → Type 0
IsPairedTasks db = IsTracking subagent_finished run_id_of_task has_waiting_parent db.tasks db.inbox

create_subagent_task-IsPairedTasks :
    (id run_id : String) (n : NewTask) (s : RuntimeScope) (now : ℕ) (db : TaskDatabase)
    → IsPairedTasks db
    → IsPairedTasks (committed_task db (create_subagent_task id run_id n s now db))
unfolding create_subagent_task add_obligation_in_session new_row task_row
create_subagent_task-IsPairedTasks id run_id n s now db h =
    elim (Bool-cases (
      count_where (is_run run_id) db.tasks == 0
      && count_where (is_parent_obligation run_id) db.inbox == 0)) [
        | inr e ↦ rw e h
        | inl e ↦ elim (Bool-cases (n.parent_agent_code == "")) [
          | inl orphan ↦ rw e (
              rw orphan (record {
                rows_unique =
                    fresh_unique is_run run_id db.tasks _ (λ j. refl) (ground (arith, e))
                      h.rows_unique;
                obligations_unique = h.obligations_unique;
                tracking = λ j. any-append _ db.tasks _ ∙ ground (arith, orphan, h.tracking j);
              }))
          | inr parent ↦ rw e (
              rw parent (record {
                rows_unique =
                    fresh_unique is_run run_id db.tasks _ (λ j. refl) (ground (arith, e))
                      h.rows_unique;
                obligations_unique =
                    fresh_unique is_parent_obligation run_id db.inbox _ (λ j. refl)
                      (ground (arith, e)) h.obligations_unique;
                tracking = λ j.
                    any-append _ db.tasks _
                    ∙ ap (λ b. b || (run_id == j && not (n.parent_agent_code == ""))) (h.tracking j)
                    ∙ ap
                        (λ b.
                          any (is_awaited_by subagent_finished run_id_of_task has_waiting_parent j)
                            db.inbox
                          || (run_id == j && not b))
                        parent
                    ∙ sym (
                        any-append
                          (is_awaited_by subagent_finished run_id_of_task has_waiting_parent j)
                          db.inbox _);
              }))
        ]
      ]

update_subagent_progress-IsPairedTasks :
    (run_id progress : String) (now : ℕ) (found : Option SubagentTask) (db : TaskDatabase)
    → IsPairedTasks db
    → IsPairedTasks (progress_found run_id progress now found db).1
update_subagent_progress-IsPairedTasks run_id progress now none db h = h
update_subagent_progress-IsPairedTasks run_id progress now (some task) db h =
    elim (Bool-cases (is_terminal_status task.status)) [
      | inl e ↦ rw e h
      | inr e ↦ rw e (record {
        rows_unique = λ j.
            rw
              (count_where-update_where (is_run j) (is_run run_id) (with_progress progress now)
                db.tasks (λ row. refl))
              (h.rows_unique j);
        obligations_unique = h.obligations_unique;
        tracking = λ j.
            any-update_where _ (is_run run_id) (with_progress progress now) db.tasks (λ row r. refl)
            ∙ h.tracking j;
      })
    ]

finish_found_task-IsPairedTasks :
    (run_id : String) (r : TaskResult) (now : ℕ) (found : Option SubagentTask) (db : TaskDatabase)
    → is_running_status r.ending ≡ false
    → IsPairedTasks db
    → IsPairedTasks (finish_found_task run_id r now found db).1
unfolding finish_found_task finish_running_task finish_task
finish_found_task-IsPairedTasks run_id r now none db e h = h
finish_found_task-IsPairedTasks run_id r now (some task) db e h =
    elim (Bool-cases (is_terminal_status task.status)) [
      | inl t ↦ rw t h
      | inr t ↦ elim (Bool-cases (count_where (is_running_run run_id) db.tasks == 1)) [
        | inr c ↦ rw t (rw c h)
        | inl c ↦ rw t (
            rw c (
              resolved-IsTracking subagent_finished run_id_of_task has_waiting_parent run_id
                (is_running_run run_id) (finish_task r now) (wakes_parent r.ending)
                (task_payload (
                  first_where (is_run run_id)
                    (update_where (is_running_run run_id) (finish_task r now) db.tasks)))
                r.error now (λ row g. ground (arith, g)) (λ row g. ground (arith, g)) (λ row. refl)
                (λ row. ground (arith, e)) db.tasks db.inbox h))
      ]
    ]

end_task-IsPairedTasks :
    (change : SubagentTask → SubagentTask) (ready : Bool) (payload : SubagentTask → Option Fields)
    (error : String) (now : ℕ) (task : SubagentTask) (db : TaskDatabase)
    → ((row : SubagentTask) → (change row).run_id ≡ row.run_id)
    → ((row : SubagentTask) → has_waiting_parent (change row) ≡ false)
    → IsPairedTasks db
    → IsPairedTasks (end_task change ready payload error now task db)
unfolding end_task
end_task-IsPairedTasks change ready payload error now task db same ends h =
    resolved-IsTracking subagent_finished run_id_of_task has_waiting_parent task.run_id
      (is_run task.run_id) change ready (payload (change task)) error now
      (λ row g. ground (arith, g)) (λ row g. g) same ends db.tasks db.inbox h

end_tasks-IsPairedTasks :
    (change : SubagentTask → SubagentTask) (ready : Bool) (payload : SubagentTask → Option Fields)
    (error : String) (now : ℕ) (rows : List SubagentTask) (db : TaskDatabase)
    → ((row : SubagentTask) → (change row).run_id ≡ row.run_id)
    → ((row : SubagentTask) → has_waiting_parent (change row) ≡ false)
    → IsPairedTasks db
    → IsPairedTasks (end_tasks change ready payload error now rows db)
unfolding end_tasks
end_tasks-IsPairedTasks change ready payload error now [] db same ends h = h
end_tasks-IsPairedTasks change ready payload error now (task ∷ rows) db same ends h =
    end_tasks-IsPairedTasks change ready payload error now rows _ same ends
      (end_task-IsPairedTasks change ready payload error now task db same ends h)

pub serve_task-IsPairedTasks :
    (call : TaskCall) (db : TaskDatabase) → IsPairedTasks db → IsPairedTasks (serve_task call db)
unfolding serve_task update_subagent_progress finish_subagent_task complete_subagent_task
    fail_subagent_task cancel_subagent_task_record cancel_running_subagent_tasks
    mark_stale_running_subagent_tasks_failed cancel_task fail_stale_task
serve_task-IsPairedTasks (create_task id run_id n s now) db h =
    create_subagent_task-IsPairedTasks id run_id n s now db h
serve_task-IsPairedTasks (update_progress run_id progress now) db h =
    update_subagent_progress-IsPairedTasks run_id progress now (get_task run_id db) db h
serve_task-IsPairedTasks (complete_task run_id result now) db h =
    finish_found_task-IsPairedTasks run_id _ now (get_task run_id db) db refl h
serve_task-IsPairedTasks (fail_task run_id error now) db h =
    finish_found_task-IsPairedTasks run_id _ now (get_task run_id db) db refl h
serve_task-IsPairedTasks (cancel_one run_id error now) db h =
    finish_found_task-IsPairedTasks run_id _ now (get_task run_id db) db refl h
serve_task-IsPairedTasks (cancel_tasks session_id parent_agent_instance_id error now) db h =
    end_tasks-IsPairedTasks (cancel_task error now) false _ error now _ db (λ row. refl)
      (λ row. refl) h
serve_task-IsPairedTasks (fail_stale_tasks now) db h =
    end_tasks-IsPairedTasks (fail_stale_task task_restart_error now) true _ _ now _ db (λ row. refl)
      (λ row. refl) h

-- Sequences of calls of this service alone keep the pairing.
pub serve_tasks-IsPairedTasks :
    (calls : List TaskCall) (db : TaskDatabase)
    → IsPairedTasks db
    → IsPairedTasks (serve_tasks calls db)
unfolding serve_tasks
serve_tasks-IsPairedTasks [] db h = h
serve_tasks-IsPairedTasks (call ∷ calls) db h =
    serve_tasks-IsPairedTasks calls (serve_task call db) (serve_task-IsPairedTasks call db h)
