-- ===== src/Subagents/Tests.antt =====
-- Tasks on small tables, and the theorems at them.
use zj_cyber_workbench.Prelude.{
  string_eq, ◌==◌, nat_eq, filter, any, first_where, update_first, update_where, count_where,
  String, ◌≡◌, refl, true, false, none, some, List, [], ◌∷◌, map, arith,
}
use zj_cyber_workbench.Json.{fields_set}
use zj_cyber_workbench.Notifications.{
  pending, items_of, scope_object, payload_with_runtime_scope, runtime_scope_payload,
}
use zj_cyber_workbench.Notifications.Inbox.{
  new_row, add_obligation_in_session, replace_payload, resolve_row, resolve_obligation_in_session,
}
use zj_cyber_workbench.Notifications.Tests.{scan_scope}
use zj_cyber_workbench.Notifications.Steps.{claim_next}
use zj_cyber_workbench.Subagents.Interleaving.{
  TaskTurn, of_tasks, of_inbox, take_task_turns, take_task_turns-IsPairedTasks,
}
use zj_cyber_workbench.Subagents.{
  task_completed, TaskDatabase, NewTask, task_row, create_subagent_task, get_task,
  update_subagent_progress, subagent_obligation_payload, TaskResult, finish_task,
  finish_running_task, finish_found_task, finish_subagent_task, complete_subagent_task,
  fail_subagent_task,
}
use zj_cyber_workbench.Subagents.Pairing.{
  TaskCall, create_task, update_progress, complete_task, fail_task, serve_task, serve_tasks,
  IsPairedTasks, serve_tasks-IsPairedTasks,
}
use zj_cyber_workbench.Subagents.Ending.{is_end_of, ended_task, finish_subagent_task-end}

abbrev survey : NewTask
survey = record {
  session_id = "s";
  parent_agent_code = "lead";
  parent_agent_instance_id = "main:s:1:lead";
  agent_code = "scout";
  agent_name = "Scout";
  brief = "Survey the network";
  nested_call_id = "c1";
  owner_id = 1;
}

abbrev no_tasks : TaskDatabase
no_tasks = record { tasks = []; inbox = [] }

abbrev task_calls : List TaskCall
task_calls =
    create_task "n1" "r1" survey scan_scope 1
    ∷ update_progress "r1" "half" 2
    ∷ complete_task "r1" "two hosts" 3
    ∷ fail_task "r1" "late" 4
    ∷ []

all_open : Unit {0}
unfolding serve_task serve_tasks create_subagent_task count_where filter add_obligation_in_session
    new_row task_row update_subagent_progress complete_subagent_task fail_subagent_task
    finish_subagent_task finish_found_task finish_running_task finish_task update_where first_where
    resolve_obligation_in_session update_first resolve_row any replace_payload runtime_scope_payload
    payload_with_runtime_scope fields_set scope_object items_of subagent_obligation_payload
all_open = tt

-- The first result stands, and wakes the parent.
first_end :
    (map (λ task. task.result) (serve_tasks task_calls no_tasks).tasks ≡ ("two hosts" ∷ []))
    × (map (λ row. row.status) (serve_tasks task_calls no_tasks).inbox ≡ (pending ∷ []))
unfolding all_open
first_end = (refl, refl)

no_tasks-IsPairedTasks : IsPairedTasks no_tasks
unfolding any count_where filter
no_tasks-IsPairedTasks = record {
  rows_unique = λ k. omega arith;
  obligations_unique = λ k. omega arith;
  tracking = λ k. refl;
}

-- The inbox claims the notification that the end of the task has made pending.
abbrev turns : List TaskTurn
turns =
    of_tasks (create_task "n1" "r1" survey scan_scope 1)
    ∷ of_inbox (claim_next "s" none none 2)
    ∷ of_tasks (complete_task "r1" "two hosts" 3)
    ∷ of_inbox (claim_next "s" none none 4)
    ∷ []

take_task_turns-IsPairedTasks_example :
    IsPairedTasks (take_task_turns (λ value pattern. true) turns no_tasks)
take_task_turns-IsPairedTasks_example =
    take_task_turns-IsPairedTasks (λ value pattern. true) turns no_tasks refl no_tasks-IsPairedTasks

abbrev one_task : TaskDatabase
one_task = serve_tasks (create_task "n1" "r1" survey scan_scope 1 ∷ []) no_tasks

abbrev found_hosts : TaskResult
found_hosts = record { ending = task_completed; result = "two hosts"; error = "" }

finish_subagent_task-end_example :
    let answer = finish_subagent_task "r1" found_hosts 2 one_task in
    let ended = ended_task found_hosts 2 (task_row "r1" survey 1) in
    (answer.0 ≡ some ended)
    × (get_task "r1" answer.1 ≡ some ended)
    × ((other : String)
        → (other == "r1") ≡ false
        → get_task other answer.1 ≡ get_task other one_task)
    × (any (is_end_of "r1" task_completed) answer.1.inbox ≡ true)
unfolding all_open
finish_subagent_task-end_example =
    finish_subagent_task-end "r1" found_hosts 2 one_task (task_row "r1" survey 1)
      (serve_tasks-IsPairedTasks (create_task "n1" "r1" survey scan_scope 1 ∷ []) no_tasks
        no_tasks-IsPairedTasks)
      refl refl
