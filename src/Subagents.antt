-- ===== src/Subagents.antt =====
-- service/agent/subordinates.py with model/agent/subordinates.py and schema/agent/subordinates.py: the
-- tasks of subagents, each with an obligation in the inbox of the agent that delegated it. The state
-- is both tables. A snapshot has the fields of its row.
pub mod Loops
pub mod Pairing
pub mod Interleaving
pub mod Ending
pub mod Tests
use zj_cyber_workbench.Prelude.{
  ltb, if◌then◌else◌, string_eq, ◌==◌, nat_eq, ◌&&◌, ◌||◌, filter, first_where, update_where,
  count_where, ℕ, zero, suc, min, max, String, Bool, true, false, Option, none, some, List, [], ◌∷◌,
  ◌++◌,
}
use zj_cyber_workbench.Json.{text, Fields, end, field}
use zj_cyber_workbench.Notifications.{subagent_finished, RuntimeScope, AgentNotification}
use zj_cyber_workbench.Notifications.Inbox.{
  Table, NewNotification, add_obligation_in_session, is_obligation, resolve_obligation_in_session,
}

pub data SubagentStatus : Type 0 where
  task_running task_completed task_failed task_canceled : SubagentStatus

abbrev pub is_running_status : SubagentStatus → Bool
is_running_status task_running = true
is_running_status _ = false

-- `TERMINAL_SUBAGENT_STATUSES`
abbrev pub is_terminal_status : SubagentStatus → Bool
is_terminal_status task_running = false
is_terminal_status _ = true

-- `_PARENT_WAKING_STATUSES`
abbrev pub wakes_parent : SubagentStatus → Bool
wakes_parent task_completed = true
wakes_parent task_failed = true
wakes_parent _ = false

abbrev pub task_status_text : SubagentStatus → String
task_status_text task_running = "running"
task_status_text task_completed = "completed"
task_status_text task_failed = "failed"
task_status_text task_canceled = "canceled"

pub record SubagentTask : Type 0 where
  pub run_id : String
  pub session_id : String
  pub parent_agent_code : String
  pub parent_agent_instance_id : String
  pub agent_code : String
  pub agent_name : String
  pub status : SubagentStatus
  pub brief : String
  pub result : String
  pub error : String
  pub progress : String
  pub nested_call_id : String
  pub owner_id : ℕ
  pub created_at : ℕ
  pub updated_at : ℕ
  pub started_at : Option ℕ
  pub finished_at : Option ℕ

pub record TaskDatabase : Type 0 where
  pub tasks : List SubagentTask
  pub inbox : Table

-- The arguments of `create_subagent_task`, but for those of the scope.
pub record NewTask : Type 0 where
  pub session_id : String
  pub parent_agent_code : String
  pub parent_agent_instance_id : String
  pub agent_code : String
  pub agent_name : String
  pub brief : String
  pub nested_call_id : String
  pub owner_id : ℕ

abbrev pub is_run : String → SubagentTask → Bool
is_run run_id task = task.run_id == run_id

abbrev pub is_parent_obligation : String → AgentNotification → Bool
is_parent_obligation = is_obligation subagent_finished

unfoldable pub task_row : (run_id : String) → NewTask → (now : ℕ) → SubagentTask
task_row run_id n now = record {
  run_id = run_id;
  session_id = n.session_id;
  parent_agent_code = n.parent_agent_code;
  parent_agent_instance_id = n.parent_agent_instance_id;
  agent_code = n.agent_code;
  agent_name = n.agent_name;
  status = task_running;
  brief = n.brief;
  result = "";
  error = "";
  progress = "";
  nested_call_id = n.nested_call_id;
  owner_id = n.owner_id;
  created_at = now;
  updated_at = now;
  started_at = some now;
  finished_at = none;
}

abbrev pub parent_obligation : (id run_id : String) → NewTask → NewNotification
parent_obligation id run_id n = record {
  new_id = id;
  new_run_id = run_id;
  new_session_id = n.session_id;
  new_target_agent_code = n.parent_agent_code;
  new_target_agent_instance_id = n.parent_agent_instance_id;
  new_nested_for_agent_code = "";
  new_nested_call_id = "";
  new_sandbox = record {
    sandbox_container_id = none;
    sandbox_container_generation = 0;
    sandbox_skill_metadata = [];
  };
}

abbrev pub new_task_payload : (run_id : String) → NewTask → Fields
new_task_payload run_id n =
    field "run_id" (text run_id)
      (field "agent_code" (text n.agent_code) (field "agent_name" (text n.agent_name) end))

-- One transaction, which fails, with `none`, if the run id or that of its obligation is taken. The
-- ids are new UUIDs in the source.
unfoldable pub create_subagent_task :
    (id run_id : String)
    → NewTask
    → RuntimeScope
    → (now : ℕ) → TaskDatabase
    → Option (SubagentTask × TaskDatabase)
create_subagent_task id run_id n s now db =
    let row = task_row run_id n now in
    let tasks = db.tasks ++ (row ∷ []) in
    let obliged =
      add_obligation_in_session subagent_finished (parent_obligation id run_id n)
        (some (new_task_payload run_id n)) s now db.inbox in
    if count_where (is_run run_id) db.tasks == 0
      && count_where (is_parent_obligation run_id) db.inbox == 0
    then some (
      row,
      record { tasks = tasks; inbox = if n.parent_agent_code == "" then db.inbox else obliged.1 },
    )
    else none

pub data SystemUserRole : Type 0 where
  admin user : SystemUserRole

abbrev pub is_admin : SystemUserRole → Bool
is_admin admin = true
is_admin user = false

unfoldable pub can_access_task :
    SubagentTask → (session_id : String) → (user_id : ℕ) → SystemUserRole → Bool
can_access_task task session_id user_id user_role =
    task.session_id == session_id && (is_admin user_role || task.owner_id == user_id)

abbrev pub get_task : String → TaskDatabase → Option SubagentTask
get_task run_id db = first_where (is_run run_id) db.tasks

abbrev pub accessible :
    (session_id : String)
    → (user_id : ℕ) → SystemUserRole
    → Option SubagentTask
    → Option SubagentTask
accessible session_id user_id user_role none = none
accessible session_id user_id user_role (some task) =
    if can_access_task task session_id user_id user_role then some task else none

unfoldable pub get_subagent_task :
    (run_id session_id : String)
    → (user_id : ℕ) → SystemUserRole
    → TaskDatabase
    → Option SubagentTask
get_subagent_task run_id session_id user_id user_role db =
    accessible session_id user_id user_role (get_task run_id db)

-- `ORDER BY created_at DESC`
unfoldable pub insert_newest : SubagentTask → List SubagentTask → List SubagentTask
insert_newest task [] = task ∷ []
insert_newest task (t ∷ tasks) =
    let rest = insert_newest task tasks in
    if ltb task.created_at t.created_at then t ∷ rest else task ∷ t ∷ tasks

unfoldable pub order_newest : List SubagentTask → List SubagentTask
order_newest [] = []
order_newest (task ∷ tasks) = insert_newest task (order_newest tasks)

abbrev pub take_tasks : ℕ → List SubagentTask → List SubagentTask
take_tasks zero tasks = []
take_tasks (suc n) [] = []
take_tasks (suc n) (task ∷ tasks) = task ∷ take_tasks n tasks

unfoldable pub list_subagent_tasks :
    (session_id : String)
    → (user_id : ℕ) → SystemUserRole
    → (limit : ℕ) → TaskDatabase
    → List SubagentTask
list_subagent_tasks session_id user_id user_role limit db =
    filter (λ task. can_access_task task session_id user_id user_role)
      (take_tasks (max 1 (min limit 100))
        (order_newest (filter (λ task. task.session_id == session_id) db.tasks)))

abbrev pub with_progress : (progress : String) → (now : ℕ) → SubagentTask → SubagentTask
with_progress progress now task = record task { progress = progress; updated_at = now }

-- `update_subagent_progress`, by what the read gives.
abbrev pub progress_found :
    (run_id progress : String)
    → (now : ℕ) → Option SubagentTask
    → TaskDatabase
    → Option SubagentTask × TaskDatabase
progress_found run_id progress now none db = (none, db)
progress_found run_id progress now (some task) db =
    if is_terminal_status task.status then (none, db) else (
      some (with_progress progress now task),
      record db { tasks = update_where (is_run run_id) (with_progress progress now) db.tasks },
    )

unfoldable pub update_subagent_progress :
    (run_id progress : String) → (now : ℕ) → TaskDatabase → Option SubagentTask × TaskDatabase
update_subagent_progress run_id progress now db =
    progress_found run_id progress now (get_task run_id db) db

unfoldable pub subagent_obligation_payload : SubagentTask → Fields
subagent_obligation_payload task = field "run_id" (text task.run_id) (
    field "agent_code" (text task.agent_code) (
      field "agent_name" (text task.agent_name)
        (field "status" (text (task_status_text task.status)) end)))

-- The result of a task that ends.
pub record TaskResult : Type 0 where
  pub ending : SubagentStatus
  pub result : String
  pub error : String

unfoldable pub finish_task : TaskResult → (now : ℕ) → SubagentTask → SubagentTask
finish_task r now task = record task {
  status = r.ending;
  result = r.result;
  error = r.error;
  progress = "";
  updated_at = now;
  finished_at = some now;
}

abbrev pub is_running_run : String → SubagentTask → Bool
is_running_run run_id task = is_run run_id task && is_running_status task.status

abbrev pub task_payload : Option SubagentTask → Option Fields
task_payload none = none
task_payload (some task) = some (subagent_obligation_payload task)

-- The write of the task and that of the obligation, in one transaction; it is rolled back unless one
-- row changes.
unfoldable pub finish_running_task : String → TaskResult → (now : ℕ) → TaskDatabase → TaskDatabase
finish_running_task run_id r now db =
    let tasks = update_where (is_running_run run_id) (finish_task r now) db.tasks in
    if count_where (is_running_run run_id) db.tasks == 1
    then record {
      tasks = tasks;
      inbox =
          (resolve_obligation_in_session subagent_finished run_id (wakes_parent r.ending)
            (task_payload (first_where (is_run run_id) tasks)) r.error now db.inbox).1;
    }
    else db

-- `_finish_subagent_task`, by what the first read gives.
unfoldable pub finish_found_task :
    String
    → TaskResult
    → (now : ℕ) → Option SubagentTask
    → TaskDatabase
    → Option SubagentTask × TaskDatabase
finish_found_task run_id r now none db = (none, db)
finish_found_task run_id r now (some task) db =
    let after = finish_running_task run_id r now db in
    if is_terminal_status task.status then (some task, db) else (get_task run_id after, after)

unfoldable pub finish_subagent_task :
    String → TaskResult → (now : ℕ) → TaskDatabase → Option SubagentTask × TaskDatabase
finish_subagent_task run_id r now db = finish_found_task run_id r now (get_task run_id db) db

unfoldable pub complete_subagent_task :
    (run_id result : String) → (now : ℕ) → TaskDatabase → Option SubagentTask × TaskDatabase
complete_subagent_task run_id result =
    finish_subagent_task run_id (record { ending = task_completed; result = result; error = "" })

unfoldable pub fail_subagent_task :
    (run_id error : String) → (now : ℕ) → TaskDatabase → Option SubagentTask × TaskDatabase
fail_subagent_task run_id error =
    finish_subagent_task run_id (record { ending = task_failed; result = ""; error = error })

unfoldable pub cancel_subagent_task_record :
    (run_id error : String) → (now : ℕ) → TaskDatabase → Option SubagentTask × TaskDatabase
cancel_subagent_task_record run_id error =
    finish_subagent_task run_id (record { ending = task_canceled; result = ""; error = error })
