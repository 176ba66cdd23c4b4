-- ===== src/AsyncJobs.antt =====
-- service/sandbox/async_jobs.py with schema/sandbox/async_jobs.py and model/sandbox/async_jobs.py:
-- background commands, each with an obligation in the inbox of its owner. The state is both tables.
-- Instants are numbers. Integers that are only passed on are kept as JSON prints them.
pub mod Loops
pub mod Pairing
pub mod Interleaving
pub mod Waking
pub mod Tests
use zj_cyber_workbench.Prelude.{
  if◌then◌else◌, string_eq, ◌==◌, nat_eq, ◌&&◌, first_where, update_where, count_where, ℕ, String,
  Bool, true, false, Option, none, some, List, [], ◌∷◌, ◌++◌,
}
use zj_cyber_workbench.Json.{Json, null, number, text, Fields, end, field}
use zj_cyber_workbench.Notifications.{
  sandbox_async_job_finished, RuntimeScope, Sandbox, AgentNotification,
}
use zj_cyber_workbench.Notifications.Inbox.{
  Table, NewNotification, add_obligation_in_session, is_obligation, resolve_obligation_in_session,
}

pub data AsyncJobStatus : Type 0 where
  running job_completed job_failed job_canceled : AsyncJobStatus

abbrev pub is_running : AsyncJobStatus → Bool
is_running running = true
is_running _ = false

-- `TERMINAL_ASYNC_JOB_STATUSES`
abbrev pub is_finished : AsyncJobStatus → Bool
is_finished running = false
is_finished _ = true

-- `_OWNER_WAKING_STATUSES`
abbrev pub wakes_owner : AsyncJobStatus → Bool
wakes_owner job_completed = true
wakes_owner job_failed = true
wakes_owner _ = false

abbrev pub job_status_text : AsyncJobStatus → String
job_status_text running = "running"
job_status_text job_completed = "completed"
job_status_text job_failed = "failed"
job_status_text job_canceled = "canceled"

pub record AsyncJob : Type 0 where
  pub run_id : String
  pub session_id : String
  pub agent_code : String
  pub agent_instance_id : String
  pub command : String
  pub output_file : String
  pub status : AsyncJobStatus
  pub exit_code : Option String
  pub output_bytes : String
  pub output_lines : String
  pub error : String
  pub nested_for_agent_code : String
  pub nested_call_id : String
  pub sandbox : Sandbox
  pub created_at : ℕ
  pub updated_at : ℕ
  pub started_at : Option ℕ
  pub finished_at : Option ℕ

pub record Database : Type 0 where
  pub jobs : List AsyncJob
  pub inbox : Table

pub record NewJob : Type 0 where
  pub new_run_id : String
  pub new_session_id : String
  pub new_agent_code : String
  pub new_agent_instance_id : String
  pub new_command : String
  pub new_output_file : String
  pub new_nested_for_agent_code : String
  pub new_nested_call_id : String
  pub new_sandbox : Sandbox

abbrev pub has_run_id : String → AsyncJob → Bool
has_run_id run_id job = job.run_id == run_id

abbrev pub is_job_obligation : String → AgentNotification → Bool
is_job_obligation = is_obligation sandbox_async_job_finished

unfoldable pub job_row : NewJob → (now : ℕ) → AsyncJob
job_row n now = record {
  run_id = n.new_run_id;
  session_id = n.new_session_id;
  agent_code = n.new_agent_code;
  agent_instance_id = n.new_agent_instance_id;
  command = n.new_command;
  output_file = n.new_output_file;
  status = running;
  exit_code = none;
  output_bytes = "0";
  output_lines = "0";
  error = "";
  nested_for_agent_code = n.new_nested_for_agent_code;
  nested_call_id = n.new_nested_call_id;
  sandbox = n.new_sandbox;
  created_at = now;
  updated_at = now;
  started_at = some now;
  finished_at = none;
}

abbrev pub owner_obligation : (id : String) → NewJob → NewNotification
owner_obligation id n = record {
  new_id = id;
  new_run_id = n.new_run_id;
  new_session_id = n.new_session_id;
  new_target_agent_code = n.new_agent_code;
  new_target_agent_instance_id = n.new_agent_instance_id;
  new_nested_for_agent_code = n.new_nested_for_agent_code;
  new_nested_call_id = n.new_nested_call_id;
  new_sandbox = n.new_sandbox;
}

-- One transaction for both rows. It fails, with `none`, if the run id is already that of a job, or
-- of such a notification: the first is a primary key, the second a constraint of its table.
unfoldable pub create_async_job :
    (id : String) → NewJob → RuntimeScope → (now : ℕ) → Database → Option (AsyncJob × Database)
create_async_job id n s now db =
    if count_where (has_run_id n.new_run_id) db.jobs == 0
      && count_where (is_job_obligation n.new_run_id) db.inbox == 0
    then some (
      job_row n now,
      record {
        jobs = db.jobs ++ (job_row n now ∷ []);
        inbox =
            (add_obligation_in_session sandbox_async_job_finished (owner_obligation id n) none s now
              db.inbox).1;
      },
    )
    else none

abbrev pub get_job : String → Database → Option AsyncJob
get_job run_id db = first_where (has_run_id run_id) db.jobs

abbrev pub of_session : String → Option AsyncJob → Option AsyncJob
of_session session_id none = none
of_session session_id (some job) = if job.session_id == session_id then some job else none

unfoldable pub get_async_job : (run_id session_id : String) → Database → Option AsyncJob
get_async_job run_id session_id db = of_session session_id (get_job run_id db)

unfoldable pub count_running_async_jobs_for_agent :
    (session_id agent_instance_id : String) → Database → ℕ
count_running_async_jobs_for_agent session_id agent_instance_id db =
    count_where
      (λ job.
        job.session_id == session_id
        && job.agent_instance_id == agent_instance_id
        && is_running job.status)
      db.jobs

abbrev pub exit_code_value : Option String → Json
exit_code_value none = null
exit_code_value (some code) = number code

unfoldable pub async_job_obligation_payload : AsyncJob → Fields
async_job_obligation_payload job = field "status" (text (job_status_text job.status)) (
    field "output_file" (text job.output_file) (
      field "output_bytes" (number job.output_bytes) (
        field "output_lines" (number job.output_lines) (
          field "exit_code" (exit_code_value job.exit_code) (field "error" (text job.error) end)))))

-- The result of a job that ends.
pub record JobResult : Type 0 where
  pub result_status : AsyncJobStatus
  pub result_exit_code : Option String
  pub result_bytes : String
  pub result_lines : String
  pub result_error : String

unfoldable pub finish_job : JobResult → (now : ℕ) → AsyncJob → AsyncJob
finish_job result now job = record job {
  status = result.result_status;
  exit_code = result.result_exit_code;
  output_bytes = result.result_bytes;
  output_lines = result.result_lines;
  error = result.result_error;
  updated_at = now;
  finished_at = some now;
}

abbrev pub is_running_job : String → AsyncJob → Bool
is_running_job run_id job = has_run_id run_id job && is_running job.status

abbrev pub payload_of : Option AsyncJob → Option Fields
payload_of none = none
payload_of (some job) = some (async_job_obligation_payload job)

-- The write of the job and that of its obligation, in one transaction; it is rolled back unless
-- one row changes.
unfoldable pub finish_running : String → JobResult → (now : ℕ) → Database → Database
finish_running run_id result now db =
    let jobs = update_where (is_running_job run_id) (finish_job result now) db.jobs in
    if count_where (is_running_job run_id) db.jobs == 1
    then record {
      jobs = jobs;
      inbox =
          (resolve_obligation_in_session sandbox_async_job_finished run_id
            (wakes_owner result.result_status) (payload_of (first_where (has_run_id run_id) jobs))
            result.result_error now db.inbox).1;
    }
    else db

-- `_finish_async_job`, by what the first read gives.
unfoldable pub finish_found :
    String → JobResult → (now : ℕ) → Option AsyncJob → Database → Option AsyncJob × Database
finish_found run_id result now none db = (none, db)
finish_found run_id result now (some job) db =
    let after = finish_running run_id result now db in
    if is_finished job.status then (some job, db) else (get_job run_id after, after)

unfoldable pub finish_async_job :
    String → JobResult → (now : ℕ) → Database → Option AsyncJob × Database
finish_async_job run_id result now db = finish_found run_id result now (get_job run_id db) db

unfoldable pub complete_async_job :
    (run_id exit_code output_bytes output_lines : String)
    → (now : ℕ) → Database
    → Option AsyncJob × Database
complete_async_job run_id exit_code output_bytes output_lines = finish_async_job run_id (record {
  result_status = job_completed;
  result_exit_code = some exit_code;
  result_bytes = output_bytes;
  result_lines = output_lines;
  result_error = "";
})

unfoldable pub fail_async_job :
    (run_id error output_bytes output_lines : String)
    → (now : ℕ) → Database
    → Option AsyncJob × Database
fail_async_job run_id error output_bytes output_lines = finish_async_job run_id (record {
  result_status = job_failed;
  result_exit_code = none;
  result_bytes = output_bytes;
  result_lines = output_lines;
  result_error = error;
})

unfoldable pub cancel_async_job :
    (run_id error output_bytes output_lines : String)
    → (now : ℕ) → Database
    → Option AsyncJob × Database
cancel_async_job run_id error output_bytes output_lines = finish_async_job run_id (record {
  result_status = job_canceled;
  result_exit_code = none;
  result_bytes = output_bytes;
  result_lines = output_lines;
  result_error = error;
})
