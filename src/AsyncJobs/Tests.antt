-- ===== src/AsyncJobs/Tests.antt =====
-- Jobs on a small database, and the theorem at it.
use zj_cyber_workbench.Notifications.Tests.{no_sandbox, scan_scope}
use zj_cyber_workbench.Prelude.{
  string_eq, ◌==◌, nat_eq, filter, any, first_where, update_first, update_where, count_where,
  String, ◌≡◌, refl, true, false, none, some, List, [], ◌∷◌, map, arith,
}
use zj_cyber_workbench.Json.{fields_set}
use zj_cyber_workbench.Notifications.{
  pending, items_of, scope_object, payload_with_runtime_scope, runtime_scope_payload,
}
use zj_cyber_workbench.Notifications.Claims.{
  is_target, is_claimable, has_pending_notification, has_active_session_notifications,
}
use zj_cyber_workbench.Notifications.Inbox.{
  new_row, add_obligation_in_session, replace_payload, resolve_row, resolve_obligation_in_session,
  in_session,
}
use zj_cyber_workbench.Notifications.Steps.{claim_next, complete, fail}
use zj_cyber_workbench.AsyncJobs.Interleaving.{
  Turn, of_jobs, of_inbox, take_turns, take_turns-IsPaired,
}
use zj_cyber_workbench.AsyncJobs.Waking.{is_answer, ended_job, finish_async_job-answer}
use zj_cyber_workbench.AsyncJobs.{
  job_completed, Database, NewJob, job_row, create_async_job, get_job,
  count_running_async_jobs_for_agent, async_job_obligation_payload, JobResult, finish_job,
  finish_running, finish_found, finish_async_job, complete_async_job, fail_async_job,
}
use zj_cyber_workbench.AsyncJobs.Pairing.{
  JobCall, create, complete, fail, serve, serve_all, IsPaired, serve_all-IsPaired,
}

abbrev scan_job : NewJob
scan_job = record {
  new_run_id = "r1";
  new_session_id = "s";
  new_agent_code = "lead";
  new_agent_instance_id = "main:s:1:lead";
  new_command = "nmap 10.0.0.1";
  new_output_file = "/tmp/out";
  new_nested_for_agent_code = "";
  new_nested_call_id = "";
  new_sandbox = no_sandbox;
}

abbrev nothing : Database
nothing = record { jobs = []; inbox = [] }

abbrev calls : List JobCall
calls =
    create "n1" scan_job scan_scope 1
    ∷ complete "r1" "0" "12" "1" 2
    ∷ fail "r1" "late" "0" "0" 3
    ∷ []

all_open : Unit {0}
unfolding serve serve_all create_async_job count_where filter add_obligation_in_session new_row
    job_row complete_async_job fail_async_job finish_async_job finish_found finish_running
    finish_job update_where first_where resolve_obligation_in_session update_first resolve_row any
    replace_payload has_active_session_notifications in_session count_running_async_jobs_for_agent
    runtime_scope_payload payload_with_runtime_scope fields_set scope_object items_of
    async_job_obligation_payload has_pending_notification is_claimable is_target
all_open = tt

-- The first result stands, and wakes the owner.
first_result :
    (map (λ job. job.status) (serve_all calls nothing).jobs ≡ (job_completed ∷ []))
    × (map (λ row. row.status) (serve_all calls nothing).inbox ≡ (pending ∷ []))
unfolding all_open
first_result = (refl, refl)

nothing-IsPaired : IsPaired nothing
unfolding any count_where filter
nothing-IsPaired = record {
  rows_unique = λ k. omega arith;
  obligations_unique = λ k. omega arith;
  tracking = λ k. refl;
}

-- The inbox claims the notification that the end of the job has made pending.
abbrev turns : List Turn
turns =
    of_jobs (create "n1" scan_job scan_scope 1)
    ∷ of_inbox (claim_next "s" none none 2)
    ∷ of_jobs (complete "r1" "0" "12" "1" 3)
    ∷ of_inbox (claim_next "s" none none 4)
    ∷ []

take_turns-IsPaired_example : IsPaired (take_turns (λ value pattern. true) turns nothing)
take_turns-IsPaired_example =
    take_turns-IsPaired (λ value pattern. true) turns nothing refl nothing-IsPaired

abbrev one_job : Database
one_job = serve_all (create "n1" scan_job scan_scope 1 ∷ []) nothing

abbrev exited : JobResult
exited = record {
  result_status = job_completed;
  result_exit_code = some "0";
  result_bytes = "12";
  result_lines = "1";
  result_error = "";
}

finish_async_job-answer_example :
    let answer = finish_async_job "r1" exited 2 one_job in
    let ended = ended_job exited 2 (job_row scan_job 1) in
    (answer.0 ≡ some ended)
    × (get_job "r1" answer.1 ≡ some ended)
    × ((other : String) → (other == "r1") ≡ false → get_job other answer.1 ≡ get_job other one_job)
    × (any (is_answer "r1" job_completed) answer.1.inbox ≡ true)
unfolding all_open
finish_async_job-answer_example =
    finish_async_job-answer "r1" exited 2 one_job (job_row scan_job 1)
      (serve_all-IsPaired (create "n1" scan_job scan_scope 1 ∷ []) nothing nothing-IsPaired) refl
      refl
