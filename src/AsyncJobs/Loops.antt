-- ===== src/AsyncJobs/Loops.antt =====
-- service/sandbox/async_jobs.py: the loops that end running jobs.
use zj_cyber_workbench.Prelude.{
  string_eq, ◌==◌, nat_eq, ◌&&◌, filter, update_where, ℕ, String, Bool, true, false, Option, none,
  some, List, [], ◌∷◌, map,
}
use zj_cyber_workbench.Json.{Fields}
use zj_cyber_workbench.Notifications.{sandbox_async_job_finished}
use zj_cyber_workbench.Notifications.Inbox.{resolve_obligation_in_session, given}
use zj_cyber_workbench.AsyncJobs.{
  AsyncJobStatus, job_failed, job_canceled, is_running, AsyncJob, Database, has_run_id,
  async_job_obligation_payload,
}

unfoldable pub end_job : AsyncJobStatus → (error : String) → (now : ℕ) → AsyncJob → AsyncJob
end_job status error now job = record job {
  status = status;
  error = error;
  updated_at = now;
  finished_at = some now;
}

-- One round of the loops that end jobs: the job is written, then its obligation is resolved.
unfoldable pub end_one :
    AsyncJobStatus
    → (ready : Bool) → (AsyncJob → Option Fields)
    → (error : String) → (now : ℕ) → AsyncJob
    → Database
    → Database
end_one status ready payload error now job db = record {
  jobs = update_where (has_run_id job.run_id) (end_job status error now) db.jobs;
  inbox =
      (resolve_obligation_in_session sandbox_async_job_finished job.run_id ready
        (payload (end_job status error now job)) error now db.inbox).1;
}

unfoldable pub end_each :
    AsyncJobStatus
    → (ready : Bool) → (AsyncJob → Option Fields)
    → (error : String) → (now : ℕ) → List AsyncJob
    → Database
    → Database
end_each status ready payload error now [] db = db
end_each status ready payload error now (job ∷ rows) db =
    end_each status ready payload error now rows (end_one status ready payload error now job db)

abbrev pub given_container : Option ℕ → Option ℕ → Bool
given_container none value = true
given_container (some wanted) none = false
given_container (some wanted) (some value) = value == wanted

-- `_cancel_running_async_jobs`; its four callers give some of the filters.
unfoldable pub cancel_running_async_jobs :
    (session_id agent_instance_id : Option String)
    → (sandbox_container_id : Option ℕ) → (error : String) → (now : ℕ) → Database
    → List AsyncJob × Database
cancel_running_async_jobs session_id agent_instance_id sandbox_container_id error now db =
    let rows =
      filter
        (λ job.
          is_running job.status
          && given session_id job.session_id
          && given agent_instance_id job.agent_instance_id
          && given_container sandbox_container_id job.sandbox.sandbox_container_id)
        db.jobs in
    (
      map (end_job job_canceled error now) rows,
      end_each job_canceled false (λ _. none) error now rows db,
    )

abbrev pub restart_error : String
restart_error = "Sandbox async job was interrupted by backend restart."

unfoldable pub mark_stale_running_async_jobs_failed :
    (now : ℕ) → Database → List AsyncJob × Database
mark_stale_running_async_jobs_failed now db =
    let rows = filter (λ job. is_running job.status) db.jobs in
    (
      map (end_job job_failed restart_error now) rows,
      end_each job_failed true (λ job. some (async_job_obligation_payload job)) restart_error now
          rows db,
    )
