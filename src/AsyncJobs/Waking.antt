-- ===== src/AsyncJobs/Waking.antt =====
-- How the end of a job reaches its owner.
use zj_cyber_workbench.Prelude.Rows.{
  any-changed, count_where-only, first_where-update_where, first_where-update_other,
}
use zj_cyber_workbench.Prelude.{
  if◌then◌else◌, string_eq, ◌==◌, nat_eq, ◌&&◌, any, first_where, update_where, ℕ, String, ◌≡◌,
  refl, sym, ◌∙◌, Bool, true, false, some, List, [], ◌∷◌, arith,
}
use zj_cyber_workbench.Notifications.{NotificationStatus, canceled, is_pending, AgentNotification}
use zj_cyber_workbench.Notifications.Inbox.{resolve_row, resolve_obligation_in_session}
use zj_cyber_workbench.AsyncJobs.{
  AsyncJobStatus, running, job_completed, job_failed, job_canceled, is_running, wakes_owner,
  AsyncJob, Database, has_run_id, is_job_obligation, get_job, JobResult, finish_job, is_running_job,
  payload_of, finish_running, finish_found, finish_async_job,
}
use zj_cyber_workbench.AsyncJobs.Pairing.{is_awaited, IsPaired}

abbrev pub is_canceled : NotificationStatus → Bool
is_canceled canceled = true
is_canceled _ = false

-- What the end of a job makes of its obligation, by the status that the job ends in.
abbrev pub answers : AsyncJobStatus → NotificationStatus → Bool
answers job_completed status = is_pending status
answers job_failed status = is_pending status
answers _ status = is_canceled status

abbrev pub is_answer : String → AsyncJobStatus → AgentNotification → Bool
is_answer run_id ending row = is_job_obligation run_id row && answers ending row.status

-- The row of a job that has ended with a result.
abbrev pub ended_job : JobResult → (now : ℕ) → AsyncJob → AsyncJob
ended_job result now job = record job {
  status = result.result_status;
  exit_code = result.result_exit_code;
  output_bytes = result.result_bytes;
  output_lines = result.result_lines;
  error = result.result_error;
  updated_at = now;
  finished_at = some now;
}

wakes_owner-answers :
    (ending : AsyncJobStatus) (row : AgentNotification)
    → (if wakes_owner ending then is_pending row.status else is_canceled row.status)
      ≡ answers ending row.status
wakes_owner-answers running row = refl
wakes_owner-answers job_completed row = refl
wakes_owner-answers job_failed row = refl
wakes_owner-answers job_canceled row = refl

pub any-first_where :
    {A : Type 0}
    → (p q : A → Bool) (rows : List A) (row : A) → first_where p rows ≡ some row
    → q row ≡ true
    → any (λ r. p r && q r) rows ≡ true
unfolding any first_where
any-first_where p q [] row e h = ground (arith, e)
any-first_where p q (r ∷ rows) row e h = ground (arith, e, h, any-first_where p q rows row)

-- When a running job ends, it is given back as it is then in the table: with the status, the exit
-- code, the output's size, the error and the times of the result, and else unchanged. The rows that
-- other run ids have are as before. Its obligation is pending, so that it wakes the owner, if the
-- job is completed or failed, and canceled if not. The database is paired.
pub finish_async_job-answer :
    (run_id : String) (result : JobResult) (now : ℕ) (db : Database) (job : AsyncJob)
    → IsPaired db
    → get_job run_id db ≡ some job
    → is_running job.status ≡ true
    → let answer = finish_async_job run_id result now db in
      (answer.0 ≡ some (ended_job result now job))
      × (get_job run_id answer.1 ≡ some (ended_job result now job))
      × ((other : String) → (other == run_id) ≡ false → get_job other answer.1 ≡ get_job other db)
      × (any (is_answer run_id result.result_status) answer.1.inbox ≡ true)
unfolding finish_async_job finish_found finish_running finish_job resolve_obligation_in_session
    resolve_row
finish_async_job-answer run_id result now db job h found r =
    let awaited =
      sym (h.tracking run_id)
      ∙ any-first_where (has_run_id run_id) (λ j. is_running j.status) db.jobs job found r in
    let one =
      count_where-only (has_run_id run_id) (λ j. is_running j.status) db.jobs job
        (h.rows_unique run_id) found r in
    let row =
      first_where-update_where (has_run_id run_id) (λ j. is_running j.status)
        (finish_job result now) db.jobs job (λ j. refl) found r in
    (
      ground (arith, found, r, one, row),
      ground (arith, found, r, one, row),
      λ other n. ground (
        arith,
        found,
        r,
        one,
        first_where-update_other (has_run_id other) (is_running_job run_id) (finish_job result now)
            db.jobs (λ j. refl)
            (λ j e. ground (
              arith,
              e,
              n,
              string_eq.same_iff j.run_id run_id,
              string_eq.same_iff j.run_id other,
              string_eq.same_iff other run_id,
            )),
      ),
      ground (
        arith,
        found,
        r,
        one,
        any-changed (is_awaited run_id) (is_job_obligation run_id)
            (is_answer run_id result.result_status)
            (resolve_row (wakes_owner result.result_status)
              (payload_of (
                first_where (has_run_id run_id)
                  (update_where (is_running_job run_id) (finish_job result now) db.jobs)))
              result.result_error now)
            db.inbox (λ row e. ground (arith, e))
            (λ row e. ground (
              arith,
              e,
              wakes_owner-answers result.result_status (
                  resolve_row (wakes_owner result.result_status)
                    (payload_of (
                      first_where (has_run_id run_id)
                        (update_where (is_running_job run_id) (finish_job result now) db.jobs)))
                    result.result_error now row),
            ))
            (h.obligations_unique run_id) awaited,
      ),
    )
