-- ===== src/AsyncJobs/Pairing.antt =====
-- service/sandbox/async_jobs.py: running jobs and their obligations, over sequences of calls.
use zj_cyber_workbench.Notifications.Inbox.{new_row, add_obligation_in_session}
use zj_cyber_workbench.Json.{Fields}
use zj_cyber_workbench.Prelude.{
  if◌then◌else◌, string_eq, ◌==◌, nat_eq, ◌&&◌, ◌||◌, first_where, update_where, count_where, ℕ,
  String, ◌≡◌, refl, sym, ap, ◌∙◌, Bool, true, false, Option, none, some, List, [], ◌∷◌, ◌++◌,
  arith,
}
use zj_cyber_workbench.Notifications.{sandbox_async_job_finished, RuntimeScope, AgentNotification}
use zj_cyber_workbench.Notifications.Tracked.{is_awaited_by, IsTracking, resolved-IsTracking}
use zj_cyber_workbench.Prelude.Rows.{any-append, fresh_unique}
use zj_cyber_workbench.AsyncJobs.Loops.{
  end_job, end_one, end_each, cancel_running_async_jobs, mark_stale_running_async_jobs_failed,
}
use zj_cyber_workbench.AsyncJobs.{
  AsyncJobStatus, job_failed, job_canceled, is_running, is_finished, wakes_owner, AsyncJob,
  Database, NewJob, has_run_id, is_job_obligation, job_row, owner_obligation, create_async_job,
  get_job, JobResult, finish_job, is_running_job, payload_of, finish_running, finish_found,
  finish_async_job, complete_async_job, fail_async_job, cancel_async_job,
}

-- The calls, with their arguments.
pub data JobCall : Type 0 where
  create : (id : String) → NewJob → RuntimeScope → (now : ℕ) → JobCall
  complete : (run_id exit_code output_bytes output_lines : String) → (now : ℕ) → JobCall
  fail : (run_id error output_bytes output_lines : String) → (now : ℕ) → JobCall
  cancel : (run_id error output_bytes output_lines : String) → (now : ℕ) → JobCall
  cancel_running :
      (session_id agent_instance_id : Option String)
      → (container_id : Option ℕ) → (error : String) → (now : ℕ) → JobCall
  mark_stale : (now : ℕ) → JobCall

abbrev committed : Database → Option (AsyncJob × Database) → Database
committed db none = db
committed db (some result) = result.1

unfoldable pub serve : JobCall → Database → Database
serve (create id n s now) db = committed db (create_async_job id n s now db)
serve (complete run_id exit_code bytes lines now) db =
    (complete_async_job run_id exit_code bytes lines now db).1
serve (fail run_id error bytes lines now) db = (fail_async_job run_id error bytes lines now db).1
serve (cancel run_id error bytes lines now) db =
    (cancel_async_job run_id error bytes lines now db).1
serve (cancel_running session_id agent_instance_id container_id error now) db =
    (cancel_running_async_jobs session_id agent_instance_id container_id error now db).1
serve (mark_stale now) db = (mark_stale_running_async_jobs_failed now db).1

unfoldable pub serve_all : List JobCall → Database → Database
serve_all [] db = db
serve_all (call ∷ calls) db = serve_all calls (serve call db)

abbrev pub run_id_of_job : AsyncJob → String
run_id_of_job job = job.run_id

abbrev pub is_running_now : AsyncJob → Bool
is_running_now job = is_running job.status

abbrev pub is_awaited : String → AgentNotification → Bool
is_awaited = is_awaited_by sandbox_async_job_finished run_id_of_job is_running_now

-- No run id is that of two jobs or of two obligations; a job runs exactly if it has an obligation
-- that is awaited.
abbrev pub IsPaired : Database → Type 0
IsPaired db = IsTracking sandbox_async_job_finished run_id_of_job is_running_now db.jobs db.inbox

create_async_job-IsPaired :
    (id : String) (n : NewJob) (s : RuntimeScope) (now : ℕ) (db : Database)
    → IsPaired db
    → IsPaired (committed db (create_async_job id n s now db))
unfolding create_async_job add_obligation_in_session new_row job_row
create_async_job-IsPaired id n s now db h =
    created
      (count_where (has_run_id n.new_run_id) db.jobs == 0
        && count_where (is_job_obligation n.new_run_id) db.inbox == 0)
      refl
  where
    created :
        (c : Bool)
        → c ≡ (
            count_where (has_run_id n.new_run_id) db.jobs == 0
            && count_where (is_job_obligation n.new_run_id) db.inbox == 0)
        → IsPaired (
            committed db (
              if c
              then some (
                job_row n now,
                record {
                  jobs = db.jobs ++ (job_row n now ∷ []);
                  inbox =
                      (add_obligation_in_session sandbox_async_job_finished
                        (owner_obligation id n)
                        none
                        s
                        now
                        db.inbox).1;
                },
              )
              else none))
    created false e = h
    created true e = record {
      rows_unique =
          fresh_unique has_run_id n.new_run_id db.jobs _ (λ j. refl) (ground (arith, e))
            h.rows_unique;
      obligations_unique =
          fresh_unique is_job_obligation n.new_run_id db.inbox _ (λ j. refl) (ground (arith, e))
            h.obligations_unique;
      tracking = λ j.
          any-append (is_running_job j) db.jobs _
          ∙ ap (λ b. b || (n.new_run_id == j && true)) (h.tracking j)
          ∙ sym (any-append (is_awaited j) db.inbox _);
    }

IsPaired-if : (b : Bool) (x y : Database) → IsPaired x → IsPaired y → IsPaired (if b then x else y)
IsPaired-if true x y h k = h
IsPaired-if false x y h k = k

IsPaired-answer :
    (b : Bool) (x y : Option AsyncJob × Database)
    → IsPaired x.1
    → IsPaired y.1
    → IsPaired (if b then x else y).1
IsPaired-answer true x y h k = h
IsPaired-answer false x y h k = k

finish_found-IsPaired :
    (run_id : String) (result : JobResult) (now : ℕ) (found : Option AsyncJob) (db : Database)
    → is_running result.result_status ≡ false
    → IsPaired db
    → IsPaired (finish_found run_id result now found db).1
unfolding finish_found finish_running finish_job
finish_found-IsPaired run_id result now none db e h = h
finish_found-IsPaired run_id result now (some job) db e h =
    IsPaired-answer (is_finished job.status) _ _ h (
      IsPaired-if _ _ _
        (resolved-IsTracking sandbox_async_job_finished run_id_of_job is_running_now run_id
          (is_running_job run_id) (finish_job result now) (wakes_owner result.result_status)
          (payload_of (
            first_where (has_run_id run_id)
              (update_where (is_running_job run_id) (finish_job result now) db.jobs)))
          result.result_error now (λ j r. r) (λ j r. ground (arith, r)) (λ j. refl) (λ j. e) db.jobs
          db.inbox h)
        h)

end_one-IsPaired :
    (status : AsyncJobStatus) (ready : Bool) (payload : AsyncJob → Option Fields) (error : String)
    (now : ℕ) (job : AsyncJob) (db : Database)
    → is_running status ≡ false
    → IsPaired db
    → IsPaired (end_one status ready payload error now job db)
unfolding end_one end_job
end_one-IsPaired status ready payload error now job db e h =
    resolved-IsTracking sandbox_async_job_finished run_id_of_job is_running_now job.run_id
      (has_run_id job.run_id) (end_job status error now) ready
      (payload (end_job status error now job)) error now (λ j r. ground (arith, r)) (λ j r. r)
      (λ j. refl) (λ j. e) db.jobs db.inbox h

end_each-IsPaired :
    (status : AsyncJobStatus) (ready : Bool) (payload : AsyncJob → Option Fields) (error : String)
    (now : ℕ) (rows : List AsyncJob) (db : Database)
    → is_running status ≡ false
    → IsPaired db
    → IsPaired (end_each status ready payload error now rows db)
unfolding end_each
end_each-IsPaired status ready payload error now [] db e h = h
end_each-IsPaired status ready payload error now (job ∷ rows) db e h =
    end_each-IsPaired status ready payload error now rows _ e
      (end_one-IsPaired status ready payload error now job db e h)

pub serve-IsPaired : (call : JobCall) (db : Database) → IsPaired db → IsPaired (serve call db)
unfolding serve complete_async_job fail_async_job cancel_async_job finish_async_job
    cancel_running_async_jobs mark_stale_running_async_jobs_failed
serve-IsPaired (create id n s now) db h = create_async_job-IsPaired id n s now db h
serve-IsPaired (complete run_id exit_code bytes lines now) db h =
    finish_found-IsPaired run_id _ now (get_job run_id db) db refl h
serve-IsPaired (fail run_id error bytes lines now) db h =
    finish_found-IsPaired run_id _ now (get_job run_id db) db refl h
serve-IsPaired (cancel run_id error bytes lines now) db h =
    finish_found-IsPaired run_id _ now (get_job run_id db) db refl h
serve-IsPaired (cancel_running session_id agent_instance_id container_id error now) db h =
    end_each-IsPaired job_canceled false _ error now _ db refl h
serve-IsPaired (mark_stale now) db h = end_each-IsPaired job_failed true _ _ now _ db refl h

-- Sequences of calls of this service alone keep the pairing.
pub serve_all-IsPaired :
    (calls : List JobCall) (db : Database) → IsPaired db → IsPaired (serve_all calls db)
unfolding serve_all
serve_all-IsPaired [] db h = h
serve_all-IsPaired (call ∷ calls) db h =
    serve_all-IsPaired calls (serve call db) (serve-IsPaired call db h)
