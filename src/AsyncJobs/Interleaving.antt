-- ===== src/AsyncJobs/Interleaving.antt =====
-- service/sandbox/async_jobs.py with service/agent/notifications.py: calls of both services on the
-- same database.
use zj_cyber_workbench.Prelude.{◌&&◌, String, ◌≡◌, refl, Bool, true, List, [], ◌∷◌, arith}
use zj_cyber_workbench.Notifications.{sandbox_async_job_finished}
use zj_cyber_workbench.Notifications.Steps.{Step, step}
use zj_cyber_workbench.Notifications.Steps.Sparing.{spares, step-IsTracking}
use zj_cyber_workbench.AsyncJobs.{Database}
use zj_cyber_workbench.AsyncJobs.Pairing.{
  JobCall, serve, run_id_of_job, is_running_now, IsPaired, serve-IsPaired,
}

pub data Turn : Type 0 where
  of_jobs : JobCall → Turn
  of_inbox : Step → Turn

-- No turn of the inbox makes or settles an obligation by itself.
abbrev pub all_spare : List Turn → Bool
all_spare [] = true
all_spare (of_jobs call ∷ turns) = all_spare turns
all_spare (of_inbox s ∷ turns) = spares s && all_spare turns

module _ (like : String → String → Bool) where
  unfoldable pub take_turn : Turn → Database → Database
  take_turn (of_jobs call) db = serve call db
  take_turn (of_inbox s) db = record db { inbox = step like s db.inbox }

  unfoldable pub take_turns : List Turn → Database → Database
  take_turns [] db = db
  take_turns (turn ∷ turns) db = take_turns turns (take_turn turn db)

  -- The pairing of jobs and obligations holds over any sequence of calls of this service (a job is
  -- created, completed, failed or canceled, the running jobs of an owner are canceled, the stale ones
  -- are failed after a restart) and of the inbox (a message of a user arrives, a notification is
  -- claimed, completed, failed or released, the main agent is interrupted, claims are reset), from any
  -- database in which it holds: a job is running exactly while the obligation of its run id is
  -- awaited, and both are unique. Not among these calls is `cancel_session_notifications`, which
  -- cancels awaited obligations while their jobs run.
  pub take_turns-IsPaired :
      (turns : List Turn) (db : Database)
      → all_spare turns ≡ true
      → IsPaired db
      → IsPaired (take_turns turns db)
  unfolding take_turns take_turn
  take_turns-IsPaired [] db e h = h
  take_turns-IsPaired (of_jobs call ∷ turns) db e h =
      take_turns-IsPaired turns (serve call db) e (serve-IsPaired call db h)
  take_turns-IsPaired (of_inbox s ∷ turns) db e h =
      take_turns-IsPaired turns (record db { inbox = step like s db.inbox }) (ground (arith, e))
        (step-IsTracking sandbox_async_job_finished refl like run_id_of_job is_running_now db.jobs s
          db.inbox (ground (arith, e)) h)
