-- ===== src/Subagents/Interleaving.antt =====
-- service/agent/subordinates.py with service/agent/notifications.py: calls of both services on the
-- same tables.
use zj_cyber_workbench.Prelude.{◌&&◌, String, ◌≡◌, refl, Bool, true, List, [], ◌∷◌, arith}
use zj_cyber_workbench.Notifications.{subagent_finished}
use zj_cyber_workbench.Notifications.Steps.{Step, step}
use zj_cyber_workbench.Notifications.Steps.Sparing.{spares, step-IsTracking}
use zj_cyber_workbench.Subagents.{TaskDatabase}
use zj_cyber_workbench.Subagents.Pairing.{
  TaskCall, serve_task, has_waiting_parent, run_id_of_task, IsPairedTasks, serve_task-IsPairedTasks,
}

pub data TaskTurn : Type 0 where
  of_tasks : TaskCall → TaskTurn
  of_inbox : Step → TaskTurn

-- No turn of the inbox makes or settles an obligation by itself.
abbrev pub all_spare : List TaskTurn → Bool
all_spare [] = true
all_spare (of_tasks call ∷ turns) = all_spare turns
all_spare (of_inbox s ∷ turns) = spares s && all_spare turns

module _ (like : String → String → Bool) where
  unfoldable pub take_task_turn : TaskTurn → TaskDatabase → TaskDatabase
  take_task_turn (of_tasks call) db = serve_task call db
  take_task_turn (of_inbox s) db = record db { inbox = step like s db.inbox }

  unfoldable pub take_task_turns : List TaskTurn → TaskDatabase → TaskDatabase
  take_task_turns [] db = db
  take_task_turns (turn ∷ turns) db = take_task_turns turns (take_task_turn turn db)

  -- The pairing of tasks and obligations holds over any sequence of calls of this service (a task is
  -- created, reports progress, is completed, failed or canceled, the running tasks of a parent are
  -- canceled, the stale ones are failed after a restart) and of the inbox (a message of a user
  -- arrives, a notification is claimed, completed, failed or released, the main agent is
  -- interrupted, claims are reset), from any tables in which it holds: exactly the running tasks that
  -- an agent delegated have an obligation of their run id that is awaited, and no run id is that of
  -- two tasks or of two obligations. Not among these calls is `cancel_session_notifications`, which
  -- cancels awaited obligations while their tasks run.
  pub take_task_turns-IsPairedTasks :
      (turns : List TaskTurn) (db : TaskDatabase)
      → all_spare turns ≡ true
      → IsPairedTasks db
      → IsPairedTasks (take_task_turns turns db)
  unfolding take_task_turns take_task_turn
  take_task_turns-IsPairedTasks [] db e h = h
  take_task_turns-IsPairedTasks (of_tasks call ∷ turns) db e h =
      take_task_turns-IsPairedTasks turns (serve_task call db) e
        (serve_task-IsPairedTasks call db h)
  take_task_turns-IsPairedTasks (of_inbox s ∷ turns) db e h =
      take_task_turns-IsPairedTasks turns (record db { inbox = step like s db.inbox })
        (ground (arith, e))
        (step-IsTracking subagent_finished refl like run_id_of_task has_waiting_parent db.tasks s
          db.inbox (ground (arith, e)) h)
