-- ===== src/Streaming/Interrupt.antt =====
-- core/task_runtime/interrupt.py: the stream of a turn that a notification may end. A round is one
-- return of `asyncio.wait`, with what each task that is done gives: the stream its next event, its
-- end or an exception, and the signal what `has_pending_notification` says after it.
pub mod Calls
pub mod Deferral
use zj_cyber_workbench.Prelude.{
  if◌then◌else◌, ◌==◌, nat_eq, ◌&&◌, ℕ, ◌+◌, ◌-◌, Bool, true, false, Option, none, some, List, [],
  ◌∷◌, ◌++◌,
}
use zj_cyber_workbench.Streaming.{Event, tool_call, tool_result}

pub data StreamItem : Type 0 where
  next : Event → StreamItem
  end_of_stream stream_error : StreamItem

pub record Round : Type 0 where
  pub item : Option StreamItem
  pub has_pending : Option Bool

-- The variables of the loop.
pub record Watch : Type 0 where
  pub pending_tool_calls : ℕ
  pub deferred : Bool

-- How the iteration stands: it goes on, or it has returned, or it has raised `InterruptSignal`, or
-- the stream's own exception.
pub data Standing : Type 0 where
  watching : Watch → Standing
  returned interrupted errored : Standing

unfoldable pub count_tool_call : Event → ℕ → ℕ
count_tool_call (tool_call e) pending = pending + 1
count_tool_call (tool_result e) pending = pending - 1
count_tool_call _ pending = pending

-- `if signal_task in done`, at the end of a round.
unfoldable pub after_signal : Option Bool → Watch → Standing
after_signal (some true) w =
    if w.pending_tool_calls == 0 then interrupted else watching (record w { deferred = true })
after_signal _ w = watching w

abbrev pub with_count : Event → Watch → Watch
with_count event w = record w { pending_tool_calls = count_tool_call event w.pending_tool_calls }

abbrev pub after_event : Watch → Option Bool → Standing
after_event w has_pending =
    if w.deferred && w.pending_tool_calls == 0 then interrupted else after_signal has_pending w

abbrev pub run_item : Option StreamItem → Option Bool → Watch → List Event × Standing
run_item none has_pending w = ([], after_signal has_pending w)
run_item (some end_of_stream) has_pending w = ([], returned)
run_item (some stream_error) has_pending w = ([], errored)
run_item (some (next event)) has_pending w =
    (event ∷ [], after_event (with_count event w) has_pending)

-- One round: the events that it yields, and how the iteration stands then.
unfoldable pub run_round : Round → Watch → List Event × Standing
run_round round w = run_item round.item round.has_pending w

unfoldable pub run_rounds : List Round → Standing → List Event × Standing
run_rounds [] standing = ([], standing)
run_rounds (round ∷ rounds) (watching w) =
    let step = run_round round w in
    let rest = run_rounds rounds step.1 in (step.0 ++ rest.0, rest.1)
run_rounds (round ∷ rounds) standing = ([], standing)

-- `iter_interruptible_events`, whose first question is whether a notification is already pending.
unfoldable pub iter_interruptible_events : (has_pending : Bool) → List Round → List Event × Standing
iter_interruptible_events has_pending rounds =
    if has_pending
    then ([], interrupted)
    else run_rounds rounds (watching (record { pending_tool_calls = 0; deferred = false }))
