-- ===== src/Streaming/Turns.antt =====
-- core/runtime/session.py and core/delegation/subagents.py: the events of one turn of an agent, as
-- they reach the projection. The stream of the SDK is a list of events.
pub mod Closing
use zj_cyber_workbench.Prelude.{
  and_then, string_eq, ℕ, String, Option, some, List, [], ◌∷◌, ◌++◌, map,
}
use zj_cyber_workbench.Streaming.{
  Scoped, Event, turn_boundary, text_delta, thinking_delta, text_complete, thinking_complete,
  tool_call, tool_result, subagent_task, done, failed,
}
use zj_cyber_workbench.Streaming.Live.{LiveEventProjection, apply, apply_all}
use zj_cyber_workbench.Streaming.Buffers.{DeltaBuffer, track_delta, incomplete_segment_events}

-- The agent and the call that a turn is nested in; both are empty for a turn that is not.
module _ (nested_for nested_call_id : String) where
  abbrev pub nest : Scoped → Scoped
  nest s = record s { nested_for = nested_for; nested_call_id = nested_call_id }

  -- `_tag_nested`
  unfoldable pub tag_nested : Event → Event
  tag_nested (turn_boundary s) = turn_boundary (nest s)
  tag_nested (text_delta e) = text_delta (record e { scoped = nest e.scoped })
  tag_nested (thinking_delta e) = thinking_delta (record e { scoped = nest e.scoped })
  tag_nested (text_complete e) = text_complete (record e { scoped = nest e.scoped })
  tag_nested (thinking_complete e) = thinking_complete (record e { scoped = nest e.scoped })
  tag_nested (tool_call e) = tool_call (record e { scoped = nest e.scoped })
  tag_nested (tool_result e) = tool_result (record e { scoped = nest e.scoped })
  tag_nested (subagent_task e) = subagent_task (record e { scoped = nest e.scoped })
  tag_nested (done s) = done (nest s)
  tag_nested (failed e) = failed (record e { scoped = nest e.scoped })
  tag_nested event = event

  -- The loop over the stream: a buffer keeps what is not completed, and the event is published.
  unfoldable pub stream_turn :
      List Event
      → List DeltaBuffer
      → LiveEventProjection
      → Option (List DeltaBuffer × LiveEventProjection)
  stream_turn [] buffers live = some (buffers, live)
  stream_turn (event ∷ events) buffers live =
      and_then (apply (tag_nested event) live)
        (λ next. stream_turn events (track_delta buffers event) next)

  abbrev pub done_event : (now : ℕ) → (agent_name : String) → Event
  done_event now agent_name = done (record {
    created_at = now;
    seq = 0;
    agent_name = agent_name;
    nested_for = "";
    nested_call_id = "";
  })

  -- What is published when the stream has ended, or was interrupted.
  unfoldable pub closing_events : (now : ℕ) → (agent_name : String) → List DeltaBuffer → List Event
  closing_events now agent_name buffers =
      incomplete_segment_events now agent_name buffers ++ (done_event now agent_name ∷ [])

  -- A turn whose stream ends or is interrupted. The other endings of the source, a stream that stays
  -- idle for too long and an exception, discard the buffers and publish no closing events; they are
  -- not modelled.
  unfoldable pub run_turn :
      (now : ℕ)
      → (agent_name : String) → List Event
      → LiveEventProjection
      → Option LiveEventProjection
  run_turn now agent_name events live =
      and_then (stream_turn events [] live)
        (λ end. apply_all (map tag_nested (closing_events now agent_name end.0)) end.1)
