-- ===== src/Streaming/Buffers.antt =====
-- core/runtime/partial_context.py: the segments that a stream has not completed. The dict of buffers
-- is the list of its values, in their order, which hold their keys.
pub mod Tracking
use zj_cyber_workbench.Prelude.{
  if◌then◌else◌, string_eq, ◌==◌, not, ◌||◌, ℕ, String, Bool, true, false, Option, none, some, List,
  [], ◌∷◌,
}
use zj_cyber_workbench.Streaming.{
  SegmentComplete, Event, text_delta, thinking_delta, text_complete, thinking_complete,
}
use Prim.Native.String.{◌++◌ as str_append}

pub record DeltaBuffer : Type 0 where
  pub is_thinking : Bool
  pub segment_id : String
  pub content : String
  pub complete : Bool

abbrev pub new_buffer : Bool → String → DeltaBuffer
new_buffer is_thinking segment_id = record {
  is_thinking = is_thinking;
  segment_id = segment_id;
  content = "";
  complete = false;
}

abbrev pub add_delta : String → DeltaBuffer → DeltaBuffer
add_delta delta b = record b { content = str_append b.content delta }

abbrev pub complete_buffer : String → DeltaBuffer → DeltaBuffer
complete_buffer full_text b = record b { content = full_text; complete = true }

-- The buffer of a segment, a new one if there is none, is changed.
unfoldable pub update_buffer :
    (is_thinking : Bool) (segment_id : String)
    → (DeltaBuffer → DeltaBuffer)
    → List DeltaBuffer
    → List DeltaBuffer
update_buffer is_thinking segment_id change [] = change (new_buffer is_thinking segment_id) ∷ []
update_buffer is_thinking segment_id change (b ∷ buffers) =
    let rest = update_buffer is_thinking segment_id change buffers in
    if b.segment_id == segment_id then change b ∷ buffers else b ∷ rest

unfoldable pub track_delta : List DeltaBuffer → Event → List DeltaBuffer
track_delta buffers (text_delta e) = update_buffer false e.segment_id (add_delta e.delta) buffers
track_delta buffers (thinking_delta e) = update_buffer true e.segment_id (add_delta e.delta) buffers
track_delta buffers (text_complete e) =
    update_buffer false e.segment_id (complete_buffer e.full_text) buffers
track_delta buffers (thinking_complete e) =
    update_buffer true e.segment_id (complete_buffer e.full_text) buffers
track_delta buffers _ = buffers

-- Whether the stream of the SDK is cancelled, and the buffers then. `none` is no stream.
unfoldable pub discard_partial_stream :
    (is_complete : Option Bool) → List DeltaBuffer → Bool × List DeltaBuffer
discard_partial_stream none buffers = (false, [])
discard_partial_stream (some is_complete) buffers = (not is_complete, [])

abbrev pub completed_segment : (now : ℕ) → (agent_name : String) → DeltaBuffer → SegmentComplete
completed_segment now agent_name b = record {
  scoped = record {
    created_at = now;
    seq = 0;
    agent_name = agent_name;
    nested_for = "";
    nested_call_id = "";
  };
  segment_id = b.segment_id;
  full_text = b.content;
}

abbrev pub completion : (now : ℕ) → (agent_name : String) → DeltaBuffer → Event
completion now agent_name b =
    if b.is_thinking
    then thinking_complete (completed_segment now agent_name b)
    else text_complete (completed_segment now agent_name b)

unfoldable pub incomplete_segment_events :
    (now : ℕ) → (agent_name : String) → List DeltaBuffer → List Event
incomplete_segment_events now agent_name [] = []
incomplete_segment_events now agent_name (b ∷ buffers) =
    let rest = incomplete_segment_events now agent_name buffers in
    if b.content == "" || b.complete then rest else completion now agent_name b ∷ rest
