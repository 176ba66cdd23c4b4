-- ===== src/Streaming/Live.antt =====
-- core/runtime/live_projection.py: what a client that reconnects is sent. The dict of segments, those
-- of tool calls and of tool results, and that of subagents have keys of their own here, so that one
-- function from keys to indexes stands for the four.
pub mod Reference
pub mod Replay
pub mod Reconnect
use zj_cyber_workbench.Prelude.{
  if◌then◌else◌, and_then, string_eq, ◌==◌, not, ◌&&◌, length, filter, ℕ, zero, suc, ◌+◌, String,
  Bool, true, false, Option, none, some, map_option, List, [], ◌∷◌, ◌++◌,
}
use zj_cyber_workbench.Streaming.{
  Scoped, RunStateEvent, Event, user_message, turn_boundary, run_state, text_delta, thinking_delta,
  text_complete, thinking_complete, tool_call, tool_result, subagent_task, done, failed,
}

pub data Slot : Type 0 where
  segment_slot : (event_type segment_id nested_for nested_call_id : String) → Slot
  tool_slot tool_result_slot : (call_id nested_for nested_call_id : String) → Slot
  subagent_slot : (run_id : String) → Slot

unfoldable pub same_slot : Slot → Slot → Bool
same_slot (segment_slot a b c d) (segment_slot e f g h) = a == e && b == f && c == g && d == h
same_slot (tool_slot a b c) (tool_slot e f g) = a == e && b == f && c == g
same_slot (tool_result_slot a b c) (tool_result_slot e f g) = a == e && b == f && c == g
same_slot (subagent_slot a) (subagent_slot e) = a == e
same_slot _ _ = false

pub record LiveEventProjection : Type 0 where
  pub events : List Event
  pub indexes : Slot → Option ℕ

abbrev pub no_indexes : Slot → Option ℕ
no_indexes slot = none

unfoldable pub set_index : Slot → ℕ → (Slot → Option ℕ) → Slot → Option ℕ
set_index slot i indexes other = if same_slot slot other then some i else indexes other

unfoldable pub pop_index : Slot → (Slot → Option ℕ) → Slot → Option ℕ
pop_index slot indexes other = if same_slot slot other then none else indexes other

-- `self._events[index] = event`; `none` is an `IndexError`.
unfoldable pub set_at : ℕ → Event → List Event → Option (List Event)
set_at i event [] = none
set_at zero event (e ∷ events) = some (event ∷ events)
set_at (suc i) event (e ∷ events) = map_option (λ rest. e ∷ rest) (set_at i event events)

abbrev pub segment_of : (event_type : String) → Scoped → (segment_id : String) → Slot
segment_of event_type s segment_id =
    segment_slot event_type segment_id s.nested_for s.nested_call_id

-- The key under which an event is indexed, if it is.
unfoldable pub slot_of : Event → Option Slot
slot_of (text_delta e) = some (segment_of "text" e.scoped e.segment_id)
slot_of (thinking_delta e) = some (segment_of "thinking" e.scoped e.segment_id)
slot_of (tool_call e) = some (tool_slot e.call_id e.scoped.nested_for e.scoped.nested_call_id)
slot_of (tool_result e) =
    some (tool_result_slot e.call_id e.scoped.nested_for e.scoped.nested_call_id)
slot_of (subagent_task e) = some (subagent_slot e.run_id)
slot_of _ = none

abbrev pub set_slot : Option Slot → ℕ → (Slot → Option ℕ) → Slot → Option ℕ
set_slot none i indexes = indexes
set_slot (some slot) i indexes = set_index slot i indexes

-- The loop of `_rebuild_indexes`.
unfoldable pub index_from : ℕ → List Event → (Slot → Option ℕ) → Slot → Option ℕ
index_from i [] indexes = indexes
index_from i (e ∷ events) indexes = index_from (i + 1) events (set_slot (slot_of e) i indexes)

unfoldable pub rebuild_indexes : List Event → LiveEventProjection
rebuild_indexes events = record { events = events; indexes = index_from 0 events no_indexes }

unfoldable pub reset : RunStateEvent → LiveEventProjection
reset e = record { events = run_state e ∷ []; indexes = no_indexes }

unfoldable pub snapshot : Option (Event → Bool) → LiveEventProjection → List Event
snapshot none st = st.events
snapshot (some include) st = filter include st.events

unfoldable pub append_event : Event → LiveEventProjection → LiveEventProjection
append_event event st = record st { events = st.events ++ (event ∷ []) }

abbrev pub with_events : LiveEventProjection → List Event → LiveEventProjection
with_events st events = record st { events = events }

-- `_apply_segment`, `_apply_tool_call`, `_apply_tool_result` and `_apply_subagent`, by the key's index.
unfoldable pub apply_at : Slot → Event → Option ℕ → LiveEventProjection → Option LiveEventProjection
apply_at slot event none st = some (record {
  events = st.events ++ (event ∷ []);
  indexes = set_index slot (length st.events) st.indexes;
})
apply_at slot event (some i) st = map_option (with_events st) (set_at i event st.events)

abbrev pub apply_keyed : Slot → Event → LiveEventProjection → Option LiveEventProjection
apply_keyed slot event st = apply_at slot event (st.indexes slot) st

-- `_apply_segment_complete`, by the index that was popped.
unfoldable pub complete_at :
    Slot → Event → Option ℕ → LiveEventProjection → Option LiveEventProjection
complete_at slot event none st =
    some (record { events = st.events ++ (event ∷ []); indexes = pop_index slot st.indexes })
complete_at slot event (some i) st = map_option rebuild_indexes (set_at i event st.events)

abbrev pub apply_segment_complete : Slot → Event → LiveEventProjection → Option LiveEventProjection
apply_segment_complete slot event st = complete_at slot event (st.indexes slot) st

abbrev pub is_run_state : Event → Bool
is_run_state (run_state e) = true
is_run_state _ = false

unfoldable pub apply : Event → LiveEventProjection → Option LiveEventProjection
apply (run_state e) st =
    some (rebuild_indexes (run_state e ∷ filter (λ item. not (is_run_state item)) st.events))
apply (user_message e) st = some (append_event (user_message e) st)
apply (turn_boundary s) st = some (append_event (turn_boundary s) st)
apply (text_delta e) st = apply_keyed (segment_of "text" e.scoped e.segment_id) (text_delta e) st
apply (thinking_delta e) st =
    apply_keyed (segment_of "thinking" e.scoped e.segment_id) (thinking_delta e) st
apply (text_complete e) st =
    apply_segment_complete (segment_of "text" e.scoped e.segment_id) (text_complete e) st
apply (thinking_complete e) st =
    apply_segment_complete (segment_of "thinking" e.scoped e.segment_id) (thinking_complete e) st
apply (tool_call e) st =
    apply_keyed (tool_slot e.call_id e.scoped.nested_for e.scoped.nested_call_id) (tool_call e) st
apply (tool_result e) st =
    apply_keyed (tool_result_slot e.call_id e.scoped.nested_for e.scoped.nested_call_id)
      (tool_result e) st
apply (subagent_task e) st = apply_keyed (subagent_slot e.run_id) (subagent_task e) st
apply (done s) st = if s.nested_call_id == "" then some (append_event (done s) st) else some st
apply (failed e) st = some (append_event (failed e) st)

-- The events of a session, one after the other.
unfoldable pub apply_all : List Event → LiveEventProjection → Option LiveEventProjection
apply_all [] st = some st
apply_all (event ∷ events) st = and_then (apply event st) (λ next. apply_all events next)
