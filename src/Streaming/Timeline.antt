-- ===== src/Streaming/Timeline.antt =====
-- core/runtime/timeline.py and core/runtime/session.py (`_stamp_event`): the ordinals of the items that
-- a session shows. `show` is `str` of a number, and the dict of ordinals a function.
pub mod Ordinals
pub mod Items
use zj_cyber_workbench.Prelude.{
  if◌then◌else◌, string_eq, ◌==◌, not, ◌&&◌, ℕ, ◌+◌, max, String, Bool, true, false, Option, none,
  some, List, [], ◌∷◌,
}
use zj_cyber_workbench.Streaming.{
  Scoped, Event, user_message, turn_boundary, run_state, text_delta, thinking_delta, text_complete,
  thinking_complete, tool_call, tool_result, subagent_task, done, failed,
}
use Prim.Native.String.{◌++◌ as str_append}

unfoldable pub event_type : Event → String
event_type (user_message e) = "user_message"
event_type (turn_boundary s) = "turn_boundary"
event_type (run_state e) = "run_state"
event_type (thinking_delta e) = "thinking_delta"
event_type (thinking_complete e) = "thinking_complete"
event_type (text_delta e) = "text_delta"
event_type (text_complete e) = "text_complete"
event_type (tool_call e) = "tool_call"
event_type (tool_result e) = "tool_result"
event_type (subagent_task e) = "subagent_task"
event_type (done s) = "done"
event_type (failed e) = "error"

abbrev pub item_key : (kind nested_call_id id : String) → Option String
item_key kind nested_call_id id =
    some (str_append kind (str_append ":" (str_append nested_call_id (str_append ":" id))))

unfoldable pub timeline_item_key : Event → Option String
timeline_item_key (text_delta e) = item_key "text" e.scoped.nested_call_id e.segment_id
timeline_item_key (text_complete e) = item_key "text" e.scoped.nested_call_id e.segment_id
timeline_item_key (thinking_delta e) = item_key "thinking" e.scoped.nested_call_id e.segment_id
timeline_item_key (thinking_complete e) = item_key "thinking" e.scoped.nested_call_id e.segment_id
timeline_item_key (tool_call e) = item_key "tc" e.scoped.nested_call_id e.call_id
timeline_item_key (tool_result e) = item_key "tr" e.scoped.nested_call_id e.call_id
timeline_item_key (subagent_task e) = some (str_append "sa:" e.run_id)
timeline_item_key _ = none

-- `_CONTROL_TYPES`
abbrev pub is_control_event : Event → Bool
is_control_event (run_state e) = true
is_control_event (done s) = true
is_control_event _ = false

-- `_DELTA_TYPES`
abbrev pub is_delta_event : Event → Bool
is_delta_event (text_delta e) = true
is_delta_event (thinking_delta e) = true
is_delta_event _ = false

unfoldable pub is_persistable : Event → Bool
is_persistable event = not (is_control_event event) && not (is_delta_event event)

unfoldable pub carries_seq : Event → Bool
carries_seq event = not (is_control_event event)

abbrev pub number_scoped : ℕ → Scoped → Scoped
number_scoped n s = record s { seq = n }

-- `event.seq = seq`
unfoldable pub with_seq : ℕ → Event → Event
with_seq n (user_message e) = user_message (record e { seq = n })
with_seq n (turn_boundary s) = turn_boundary (number_scoped n s)
with_seq n (run_state e) = run_state (record e { seq = n })
with_seq n (text_delta e) = text_delta (record e { scoped = number_scoped n e.scoped })
with_seq n (thinking_delta e) = thinking_delta (record e { scoped = number_scoped n e.scoped })
with_seq n (text_complete e) = text_complete (record e { scoped = number_scoped n e.scoped })
with_seq n (thinking_complete e) =
    thinking_complete (record e { scoped = number_scoped n e.scoped })
with_seq n (tool_call e) = tool_call (record e { scoped = number_scoped n e.scoped })
with_seq n (tool_result e) = tool_result (record e { scoped = number_scoped n e.scoped })
with_seq n (subagent_task e) = subagent_task (record e { scoped = number_scoped n e.scoped })
with_seq n (done s) = done (number_scoped n s)
with_seq n (failed e) = failed (record e { scoped = number_scoped n e.scoped })

unfoldable pub seq_of : Event → ℕ
seq_of (user_message e) = e.seq
seq_of (turn_boundary s) = s.seq
seq_of (run_state e) = e.seq
seq_of (text_delta e) = e.scoped.seq
seq_of (thinking_delta e) = e.scoped.seq
seq_of (text_complete e) = e.scoped.seq
seq_of (thinking_complete e) = e.scoped.seq
seq_of (tool_call e) = e.scoped.seq
seq_of (tool_result e) = e.scoped.seq
seq_of (subagent_task e) = e.scoped.seq
seq_of (done s) = s.seq
seq_of (failed e) = e.scoped.seq

-- `_seq` and `_item_seq` of a session.
pub record Timeline : Type 0 where
  pub last_seq : ℕ
  pub item_seq : String → Option ℕ

unfoldable pub set_item : String → ℕ → (String → Option ℕ) → String → Option ℕ
set_item key n item_seq other = if key == other then some n else item_seq other

-- The ordinal of an item: a fresh one without a key, and with a key that is new.
unfoldable pub number_item : (key : Option String) → (known : Option ℕ) → Timeline → ℕ × Timeline
number_item none known t = (t.last_seq + 1, record t { last_seq = t.last_seq + 1 })
number_item (some key) (some n) t = (n, t)
number_item (some key) none t = (
  t.last_seq + 1,
  record { last_seq = t.last_seq + 1; item_seq = set_item key (t.last_seq + 1) t.item_seq },
)

abbrev pub known_seq : Option String → Timeline → Option ℕ
known_seq none t = none
known_seq (some key) t = t.item_seq key

unfoldable pub number_event : Event → Timeline → ℕ × Timeline
number_event event t = let key = timeline_item_key event in number_item key (known_seq key t) t

abbrev pub persist_key : (show : ℕ → String) → Event → ℕ → Option String → String
persist_key show event n none = str_append (event_type event) (str_append ":" (show n))
persist_key show event n (some key) = key

-- `_stamp_event`: the event with its ordinal, the key to persist it under, and the state.
unfoldable pub stamp_event :
    (show : ℕ → String) → Event → Timeline → (Event × Option String) × Timeline
stamp_event show event t =
    let numbered = number_event event t in
    let key = persist_key show event numbered.0 (timeline_item_key event) in
    if is_control_event event
    then ((event, none), t)
    else ((with_seq numbered.0 event, if is_persistable event then some key else none), numbered.1)

unfoldable pub stamp_events : (show : ℕ → String) → List Event → Timeline → Timeline
stamp_events show [] t = t
stamp_events show (event ∷ events) t = stamp_events show events (stamp_event show event t).1

abbrev pub set_default : Option ℕ → Option ℕ → Option ℕ
set_default (some n) stored_seq = some n
set_default none stored_seq = stored_seq

-- `_ensure_timeline_loaded`: the state goes on from what the log has, whose ordinals are given.
unfoldable pub load_timeline : (max_seq : ℕ) → (stored : String → Option ℕ) → Timeline → Timeline
load_timeline max_seq stored t = record {
  last_seq = max t.last_seq max_seq;
  item_seq = λ key. set_default (t.item_seq key) (stored key);
}
