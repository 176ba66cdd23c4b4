-- ===== src/Streaming/Tests.antt =====
-- A turn of a few events, and the theorems at it.
use zj_cyber_workbench.Prelude.{
  string_eq, nat_eq, length, filter, contains, ◌<◌, String, ◌≡◌, refl, ◌↔◌, Bool, true, false,
  Option, none, some, List, [], ◌∷◌, ◌++◌, arith,
}
use zj_cyber_workbench.Json.{Json}
use zj_cyber_workbench.Streaming.Interrupt.Calls.{unanswered}
use zj_cyber_workbench.Streaming.{
  Scoped, RunStateEvent, Event, run_state, text_delta, tool_call, tool_result,
}
use zj_cyber_workbench.Streaming.Live.{
  same_slot, LiveEventProjection, set_index, pop_index, set_at, slot_of, index_from,
  rebuild_indexes, reset, snapshot, append_event, apply_at, complete_at, apply, apply_all,
}
use zj_cyber_workbench.Streaming.Live.Reference.{has_slot, holds, position, replace, place, Unique}
use zj_cyber_workbench.Streaming.Live.Replay.{
  target_of, replay_event, replay, IsIndexed, apply_all-replay,
}
use zj_cyber_workbench.Streaming.Live.Reconnect.{snapshot-replay}
use zj_cyber_workbench.Streaming.Buffers.{update_buffer, track_delta, incomplete_segment_events}
use zj_cyber_workbench.Streaming.Buffers.Tracking.{continues, is_regular}
use zj_cyber_workbench.Streaming.Turns.{tag_nested, stream_turn, closing_events, run_turn}
use zj_cyber_workbench.Streaming.Turns.Closing.{segment, run_turn-closed}
use zj_cyber_workbench.Streaming.Timeline.{
  timeline_item_key, seq_of, Timeline, set_item, number_item, number_event, stamp_event,
  stamp_events, load_timeline,
}
use zj_cyber_workbench.Streaming.Timeline.Items.{AreOfOneItem, stamp_event-seq_iff}
use zj_cyber_workbench.Streaming.Timeline.Ordinals.{IsTimeline}
use zj_cyber_workbench.Streaming.Interrupt.{
  StreamItem, next, Round, interrupted, count_tool_call, after_signal, run_round, run_rounds,
  iter_interruptible_events,
}
use zj_cyber_workbench.Streaming.Interrupt.Deferral.{any_pending, interrupted-calls, watching-calls}

abbrev by_lead : Scoped
by_lead = record {
  created_at = 0;
  seq = 0;
  agent_name = "lead";
  nested_for = "";
  nested_call_id = "";
}

abbrev words : String → String → Event
words delta full_text =
    text_delta
      (record { scoped = by_lead; segment_id = "s1"; delta = delta; full_text = full_text })

abbrev call : Event
call = tool_call (record { scoped = by_lead; call_id = "c1"; name = "scan"; arguments = Json.null })

abbrev result : Event
result =
    tool_result (record { scoped = by_lead; call_id = "c1"; output = "open"; is_error = false })

abbrev started : RunStateEvent
started = record { created_at = 0; seq = 0; running = true }

abbrev turn : List Event
turn = words "Port " "Port " ∷ call ∷ words "80" "Port 80" ∷ []

all_open : Unit {0}
unfolding apply_all apply apply_at complete_at same_slot set_index pop_index set_at slot_of
    index_from rebuild_indexes reset append_event track_delta update_buffer
    incomplete_segment_events stream_turn tag_nested closing_events run_turn is_regular continues
    position has_slot holds run_rounds run_round after_signal count_tool_call
    iter_interruptible_events any_pending target_of replay_event replay place replace filter
    contains
all_open = tt

-- The second delta takes the place of the first.
shows : replay turn (run_state started ∷ []) ≡ run_state started ∷ words "80" "Port 80" ∷ call ∷ []
unfolding all_open
shows = refl

apply_all-replay_example :
    (st : LiveEventProjection) × (apply_all turn (reset started) ≡ some st)
    × (st.events ≡ replay turn (run_state started ∷ []))
    × Unique st.events
apply_all-replay_example = apply_all-replay started turn

snapshot-replay_example :
    (st : LiveEventProjection) × (later : LiveEventProjection) × (apply_all turn (reset started)
      ≡ some st)
    × (apply_all (result ∷ []) st ≡ some later)
    × (replay (snapshot none st ++ (result ∷ [])) [] ≡ later.events)
snapshot-replay_example = snapshot-replay started turn (result ∷ [])

reset-IsIndexed : IsIndexed (reset started)
unfolding all_open
reset-IsIndexed = record { indexed = λ slot. refl; unique = (λ slot h. ground (arith, h), tt) }

run_turn-closed_example :
    (end : LiveEventProjection) × (run_turn "" "" 1 "lead" turn (reset started) ≡ some end)
    × ((k : Bool) (id : String) → holds (segment "" "" k id) end.events ≡ false)
unfolding all_open
run_turn-closed_example =
    run_turn-closed "" "" 1 "lead" turn (reset started) reset-IsIndexed (λ k id. refl)
      (refl, (refl, (refl, tt)))

abbrev round : Option StreamItem → Option Bool → Round
round item has_pending = record { item = item; has_pending = has_pending }

-- The notification arrives while a tool runs.
abbrev preempted : List Round
preempted =
    round (some (next call)) (some true)
    ∷ round (some (next result)) none
    ∷ round (some (next call)) none
    ∷ []

preempts : iter_interruptible_events false preempted ≡ (call ∷ result ∷ [], interrupted)
unfolding all_open
preempts = refl

interrupted-calls_example : unanswered [] (iter_interruptible_events false preempted).0 ≡ []
unfolding all_open
interrupted-calls_example = interrupted-calls false preempted refl (refl, tt)

watching-calls_example :
    0
    < length (
        unanswered []
          (iter_interruptible_events false (round (some (next call)) (some true) ∷ [])).0)
unfolding all_open
watching-calls_example =
    watching-calls false (round (some (next call)) (some true) ∷ [])
      (record { pending_tool_calls = 1; deferred = true }) refl refl tt

abbrev new_timeline : Timeline
new_timeline = record { last_seq = 0; item_seq = λ key. none }

new_timeline-IsTimeline : IsTimeline new_timeline
new_timeline-IsTimeline = record {
  bounded = λ key n e. ground (arith, e);
  distinct = λ key other n e k. ground (arith, e);
}

stamp_event-seq_iff_example :
    let start = stamp_events (λ n. "1") (call ∷ []) new_timeline in
    let stamped = stamp_event (λ n. "1") (words "Port " "Port ") start in
    let later = stamp_events (λ n. "1") (result ∷ []) stamped.1 in
    (seq_of stamped.0.0 ≡ seq_of (stamp_event (λ n. "1") (words "80" "Port 80") later).0.0)
    ↔ AreOfOneItem (words "Port " "Port ") (words "80" "Port 80")
stamp_event-seq_iff_example =
    stamp_event-seq_iff (λ n. "1") (call ∷ []) (result ∷ []) (words "Port " "Port ")
      (words "80" "Port 80") new_timeline new_timeline-IsTimeline refl refl refl refl

-- An item that is published before the log is loaded keeps an ordinal of its own.
stored_late :
    (load_timeline 7 (λ key. some 7) (stamp_event (λ n. "1") call new_timeline).1).item_seq "tc::c1"
    ≡ some 1
unfolding load_timeline stamp_event number_event number_item timeline_item_key set_item
stored_late = refl
