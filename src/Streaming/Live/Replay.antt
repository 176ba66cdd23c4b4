-- ===== src/Streaming/Live/Replay.antt =====
-- core/runtime/live_projection.py: the indexes against the search.
use zj_cyber_workbench.Prelude.{
  if◌then◌else◌, Bool-cases, and_then, string_eq, ◌==◌, nat_eq, not, length, filter, ℕ, ◌≡◌, refl,
  sym, ap, ◌∙◌, subst, inl, inr, Bool, true, false, Option, none, some, map_option, List, [], ◌∷◌,
  ◌++◌, arith,
}
use zj_cyber_workbench.Streaming.{
  RunStateEvent, Event, user_message, turn_boundary, run_state, text_delta, thinking_delta,
  text_complete, thinking_complete, tool_call, tool_result, subagent_task, done, failed,
}
use zj_cyber_workbench.Streaming.Live.{
  Slot, same_slot, LiveEventProjection, no_indexes, set_index, pop_index, segment_of, slot_of,
  rebuild_indexes, reset, append_event, with_events, apply_at, complete_at, is_run_state, apply,
  apply_all,
}
use zj_cyber_workbench.Streaming.Live.Reference.{
  same_slot_iff, has_slot, holds, position, replace, place, Unique, position_of_holds,
  holds_of_position, position-holds, set_at-position, has_slot-HasOnly, position-replace,
  Unique-replace, Unique-append, Unique-filter, position-append, index_from-position,
}

-- The key of the event that an event takes the place of: the end of a segment has the key of its
-- deltas.
unfoldable pub target_of : Event → Option Slot
target_of (text_complete e) = some (segment_of "text" e.scoped e.segment_id)
target_of (thinking_complete e) = some (segment_of "thinking" e.scoped e.segment_id)
target_of event = slot_of event

abbrev pub is_nested_done : Event → Bool
is_nested_done (done s) = not (s.nested_call_id == "")
is_nested_done _ = false

abbrev pub replay_untargeted : Event → List Event → List Event
replay_untargeted event events =
    if is_run_state event
    then event ∷ filter (λ item. not (is_run_state item)) events
    else if is_nested_done event
    then events
    else events ++ (event ∷ [])

abbrev pub replay_at : Option Slot → Event → List Event → List Event
replay_at none event events = replay_untargeted event events
replay_at (some slot) event events = place slot event events

-- The reference: one event on the events that are shown.
unfoldable pub replay_event : Event → List Event → List Event
replay_event event events = replay_at (target_of event) event events

unfoldable pub replay : List Event → List Event → List Event
replay [] shown = shown
replay (event ∷ events) shown = replay events (replay_event event shown)

pub replay-append :
    (events more shown : List Event)
    → replay (events ++ more) shown ≡ replay more (replay events shown)
unfolding replay
replay-append [] more shown = refl
replay-append (e ∷ events) more shown = replay-append events more (replay_event e shown)

-- The indexes are the positions of the events with their keys, which differ.
pub record IsIndexed (st : LiveEventProjection) : Type 0 where
  pub indexed : (slot : Slot) → st.indexes slot ≡ position slot st.events
  pub unique : Unique st.events

-- The projection goes on with these events, indexed.
abbrev pub Shows : Option LiveEventProjection → List Event → Type 0
Shows result events =
    (st : LiveEventProjection) × (result ≡ some st) × (st.events ≡ events) × IsIndexed st

pub rebuild_indexes-IsIndexed :
    (events : List Event) → Unique events → IsIndexed (rebuild_indexes events)
unfolding rebuild_indexes
rebuild_indexes-IsIndexed events u = record {
  indexed = λ slot. ground (arith, index_from-position 0 events no_indexes slot u);
  unique = u;
}

append_event-Shows :
    (event : Event) (st : LiveEventProjection)
    → IsIndexed st
    → slot_of event ≡ none
    → Shows (some (append_event event st)) (st.events ++ (event ∷ []))
unfolding append_event has_slot
append_event-Shows event st h n = (
  append_event event st,
  refl,
  refl,
  record {
    indexed = λ slot. ground (arith, h.indexed slot, n, position-append slot event st.events);
    unique = Unique-append event st.events (λ slot g. ground (arith, n, g)) h.unique;
  },
)

pub same_slot_refl : (slot : Slot) → same_slot slot slot ≡ true
same_slot_refl slot = (same_slot_iff slot slot).1 refl

set_index-IsIndexed :
    (slot : Slot) (event : Event) (st : LiveEventProjection)
    → IsIndexed st
    → has_slot slot event ≡ true
    → holds slot st.events ≡ false
    → IsIndexed (record {
      events = st.events ++ (event ∷ []);
      indexes = set_index slot (length st.events) st.indexes;
    })
unfolding set_index
set_index-IsIndexed slot event st h k absent = record {
  indexed = λ other. ground (
    arith,
    h.indexed other,
    position-append other event st.events,
    position_of_holds slot st.events absent,
    same_slot_iff slot other,
    has_slot-HasOnly slot event k other,
    k,
    ap (λ s. has_slot s event),
    ap (λ s. position s st.events),
  );
  unique =
      Unique-append event st.events
        (λ other g.
          subst (λ s. holds s st.events ≡ false) (has_slot-HasOnly slot event k other g) absent)
        h.unique;
}

pop_index-IsIndexed :
    (slot : Slot) (event : Event) (st : LiveEventProjection)
    → IsIndexed st
    → slot_of event ≡ none
    → st.indexes slot ≡ none
    → IsIndexed (record { events = st.events ++ (event ∷ []); indexes = pop_index slot st.indexes })
unfolding pop_index has_slot
pop_index-IsIndexed slot event st h n i = record {
  indexed = λ other. ground (
    arith,
    h.indexed other,
    n,
    i,
    position-append other event st.events,
    same_slot_iff slot other,
    ap st.indexes,
  );
  unique = Unique-append event st.events (λ other g. ground (arith, n, g)) h.unique;
}

apply_at-Shows :
    (slot : Slot) (event : Event) (index : Option ℕ) (st : LiveEventProjection)
    → IsIndexed st
    → has_slot slot event ≡ true
    → st.indexes slot ≡ index
    → Shows (apply_at slot event index st) (place slot event st.events)
unfolding apply_at place
apply_at-Shows slot event none st h k i =
    let absent = holds_of_position slot st.events (sym (h.indexed slot) ∙ i) in
    rw absent (
      record {
        events = st.events ++ (event ∷ []);
        indexes = set_index slot (length st.events) st.indexes;
      },
      refl,
      refl,
      set_index-IsIndexed slot event st h k absent,
    )
apply_at-Shows slot event (some i) st h k e =
    let found = sym (h.indexed slot) ∙ e in
    rw (position-holds slot st.events i found) (
      with_events st (replace slot event st.events),
      ap (map_option (with_events st)) (set_at-position slot event st.events i found),
      refl,
      record {
        indexed = λ other. h.indexed other ∙ sym (position-replace slot other event st.events k);
        unique = Unique-replace slot event st.events (has_slot-HasOnly slot event k) h.unique;
      },
    )

complete_at-Shows :
    (slot : Slot) (event : Event) (index : Option ℕ) (st : LiveEventProjection)
    → IsIndexed st
    → slot_of event ≡ none
    → st.indexes slot ≡ index
    → Shows (complete_at slot event index st) (place slot event st.events)
unfolding complete_at place has_slot rebuild_indexes
complete_at-Shows slot event none st h n i =
    let absent = holds_of_position slot st.events (sym (h.indexed slot) ∙ i) in
    rw absent (
      record { events = st.events ++ (event ∷ []); indexes = pop_index slot st.indexes },
      refl,
      refl,
      pop_index-IsIndexed slot event st h n i,
    )
complete_at-Shows slot event (some i) st h n e =
    let found = sym (h.indexed slot) ∙ e in
    rw (position-holds slot st.events i found) (
      rebuild_indexes (replace slot event st.events),
      ap (map_option rebuild_indexes) (set_at-position slot event st.events i found),
      refl,
      rebuild_indexes-IsIndexed (replace slot event st.events)
          (Unique-replace slot event st.events (λ other g. ground (arith, n, g)) h.unique),
    )

pub apply-Shows :
    (event : Event) (st : LiveEventProjection)
    → IsIndexed st
    → Shows (apply event st) (replay_event event st.events)
unfolding apply replay_event target_of slot_of has_slot rebuild_indexes
apply-Shows (run_state e) st h =
    let shown = run_state e ∷ filter (λ item. not (is_run_state item)) st.events in
    (
      rebuild_indexes shown,
      refl,
      refl,
      rebuild_indexes-IsIndexed shown
          (λ slot g. ground (arith, g), Unique-filter _ st.events h.unique),
    )
apply-Shows (user_message e) st h = append_event-Shows (user_message e) st h refl
apply-Shows (turn_boundary s) st h = append_event-Shows (turn_boundary s) st h refl
apply-Shows (text_delta e) st h = apply_at-Shows _ (text_delta e) _ st h (same_slot_refl _) refl
apply-Shows (thinking_delta e) st h =
    apply_at-Shows _ (thinking_delta e) _ st h (same_slot_refl _) refl
apply-Shows (text_complete e) st h = complete_at-Shows _ (text_complete e) _ st h refl refl
apply-Shows (thinking_complete e) st h = complete_at-Shows _ (thinking_complete e) _ st h refl refl
apply-Shows (tool_call e) st h = apply_at-Shows _ (tool_call e) _ st h (same_slot_refl _) refl
apply-Shows (tool_result e) st h = apply_at-Shows _ (tool_result e) _ st h (same_slot_refl _) refl
apply-Shows (subagent_task e) st h =
    apply_at-Shows _ (subagent_task e) _ st h (same_slot_refl _) refl
apply-Shows (done s) st h = elim (Bool-cases (s.nested_call_id == "")) [
  | inl e ↦ rw e (append_event-Shows (done s) st h refl)
  | inr e ↦ rw e (st, refl, refl, h)
]
apply-Shows (failed e) st h = append_event-Shows (failed e) st h refl

pub apply_all-Shows :
    (events : List Event) (st : LiveEventProjection)
    → IsIndexed st
    → Shows (apply_all events st) (replay events st.events)
unfolding apply_all replay
apply_all-Shows [] st h = (st, refl, refl, h)
apply_all-Shows (event ∷ events) st h =
    let step = apply-Shows event st h in
    let rest = apply_all-Shows events step.0 step.3 in
    (
      rest.0,
      ap (λ r. and_then r (λ next. apply_all events next)) step.1 ∙ rest.1,
      rest.2 ∙ ap (replay events) step.2,
      rest.3,
    )

-- After any events, the projection of a running session is what the search gives: an event takes
-- the place of the one with its key or comes last, and no index is ever out of range.
pub apply_all-replay :
    (start : RunStateEvent) (events : List Event)
    → (st : LiveEventProjection) × (apply_all events (reset start) ≡ some st)
      × (st.events ≡ replay events (run_state start ∷ []))
      × Unique st.events
unfolding reset position has_slot slot_of
apply_all-replay start events =
    let shown =
      apply_all-Shows events (reset start)
        (record { indexed = λ slot. refl; unique = (λ slot g. ground (arith, g), tt) }) in
    (shown.0, shown.1, shown.2, shown.3.unique)
