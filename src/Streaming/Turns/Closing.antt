-- ===== src/Streaming/Turns/Closing.antt =====
-- core/runtime/partial_context.py with core/runtime/live_projection.py: open segments at the end of a
-- turn.
use zj_cyber_workbench.Streaming.Turns.{
  tag_nested, stream_turn, done_event, closing_events, run_turn,
}
use zj_cyber_workbench.Streaming.Live.Replay.{
  target_of, replay_event, replay, replay-append, IsIndexed, rebuild_indexes-IsIndexed,
  same_slot_refl, apply-Shows, apply_all-Shows,
}
use zj_cyber_workbench.Streaming.Live.Reference.{
  has_slot, holds, place, Unique, holds-append, holds-place, holds-place_end,
}
use zj_cyber_workbench.Streaming.Live.{
  Slot, segment_slot, tool_slot, tool_result_slot, subagent_slot, same_slot, LiveEventProjection,
  slot_of, rebuild_indexes, is_run_state, apply_all,
}
use zj_cyber_workbench.Prelude.{
  Bool-cases, and_then, string_eq, ◌==◌, nat_eq, not, ◌&&◌, ◌||◌, filter, ℕ, String, ◌≡◌, refl, sym,
  ap, ◌∙◌, subst, inl, inr, Bool, true, false, none, some, List, [], ◌∷◌, ◌++◌, map, arith,
}
use zj_cyber_workbench.Streaming.{
  Event, user_message, turn_boundary, run_state, text_delta, thinking_delta, text_complete,
  thinking_complete, tool_call, tool_result, subagent_task, done, failed,
}
use zj_cyber_workbench.Streaming.Buffers.{
  DeltaBuffer, add_delta, complete_buffer, update_buffer, track_delta, completion,
  incomplete_segment_events,
}
use zj_cyber_workbench.Streaming.Buffers.Tracking.{
  kind_of, is_open, has_open, continues, never, is_regular, AllRegular, is_segment,
  has_open-add_delta, has_open-complete_buffer,
}
use mathlib.Core.List.{map-append}

holds-kept :
    (slot : Slot) (events : List Event)
    → holds slot (filter (λ item. not (is_run_state item)) events) ≡ holds slot events
unfolding holds filter has_slot slot_of
holds-kept slot [] = refl
holds-kept slot (e ∷ events) = ground (arith, holds-kept slot events)

replay_event-Unique :
    (event : Event) (events : List Event) → Unique events → Unique (replay_event event events)
unfolding rebuild_indexes
replay_event-Unique event events u =
    let step = apply-Shows event (rebuild_indexes events) (rebuild_indexes-IsIndexed events u) in
    subst Unique step.2 step.3.unique

module _ (nested_for nested_call_id : String) where
  abbrev pub segment : Bool → String → Slot
  segment k id = segment_slot (kind_of k) id nested_for nested_call_id

  same_slot-segment :
      (k : Bool) (id : String) (j : Bool) (other : String)
      → same_slot (segment k id) (segment j other) ≡ is_segment k id j other
  unfolding same_slot
  same_slot-segment true id true other = ground (
    arith,
    string_eq.same_iff nested_for nested_for,
    string_eq.same_iff nested_call_id nested_call_id,
  )
  same_slot-segment true id false other = ground (
    arith,
    string_eq.same_iff nested_for nested_for,
    string_eq.same_iff nested_call_id nested_call_id,
  )
  same_slot-segment false id true other = ground (
    arith,
    string_eq.same_iff nested_for nested_for,
    string_eq.same_iff nested_call_id nested_call_id,
  )
  same_slot-segment false id false other = ground (
    arith,
    string_eq.same_iff nested_for nested_for,
    string_eq.same_iff nested_call_id nested_call_id,
  )

  -- The segments that the buffers have open are those that are shown as open.
  abbrev pub Agrees : List DeltaBuffer → List Event → Type 0
  Agrees buffers shown =
      (k : Bool) (id : String) → holds (segment k id) shown ≡ has_open k id buffers

  Agrees-delta :
      (k : Bool) (id delta : String) (event : Event) (buffers : List DeltaBuffer)
      (shown : List Event)
      → Agrees buffers shown
      → has_slot (segment k id) event ≡ true
      → (delta == "") ≡ false
      → continues (λ b. b.complete) k id buffers ≡ true
      → Agrees (update_buffer k id (add_delta delta) buffers) (place (segment k id) event shown)
  Agrees-delta k id delta event buffers shown h e n c j other = ground (
    arith,
    h j other,
    has_open-add_delta k id delta j other buffers n c,
    holds-place (segment k id) (segment j other) event shown e,
    same_slot-segment k id j other,
  )

  Agrees-complete :
      (k : Bool) (id full_text : String) (event : Event) (buffers : List DeltaBuffer)
      (shown : List Event)
      → Agrees buffers shown
      → slot_of event ≡ none
      → Unique shown
      → continues never k id buffers ≡ true
      → Agrees
          (update_buffer k id (complete_buffer full_text) buffers)
          (place (segment k id) event shown)
  Agrees-complete k id full_text event buffers shown h e u c j other = ground (
    arith,
    h j other,
    has_open-complete_buffer k id full_text j other buffers c,
    holds-place_end (segment k id) (segment j other) event shown e u,
    same_slot-segment k id j other,
  )

  -- An event whose key is none of a segment leaves the open segments.
  holds-place_other :
      (k : Bool) (id : String) (slot : Slot) (event : Event) (shown : List Event)
      → has_slot slot event ≡ true
      → same_slot slot (segment k id) ≡ false
      → holds (segment k id) (place slot event shown) ≡ holds (segment k id) shown
  holds-place_other k id slot event shown h n =
      ground (arith, n, holds-place slot (segment k id) event shown h)

  holds_last :
      (slot : Slot) (event : Event) (shown : List Event)
      → slot_of event ≡ none
      → holds slot (shown ++ (event ∷ [])) ≡ holds slot shown
  unfolding has_slot
  holds_last slot event shown n = ground (arith, n, holds-append slot event shown)

  replay_event-Agrees :
      (event : Event) (buffers : List DeltaBuffer) (shown : List Event)
      → Unique shown
      → is_regular buffers event ≡ true
      → Agrees buffers shown
      → Agrees
          (track_delta buffers event)
          (replay_event (tag_nested nested_for nested_call_id event) shown)
  unfolding replay_event target_of slot_of has_slot tag_nested track_delta is_regular holds
      same_slot
  replay_event-Agrees (text_delta e) buffers shown u r h k id =
      Agrees-delta false e.segment_id e.delta _ buffers shown h
        (same_slot_refl (segment false e.segment_id)) (ground (arith, r)) (ground (arith, r)) k id
  replay_event-Agrees (thinking_delta e) buffers shown u r h k id =
      Agrees-delta true e.segment_id e.delta _ buffers shown h
        (same_slot_refl (segment true e.segment_id)) (ground (arith, r)) (ground (arith, r)) k id
  replay_event-Agrees (text_complete e) buffers shown u r h k id =
      Agrees-complete false e.segment_id e.full_text _ buffers shown h refl u r k id
  replay_event-Agrees (thinking_complete e) buffers shown u r h k id =
      Agrees-complete true e.segment_id e.full_text _ buffers shown h refl u r k id
  replay_event-Agrees (tool_call e) buffers shown u r h k id =
      holds-place_other k id (tool_slot e.call_id nested_for nested_call_id) _ shown
        (same_slot_refl (tool_slot e.call_id nested_for nested_call_id)) refl
      ∙ h k id
  replay_event-Agrees (tool_result e) buffers shown u r h k id =
      holds-place_other k id (tool_result_slot e.call_id nested_for nested_call_id) _ shown
        (same_slot_refl (tool_result_slot e.call_id nested_for nested_call_id)) refl
      ∙ h k id
  replay_event-Agrees (subagent_task e) buffers shown u r h k id =
      holds-place_other k id (subagent_slot e.run_id) _ shown
        (same_slot_refl (subagent_slot e.run_id)) refl
      ∙ h k id
  replay_event-Agrees (user_message e) buffers shown u r h k id =
      holds_last (segment k id) _ shown refl ∙ h k id
  replay_event-Agrees (turn_boundary s) buffers shown u r h k id =
      holds_last (segment k id) _ shown refl ∙ h k id
  replay_event-Agrees (failed e) buffers shown u r h k id =
      holds_last (segment k id) _ shown refl ∙ h k id
  replay_event-Agrees (run_state e) buffers shown u r h k id =
      holds-kept (segment k id) shown ∙ h k id
  replay_event-Agrees (done s) buffers shown u r h k id = elim (Bool-cases (nested_call_id == "")) [
    | inl b ↦ rw b (holds_last (segment k id) _ shown refl ∙ h k id)
    | inr b ↦ rw b (h k id)
  ]

  -- A turn's stream is shown, and its open segments are in its buffers.
  stream_turn-Agrees :
      (events : List Event) (buffers : List DeltaBuffer) (live : LiveEventProjection)
      → IsIndexed live
      → AllRegular buffers events
      → Agrees buffers live.events
      → (end : List DeltaBuffer × LiveEventProjection) × (stream_turn nested_for nested_call_id
            events buffers live
          ≡ some end)
        × IsIndexed end.1
        × Agrees end.0 end.1.events
  unfolding stream_turn
  stream_turn-Agrees [] buffers live i r h = ((buffers, live), refl, i, h)
  stream_turn-Agrees (event ∷ events) buffers live i r h =
      let step = apply-Shows (tag_nested nested_for nested_call_id event) live i in
      let rest = stream_turn-Agrees events (track_delta buffers event) step.0 step.3 r.1 (
        subst (Agrees (track_delta buffers event)) (sym step.2)
          (replay_event-Agrees event buffers live.events i.unique r.0 h)) in
      (
        rest.0,
        ap
              (λ o. and_then o (λ next.
                stream_turn nested_for nested_call_id events (track_delta buffers event) next))
              step.1
            ∙ rest.1,
        rest.2,
        rest.3,
      )

  -- Some buffer of the segment is of this kind and open.
  unfoldable any_open : Bool → String → List DeltaBuffer → Bool
  any_open k id [] = false
  any_open k id (b ∷ buffers) =
      (is_open b && is_segment b.is_thinking b.segment_id k id) || any_open k id buffers

  any_open_of_has_open :
      (k : Bool) (id : String) (buffers : List DeltaBuffer)
      → has_open k id buffers ≡ true
      → any_open k id buffers ≡ true
  unfolding any_open has_open
  any_open_of_has_open k id [] h = ground (arith, h)
  any_open_of_has_open k id (b ∷ buffers) h = ground (arith, h, any_open_of_has_open k id buffers)

  holds-completion :
      (now : ℕ) (agent_name : String) (b : DeltaBuffer) (shown : List Event) (k : Bool)
      (id : String)
      → Unique shown
      → holds
          (segment k id)
          (replay_event (tag_nested nested_for nested_call_id (completion now agent_name b)) shown)
        ≡ (not (is_segment b.is_thinking b.segment_id k id) && holds (segment k id) shown)
  unfolding replay_event target_of slot_of tag_nested
  holds-completion now agent_name b shown k id u = elim (Bool-cases b.is_thinking) [
    | inl e ↦ rw e (
        holds-place_end (segment true b.segment_id) (segment k id) _ shown refl u
        ∙ ap (λ x. not x && holds (segment k id) shown) (same_slot-segment true b.segment_id k id))
    | inr e ↦ rw e (
        holds-place_end (segment false b.segment_id) (segment k id) _ shown refl u
        ∙ ap (λ x. not x && holds (segment k id) shown) (same_slot-segment false b.segment_id k id))
  ]

  -- The completions close each segment that has an open buffer.
  replay-completions :
      (now : ℕ) (agent_name : String) (buffers : List DeltaBuffer) (shown : List Event) (k : Bool)
      (id : String)
      → Unique shown
      → holds (segment k id) (
          replay
            (map
              (tag_nested nested_for nested_call_id)
              (incomplete_segment_events now agent_name buffers))
            shown)
        ≡ (not (any_open k id buffers) && holds (segment k id) shown)
  unfolding replay incomplete_segment_events any_open
  replay-completions now agent_name [] shown k id u = refl
  replay-completions now agent_name (b ∷ buffers) shown k id u =
      let closed = tag_nested nested_for nested_call_id (completion now agent_name b) in
      elim (Bool-cases (b.content == "" || b.complete)) [
        | inl e ↦ rw e (ground (arith, e, replay-completions now agent_name buffers shown k id u))
        | inr e ↦ rw e (
            replay-completions now agent_name buffers (replay_event closed shown) k id
              (replay_event-Unique closed shown u)
            ∙ ground (arith, e, holds-completion now agent_name b shown k id u))
      ]

  holds-done :
      (now : ℕ) (agent_name : String) (shown : List Event) (slot : Slot)
      → holds slot (
          replay_event
            (tag_nested nested_for nested_call_id
              (done_event nested_for nested_call_id now agent_name))
            shown)
        ≡ holds slot shown
  unfolding replay_event target_of slot_of tag_nested
  holds-done now agent_name shown slot = elim (Bool-cases (nested_call_id == "")) [
    | inl b ↦ rw b (holds_last slot _ shown refl)
    | inr b ↦ rw b refl
  ]

  closing_events-closed :
      (now : ℕ) (agent_name : String) (buffers : List DeltaBuffer) (shown : List Event) (k : Bool)
      (id : String)
      → Unique shown
      → Agrees buffers shown
      → holds (segment k id) (
          replay
            (map
              (tag_nested nested_for nested_call_id)
              (closing_events nested_for nested_call_id now agent_name buffers))
            shown)
        ≡ false
  unfolding closing_events replay
  closing_events-closed now agent_name buffers shown k id u h =
      let completions = incomplete_segment_events now agent_name buffers in
      let tag = tag_nested nested_for nested_call_id in
      let last = done_event nested_for nested_call_id now agent_name in
      ap (λ l. holds (segment k id) (replay l shown)) (map-append tag completions (last ∷ []))
      ∙ ap (holds (segment k id)) (replay-append (map tag completions) (tag last ∷ []) shown)
      ∙ holds-done now agent_name (replay (map tag completions) shown) (segment k id)
      ∙ ground (
        arith,
        h k id,
        any_open_of_has_open k id buffers,
        replay-completions now agent_name buffers shown k id u,
      )

  -- A turn that starts without open segments in its scope ends without, whether its stream ended or
  -- was interrupted, and no index is ever out of range. Its deltas are not empty, none follows the
  -- end of its segment, and a segment is of one kind.
  pub run_turn-closed :
      (now : ℕ) (agent_name : String) (events : List Event) (live : LiveEventProjection)
      → IsIndexed live
      → ((k : Bool) (id : String) → holds (segment k id) live.events ≡ false)
      → AllRegular [] events
      → (end : LiveEventProjection) × (run_turn nested_for nested_call_id now agent_name events live
          ≡ some end)
        × ((k : Bool) (id : String) → holds (segment k id) end.events ≡ false)
  unfolding run_turn has_open
  run_turn-closed now agent_name events live i n r =
      let turn = stream_turn-Agrees events [] live i r n in
      let closing =
        map (tag_nested nested_for nested_call_id)
          (closing_events nested_for nested_call_id now agent_name turn.0.0) in
      let closed = apply_all-Shows closing turn.0.1 turn.2 in
      (
        closed.0,
        ap
              (λ o. and_then o (λ end.
                apply_all
                  (map (tag_nested nested_for nested_call_id)
                    (closing_events nested_for nested_call_id now agent_name end.0))
                  end.1))
              turn.1
            ∙ closed.1,
        λ k id.
            ap (holds (segment k id)) closed.2
            ∙ closing_events-closed now agent_name turn.0.0 turn.0.1.events k id turn.2.unique
                turn.3,
      )
