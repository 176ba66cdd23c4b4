-- ===== src/Streaming/Timeline/Ordinals.antt =====
-- core/runtime/session.py (`_stamp_event`): which events have the same ordinal.
use zj_cyber_workbench.Streaming.{
  Event, user_message, turn_boundary, run_state, text_delta, thinking_delta, text_complete,
  thinking_complete, tool_call, tool_result, subagent_task, done, failed,
}
use zj_cyber_workbench.Prelude.{
  Bool-cases, Option-cases, string_eq, ◌==◌, nat_eq, ℕ, ◌+◌, ◌≤◌, String, ◌≡◌, refl, ap, ◌↔◌, inl,
  inr, Bool, true, false, Option, none, some, List, [], ◌∷◌, arith,
}
use zj_cyber_workbench.Streaming.Timeline.{
  timeline_item_key, is_control_event, with_seq, seq_of, Timeline, set_item, number_item, known_seq,
  number_event, stamp_event, stamp_events,
}

abbrev pub same_item : Option String → Option String → Bool
same_item (some a) (some b) = a == b
same_item _ _ = false

-- The ordinals that are stored are not ahead of the counter, and no two keys have the same.
pub record IsTimeline (t : Timeline) : Type 0 where
  pub bounded : (key : String) (n : ℕ) → t.item_seq key ≡ some n → n ≤ t.last_seq
  pub distinct :
      (key other : String) (n : ℕ)
      → t.item_seq key ≡ some n
      → t.item_seq other ≡ some n
      → key ≡ other

-- `n` is used up, for the item with this key if there is one.
record IsNumbered (key : Option String) (n : ℕ) (t : Timeline) : Type 0 where
  reached : n ≤ t.last_seq
  owned : (other : String) → (t.item_seq other ≡ some n) ↔ (same_item key (some other) ≡ true)

number_item-IsNumbered :
    (key : Option String) (t : Timeline)
    → IsTimeline t
    → IsNumbered key (number_item key (known_seq key t) t).0 (number_item key (known_seq key t) t).1
unfolding number_item set_item
number_item-IsNumbered none t h = record {
  reached = omega arith;
  owned = λ other. ground (arith, h.bounded other (t.last_seq + 1));
}
number_item-IsNumbered (some key) t h = elim (Option-cases (t.item_seq key)) [
  | inl e ↦ rw e (record {
    reached = omega arith;
    owned = λ other. ground (arith, h.bounded other (t.last_seq + 1), string_eq.same_iff key other);
  })
  | inr e ↦ rw e.1 (record {
    reached = h.bounded key e.0 e.1;
    owned = λ other.
        ground
          (arith, e.1, h.distinct key other e.0 e.1, string_eq.same_iff key other, ap t.item_seq);
  })
]

number_item-keeps :
    (key : Option String) (n : ℕ) (next_key : Option String) (t : Timeline)
    → IsNumbered key n t
    → IsNumbered key n (number_item next_key (known_seq next_key t) t).1
unfolding number_item set_item
number_item-keeps key n none t h = record { reached = omega (arith, h.reached); owned = h.owned }
number_item-keeps key n (some next_key) t h = elim (Option-cases (t.item_seq next_key)) [
  | inl e ↦ rw e (record {
    reached = omega (arith, h.reached);
    owned = λ other. ground (
      arith,
      e,
      h.reached,
      h.owned other,
      h.owned next_key,
      string_eq.same_iff next_key other,
      ap t.item_seq,
    );
  })
  | inr e ↦ rw e.1 h
]

number_item-IsTimeline :
    (key : Option String) (t : Timeline)
    → IsTimeline t
    → IsTimeline (number_item key (known_seq key t) t).1
unfolding number_item set_item
number_item-IsTimeline none t h = record {
  bounded = λ key n e. omega (arith, h.bounded key n e);
  distinct = h.distinct;
}
number_item-IsTimeline (some new) t h = elim (Option-cases (t.item_seq new)) [
  | inr e ↦ rw e.1 h
  | inl e ↦ rw e (record {
    bounded = λ key n g. ground (arith, g, h.bounded key n);
    distinct = λ key other n g k. ground (
      arith,
      g,
      k,
      string_eq.same_iff new key,
      string_eq.same_iff new other,
      h.bounded key n,
      h.bounded other n,
      h.distinct key other n,
    );
  })
]

stamp_event-IsTimeline :
    (show : ℕ → String) (event : Event) (t : Timeline)
    → IsTimeline t
    → IsTimeline (stamp_event show event t).1
unfolding stamp_event number_event
stamp_event-IsTimeline show event t h = elim (Bool-cases (is_control_event event)) [
  | inl e ↦ rw e h
  | inr e ↦ rw e (number_item-IsTimeline (timeline_item_key event) t h)
]

stamp_event-keeps :
    (show : ℕ → String) (key : Option String) (n : ℕ) (event : Event) (t : Timeline)
    → IsNumbered key n t
    → IsNumbered key n (stamp_event show event t).1
unfolding stamp_event number_event
stamp_event-keeps show key n event t h = elim (Bool-cases (is_control_event event)) [
  | inl e ↦ rw e h
  | inr e ↦ rw e (number_item-keeps key n (timeline_item_key event) t h)
]

stamp_events-keeps :
    (show : ℕ → String) (key : Option String) (n : ℕ) (events : List Event) (t : Timeline)
    → IsNumbered key n t
    → IsNumbered key n (stamp_events show events t)
unfolding stamp_events
stamp_events-keeps show key n [] t h = h
stamp_events-keeps show key n (event ∷ events) t h =
    stamp_events-keeps show key n events (stamp_event show event t).1
      (stamp_event-keeps show key n event t h)

stamp_events-IsTimeline :
    (show : ℕ → String) (events : List Event) (t : Timeline)
    → IsTimeline t
    → IsTimeline (stamp_events show events t)
unfolding stamp_events
stamp_events-IsTimeline show [] t h = h
stamp_events-IsTimeline show (event ∷ events) t h =
    stamp_events-IsTimeline show events (stamp_event show event t).1
      (stamp_event-IsTimeline show event t h)

seq_of-with_seq : (n : ℕ) (event : Event) → seq_of (with_seq n event) ≡ n
unfolding seq_of with_seq
seq_of-with_seq n (user_message e) = refl
seq_of-with_seq n (turn_boundary s) = refl
seq_of-with_seq n (run_state e) = refl
seq_of-with_seq n (text_delta e) = refl
seq_of-with_seq n (thinking_delta e) = refl
seq_of-with_seq n (text_complete e) = refl
seq_of-with_seq n (thinking_complete e) = refl
seq_of-with_seq n (tool_call e) = refl
seq_of-with_seq n (tool_result e) = refl
seq_of-with_seq n (subagent_task e) = refl
seq_of-with_seq n (done s) = refl
seq_of-with_seq n (failed e) = refl

-- A used ordinal is given again exactly to the item that has it.
number_item_iff :
    (key : Option String) (n : ℕ) (next_key : Option String) (t : Timeline)
    → IsNumbered key n t
    → (n ≡ (number_item next_key (known_seq next_key t) t).0) ↔ (same_item key next_key ≡ true)
unfolding number_item
number_item_iff key n none t h = (λ e. ground (arith, e, h.reached), λ e. ground (arith, e))
number_item_iff key n (some next_key) t h = elim (Option-cases (t.item_seq next_key)) [
  | inl e ↦ rw e (ground (arith, e, h.reached, h.owned next_key))
  | inr e ↦ rw e.1 (ground (arith, e.1, h.owned next_key))
]

seq_of-stamp_event :
    (show : ℕ → String) (event : Event) (t : Timeline)
    → is_control_event event ≡ false
    → seq_of (stamp_event show event t).0.0 ≡ (number_event event t).0
unfolding stamp_event
seq_of-stamp_event show event t c = rw c (seq_of-with_seq (number_event event t).0 event)

stamp_event-IsNumbered :
    (show : ℕ → String) (event : Event) (t : Timeline)
    → IsTimeline t
    → is_control_event event ≡ false
    → IsNumbered (timeline_item_key event) (number_event event t).0 (stamp_event show event t).1
unfolding stamp_event number_event
stamp_event-IsNumbered show event t h c =
    rw c (number_item-IsNumbered (timeline_item_key event) t h)

pub stamp_event-key_iff :
    (show : ℕ → String) (before between : List Event) (first second : Event) (t : Timeline)
    → IsTimeline t
    → is_control_event first ≡ false
    → is_control_event second ≡ false
    → let start = stamp_events show before t in
      let stamped = stamp_event show first start in
      let later = stamp_events show between stamped.1 in
      (seq_of stamped.0.0 ≡ seq_of (stamp_event show second later).0.0)
      ↔ (same_item (timeline_item_key first) (timeline_item_key second) ≡ true)
unfolding number_event
stamp_event-key_iff show before between first second t h c d =
    let start = stamp_events show before t in
    let later = stamp_events show between (stamp_event show first start).1 in
    let used =
      stamp_events-keeps show (timeline_item_key first) (number_event first start).0 between
        (stamp_event show first start).1
        (stamp_event-IsNumbered show first start (stamp_events-IsTimeline show before t h) c) in
    rw (seq_of-stamp_event show first start c) (
      rw (seq_of-stamp_event show second later d) (
        number_item_iff (timeline_item_key first) (number_event first start).0
          (timeline_item_key second) later used))
