-- ===== src/Streaming/Live/Reconnect.antt =====
-- core/runtime/live_projection.py: what a snapshot stands for.
use zj_cyber_workbench.Prelude.{
  Bool-cases, Option-cases, string_eq, nat_eq, not, ◌&&◌, ◌||◌, All, filter, All-append, All-filter,
  ◌≡◌, refl, sym, ap, ◌∙◌, subst, inl, inr, Bool, true, false, none, some, List, [], ◌∷◌, ◌++◌,
  arith,
}
use mathlib.Core.List.{append_assoc, append-nil}
use zj_cyber_workbench.Streaming.{RunStateEvent, Event, run_state}
use zj_cyber_workbench.Streaming.Live.{
  Slot, LiveEventProjection, slot_of, reset, snapshot, is_run_state, apply_all,
}
use zj_cyber_workbench.Streaming.Live.Reference.{
  slot_is, has_slot, holds, position, replace, place, slot_is_sound, some_inj,
}
use zj_cyber_workbench.Streaming.Live.Replay.{
  target_of, is_nested_done, replay_event, replay, replay-append, same_slot_refl, apply_all-Shows,
}

unfoldable pub aims : Slot → Event → Bool
aims slot event = slot_is slot (target_of event)

unfoldable pub any_aims : Slot → List Event → Bool
any_aims slot [] = false
any_aims slot (e ∷ events) = aims slot e || any_aims slot events

-- Behind an event with a key, no event would take its place.
abbrev pub Settled : List Event → Type 0
Settled [] = Unit
Settled (e ∷ events) =
    ((slot : Slot) → has_slot slot e ≡ true → any_aims slot events ≡ false) × Settled events

-- Neither the state of the run nor the end of a nested call.
abbrev pub is_content : Event → Bool
is_content event = not (is_run_state event) && not (is_nested_done event)

abbrev pub AllContent : List Event → Type 0
AllContent events = All (λ e. is_content e ≡ true) events

any_aims-append :
    (slot : Slot) (events : List Event) (event : Event)
    → any_aims slot (events ++ (event ∷ [])) ≡ (any_aims slot events || aims slot event)
unfolding any_aims
any_aims-append slot [] event = ground arith
any_aims-append slot (e ∷ events) event = ground (arith, any_aims-append slot events event)

aims_of_has : (slot : Slot) (event : Event) → has_slot slot event ≡ true → aims slot event ≡ true
unfolding aims target_of has_slot slot_of
aims_of_has slot event h = ground (arith, h)

Settled-append :
    (event : Event) (events : List Event)
    → ((slot : Slot) → aims slot event ≡ true → holds slot events ≡ false)
    → Settled events
    → Settled (events ++ (event ∷ []))
unfolding holds any_aims
Settled-append event [] k u = (λ slot h. refl, tt)
Settled-append event (e ∷ events) k u = (
  λ slot h. ground (arith, any_aims-append slot events event, u.0 slot, k slot, h),
  Settled-append event events (λ slot h. ground (arith, k slot h)) u.1,
)

-- An event that aims only at the key that it replaces.
abbrev AimsOnly : Slot → Event → Type 0
AimsOnly slot event = (other : Slot) → aims other event ≡ true → slot ≡ other

any_aims-replace :
    (slot other : Slot) (event : Event) (events : List Event)
    → AimsOnly slot event
    → any_aims other events ≡ false
    → any_aims other (replace slot event events) ≡ false
unfolding any_aims replace
any_aims-replace slot other event [] k h = refl
any_aims-replace slot other event (e ∷ events) k h = ground (
  arith,
  h,
  k other,
  any_aims-replace slot other event events k,
  ap (λ s. has_slot s e),
  aims_of_has other e,
)

Settled-replace :
    (slot : Slot) (event : Event) (events : List Event)
    → AimsOnly slot event
    → Settled events
    → Settled (replace slot event events)
unfolding replace
Settled-replace slot event [] k u = tt
Settled-replace slot event (e ∷ events) k u = elim (Bool-cases (has_slot slot e)) [
  | inl h ↦ rw h (
    λ other g.
        subst (λ s. any_aims s events ≡ false) (k other (aims_of_has other event g)) (u.0 slot h),
    u.1,
  )
  | inr h ↦ rw h (
    λ other g. any_aims-replace slot other event events k (u.0 other g),
    Settled-replace slot event events k u.1,
  )
]

any_aims-filter :
    (p : Event → Bool) (slot : Slot) (events : List Event)
    → any_aims slot events ≡ false
    → any_aims slot (filter p events) ≡ false
unfolding any_aims filter
any_aims-filter p slot [] h = refl
any_aims-filter p slot (e ∷ events) h = ground (arith, h, any_aims-filter p slot events)

Settled-filter :
    (p : Event → Bool) (events : List Event) → Settled events → Settled (filter p events)
unfolding filter
Settled-filter p [] u = tt
Settled-filter p (e ∷ events) u = elim (Bool-cases (p e)) [
  | inl h ↦ rw h (λ slot g. any_aims-filter p slot events (u.0 slot g), Settled-filter p events u.1)
  | inr h ↦ rw h (Settled-filter p events u.1)
]

target_of-AimsOnly :
    (slot : Slot) (event : Event) → target_of event ≡ some slot → AimsOnly slot event
unfolding aims
target_of-AimsOnly slot event h other g =
    some_inj slot other (sym h ∙ slot_is_sound other (target_of event) g)

is_content_of_target :
    (slot : Slot) (event : Event) → target_of event ≡ some slot → is_content event ≡ true
unfolding target_of slot_of
is_content_of_target slot event h = ground (arith, h)

no_slot_of_run_state :
    (slot : Slot) (event : Event) → is_run_state event ≡ true → has_slot slot event ≡ false
unfolding has_slot slot_of
no_slot_of_run_state slot event h = ground (arith, h)

no_target_of_run_state : (event : Event) → is_run_state event ≡ true → target_of event ≡ none
unfolding target_of slot_of
no_target_of_run_state event h = ground (arith, h)

Settled-place :
    (slot : Slot) (event : Event) (events : List Event)
    → AimsOnly slot event
    → Settled events
    → Settled (place slot event events)
unfolding place
Settled-place slot event events k u = elim (Bool-cases (holds slot events)) [
  | inl h ↦ rw h (Settled-replace slot event events k u)
  | inr h ↦
      rw h (
        Settled-append event events (λ other g. subst (λ s. holds s events ≡ false) (k other g) h)
          u)
]

AllContent-replace :
    (slot : Slot) (event : Event) (events : List Event)
    → is_content event ≡ true
    → AllContent events
    → AllContent (replace slot event events)
unfolding replace
AllContent-replace slot event [] c h = tt
AllContent-replace slot event (e ∷ events) c h = elim (Bool-cases (has_slot slot e)) [
  | inl g ↦ rw g (c, h.1)
  | inr g ↦ rw g (h.0, AllContent-replace slot event events c h.1)
]

AllContent-place :
    (slot : Slot) (event : Event) (events : List Event)
    → is_content event ≡ true
    → AllContent events
    → AllContent (place slot event events)
unfolding place
AllContent-place slot event events c h = elim (Bool-cases (holds slot events)) [
  | inl g ↦ rw g (AllContent-replace slot event events c h)
  | inr g ↦ rw g (All-append _ events (event ∷ []) h (c, tt))
]

-- What is shown: the state of the run, and then contents.
pub record IsShown (shown : List Event) : Type 0 where
  pub head : Event
  pub contents : List Event
  pub starts : shown ≡ head ∷ contents
  pub state : is_run_state head ≡ true
  pub settled : Settled contents
  pub content : AllContent contents

place_behind :
    (slot : Slot) (event head : Event) (contents : List Event)
    → has_slot slot head ≡ false
    → place slot event (head ∷ contents) ≡ head ∷ place slot event contents
unfolding place holds replace
place_behind slot event head contents h = ground (arith, h)

replay_event-IsShown :
    (event : Event) (shown : List Event) → IsShown shown → IsShown (replay_event event shown)
unfolding replay_event filter aims
replay_event-IsShown event shown h = elim (Option-cases (target_of event)) [
  | inr t ↦ rw t.1 (record {
    head = h.head;
    contents = place t.0 event h.contents;
    starts =
        ap (place t.0 event) h.starts
        ∙ place_behind t.0 event h.head h.contents (no_slot_of_run_state t.0 h.head h.state);
    state = h.state;
    settled = Settled-place t.0 event h.contents (target_of-AimsOnly t.0 event t.1) h.settled;
    content = AllContent-place t.0 event h.contents (is_content_of_target t.0 event t.1) h.content;
  })
  | inl n ↦ elim (Bool-cases (is_run_state event)) [
    | inl e ↦ rw n (
        rw e (record {
          head = event;
          contents = filter (λ item. not (is_run_state item)) h.contents;
          starts = ground (arith, h.starts, h.state);
          state = e;
          settled = Settled-filter _ h.contents h.settled;
          content = All-filter _ _ h.contents h.content;
        }))
    | inr e ↦ elim (Bool-cases (is_nested_done event)) [
      | inl d ↦ rw n (rw e (rw d h))
      | inr d ↦ rw n (
          rw e (
            rw d (record {
              head = h.head;
              contents = h.contents ++ (event ∷ []);
              starts = ap (λ l. l ++ (event ∷ [])) h.starts;
              state = h.state;
              settled = Settled-append event h.contents (λ slot g. ground (arith, n, g)) h.settled;
              content = All-append _ h.contents (event ∷ []) h.content (ground (arith, e, d), tt);
            })))
    ]
  ]
]

replay-IsShown : (events shown : List Event) → IsShown shown → IsShown (replay events shown)
unfolding replay
replay-IsShown [] shown h = h
replay-IsShown (e ∷ events) shown h =
    replay-IsShown events (replay_event e shown) (replay_event-IsShown e shown h)

any_aims-middle :
    (slot : Slot) (before : List Event) (event : Event) (after : List Event)
    → aims slot event ≡ true
    → any_aims slot (before ++ (event ∷ after)) ≡ true
unfolding any_aims
any_aims-middle slot [] event after h = ground (arith, h)
any_aims-middle slot (e ∷ before) event after h =
    ground (arith, any_aims-middle slot before event after h)

holds_before :
    (slot : Slot) (before : List Event) (event : Event) (after : List Event)
    → Settled (before ++ (event ∷ after))
    → aims slot event ≡ true
    → holds slot before ≡ false
unfolding holds
holds_before slot [] event after u h = refl
holds_before slot (e ∷ before) event after u h = ground (
  arith,
  u.0 slot,
  any_aims-middle slot before event after h,
  holds_before slot before event after u.1 h,
)

-- The next content comes last.
replay_event-next :
    (before : List Event) (event : Event) (after : List Event)
    → is_content event ≡ true
    → Settled (before ++ (event ∷ after))
    → replay_event event before ≡ before ++ (event ∷ [])
unfolding replay_event place aims
replay_event-next before event after c u = elim (Option-cases (target_of event)) [
  | inr t ↦
      rw t.1 (
        rw (holds_before t.0 before event after u (ap (slot_is t.0) t.1 ∙ same_slot_refl t.0)) refl)
  | inl n ↦ rw n (ground (arith, c))
]

replay-contents :
    (after before : List Event)
    → AllContent after
    → Settled (before ++ after)
    → replay after before ≡ before ++ after
unfolding replay
replay-contents [] before c u = sym (append-nil before)
replay-contents (e ∷ after) before c u =
    ap (replay after) (replay_event-next before e after c.0 u)
    ∙ replay-contents after (before ++ (e ∷ [])) c.1
        (subst Settled (sym (append_assoc before (e ∷ []) after)) u)
    ∙ append_assoc before (e ∷ []) after

replay-again : (shown : List Event) → IsShown shown → replay shown [] ≡ shown
unfolding replay replay_event filter
replay-again shown h =
    ap (λ l. replay l []) h.starts
    ∙ ap (replay h.contents) (rw (no_target_of_run_state h.head h.state) (rw h.state refl))
    ∙ replay-contents h.contents (h.head ∷ []) h.content
        ((λ slot g. ground (arith, g, no_slot_of_run_state slot h.head h.state)), h.settled)
    ∙ sym h.starts

-- The snapshot that is taken after some events of a run stands for them: the reference, applied to
-- no events but those of the snapshot and then whatever follows, gives the events that the
-- projection has after all of them.
pub snapshot-replay :
    (start : RunStateEvent) (before after : List Event)
    → (st : LiveEventProjection) × (later : LiveEventProjection) × (apply_all before (reset start)
        ≡ some st)
      × (apply_all after st ≡ some later)
      × (replay (snapshot none st ++ after) [] ≡ later.events)
unfolding reset position has_slot slot_of snapshot
snapshot-replay start before after =
    let shown =
      apply_all-Shows before (reset start)
        (record { indexed = λ slot. refl; unique = (λ slot g. ground (arith, g), tt) }) in
    let later = apply_all-Shows after shown.0 shown.3 in
    let first : IsShown (run_state start ∷ []) = record {
      head = run_state start;
      contents = [];
      starts = refl;
      state = refl;
      settled = tt;
      content = tt;
    } in
    (
      shown.0,
      later.0,
      shown.1,
      later.1,
      replay-append shown.0.events after []
          ∙ ap (replay after) (
              replay-again shown.0.events
                (subst IsShown (sym shown.2) (replay-IsShown before (run_state start ∷ []) first)))
          ∙ sym later.2,
    )
