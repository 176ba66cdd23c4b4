-- ===== src/Streaming/Live/Reference.antt =====
-- core/runtime/live_projection.py: the same projection by a search of the events, with the lemmas on
-- the search.
use zj_cyber_workbench.Prelude.{
  if◌then◌else◌, Bool-cases, string_eq, nat_eq, not, ◌&&◌, ◌||◌, length, filter, ℕ, zero, suc, ◌+◌,
  ◌≡◌, refl, sym, ap, ◌∙◌, subst, ◌↔◌, inl, inr, Bool, true, false, Option, none, some, map_option,
  List, [], ◌∷◌, ◌++◌, arith,
}
use zj_cyber_workbench.Streaming.{Event}
use zj_cyber_workbench.Streaming.Live.{
  Slot, segment_slot, tool_slot, tool_result_slot, subagent_slot, same_slot, set_index, set_at,
  slot_of, set_slot, index_from,
}

pub same_slot_iff : (a b : Slot) → (same_slot a b ≡ true) ↔ (a ≡ b)
unfolding same_slot
same_slot_iff (segment_slot a b c d) (segment_slot e f g h) = ground (
  arith,
  string_eq.same_iff a e,
  string_eq.same_iff b f,
  string_eq.same_iff c g,
  string_eq.same_iff d h,
)
same_slot_iff (tool_slot a b c) (tool_slot e f g) =
    ground (arith, string_eq.same_iff a e, string_eq.same_iff b f, string_eq.same_iff c g)
same_slot_iff (tool_result_slot a b c) (tool_result_slot e f g) =
    ground (arith, string_eq.same_iff a e, string_eq.same_iff b f, string_eq.same_iff c g)
same_slot_iff (subagent_slot a) (subagent_slot e) = ground (arith, string_eq.same_iff a e)
same_slot_iff (segment_slot a b c d) (tool_slot e f g) = ground arith
same_slot_iff (segment_slot a b c d) (tool_result_slot e f g) = ground arith
same_slot_iff (segment_slot a b c d) (subagent_slot e) = ground arith
same_slot_iff (tool_slot a b c) (segment_slot e f g h) = ground arith
same_slot_iff (tool_slot a b c) (tool_result_slot e f g) = ground arith
same_slot_iff (tool_slot a b c) (subagent_slot e) = ground arith
same_slot_iff (tool_result_slot a b c) (segment_slot e f g h) = ground arith
same_slot_iff (tool_result_slot a b c) (tool_slot e f g) = ground arith
same_slot_iff (tool_result_slot a b c) (subagent_slot e) = ground arith
same_slot_iff (subagent_slot a) (segment_slot e f g h) = ground arith
same_slot_iff (subagent_slot a) (tool_slot e f g) = ground arith
same_slot_iff (subagent_slot a) (tool_result_slot e f g) = ground arith

abbrev pub slot_is : Slot → Option Slot → Bool
slot_is slot none = false
slot_is slot (some s) = same_slot slot s

unfoldable pub has_slot : Slot → Event → Bool
has_slot slot event = slot_is slot (slot_of event)

unfoldable pub holds : Slot → List Event → Bool
holds slot [] = false
holds slot (e ∷ events) = has_slot slot e || holds slot events

unfoldable pub position : Slot → List Event → Option ℕ
position slot [] = none
position slot (e ∷ events) =
    let rest = position slot events in if has_slot slot e then some 0 else map_option suc rest

-- The first event with the key gives way to `event`.
unfoldable pub replace : Slot → Event → List Event → List Event
replace slot event [] = []
replace slot event (e ∷ events) =
    let rest = replace slot event events in if has_slot slot e then event ∷ events else e ∷ rest

-- An event takes the place of the one with its key, or comes last.
unfoldable pub place : Slot → Event → List Event → List Event
place slot event events =
    if holds slot events then replace slot event events else events ++ (event ∷ [])

-- One event for each key.
abbrev pub Unique : List Event → Type 0
Unique [] = Unit
Unique (e ∷ events) =
    ((slot : Slot) → has_slot slot e ≡ true → holds slot events ≡ false) × Unique events

-- Whatever key `event` has is `slot`.
abbrev pub HasOnly : Slot → Event → Type 0
HasOnly slot event = (other : Slot) → has_slot other event ≡ true → slot ≡ other

pub position_of_holds :
    (slot : Slot) (events : List Event) → holds slot events ≡ false → position slot events ≡ none
unfolding holds position
position_of_holds slot [] h = refl
position_of_holds slot (e ∷ events) h = ground (arith, h, position_of_holds slot events)

pub holds_of_position :
    (slot : Slot) (events : List Event) → position slot events ≡ none → holds slot events ≡ false
unfolding holds position
holds_of_position slot [] h = refl
holds_of_position slot (e ∷ events) h = ground (arith, h, holds_of_position slot events)

pub position-holds :
    (slot : Slot) (events : List Event) (i : ℕ)
    → position slot events ≡ some i
    → holds slot events ≡ true
position-holds slot events i h = elim (Bool-cases (holds slot events)) [
  | inl e ↦ e
  | inr e ↦ ground (arith, h, position_of_holds slot events e)
]

pub set_at-position :
    (slot : Slot) (event : Event) (events : List Event) (i : ℕ)
    → position slot events ≡ some i
    → set_at i event events ≡ some (replace slot event events)
unfolding set_at position replace
set_at-position slot event [] i h = ground (arith, h)
set_at-position slot event (e ∷ events) zero h = ground (arith, h)
set_at-position slot event (e ∷ events) (suc i) h =
    ground (arith, h, set_at-position slot event events i)

pub slot_is_sound : (slot : Slot) (key : Option Slot) → slot_is slot key ≡ true → key ≡ some slot
slot_is_sound slot none h = ground (arith, h)
slot_is_sound slot (some s) h = ap some (sym ((same_slot_iff slot s).0 h))

pub slot_of-has :
    (slot : Slot) (event : Event) → has_slot slot event ≡ true → slot_of event ≡ some slot
unfolding has_slot
slot_of-has slot event h = slot_is_sound slot (slot_of event) h

pub same_key :
    (slot other : Slot) (a b : Event)
    → has_slot slot a ≡ true
    → has_slot slot b ≡ true
    → has_slot other a ≡ has_slot other b
unfolding has_slot
same_key slot other a b h k = ap (slot_is other) (slot_of-has slot a h ∙ sym (slot_of-has slot b k))

pub some_inj : (a b : Slot) → some a ≡ some b → a ≡ b
some_inj a b h = cc

-- An event has one key at most.
pub has_slot-HasOnly :
    (slot : Slot) (event : Event) → has_slot slot event ≡ true → HasOnly slot event
has_slot-HasOnly slot event h other k =
    some_inj slot other (sym (slot_of-has slot event h) ∙ slot_of-has other event k)

pub position-replace :
    (slot other : Slot) (event : Event) (events : List Event)
    → has_slot slot event ≡ true
    → position other (replace slot event events) ≡ position other events
unfolding position replace
position-replace slot other event [] h = refl
position-replace slot other event (e ∷ events) h =
    ground (arith, h, same_key slot other event e h, position-replace slot other event events h)

holds-replace :
    (slot other : Slot) (event : Event) (events : List Event)
    → HasOnly slot event
    → holds other events ≡ false
    → holds other (replace slot event events) ≡ false
unfolding holds replace
holds-replace slot other event [] k h = refl
holds-replace slot other event (e ∷ events) k h =
    ground (arith, h, k other, holds-replace slot other event events k, ap (λ s. has_slot s e))

pub Unique-replace :
    (slot : Slot) (event : Event) (events : List Event)
    → HasOnly slot event
    → Unique events
    → Unique (replace slot event events)
unfolding replace
Unique-replace slot event [] k u = tt
Unique-replace slot event (e ∷ events) k u = elim (Bool-cases (has_slot slot e)) [
  | inl h ↦ rw h (λ other g. subst (λ s. holds s events ≡ false) (k other g) (u.0 slot h), u.1)
  | inr h ↦ rw h (
    λ other g. holds-replace slot other event events k (u.0 other g),
    Unique-replace slot event events k u.1,
  )
]

pub holds-append :
    (slot : Slot) (event : Event) (events : List Event)
    → holds slot (events ++ (event ∷ [])) ≡ (holds slot events || has_slot slot event)
unfolding holds
holds-append slot event [] = ground arith
holds-append slot event (e ∷ events) = ground (arith, holds-append slot event events)

pub Unique-append :
    (event : Event) (events : List Event)
    → ((slot : Slot) → has_slot slot event ≡ true → holds slot events ≡ false)
    → Unique events
    → Unique (events ++ (event ∷ []))
unfolding holds
Unique-append event [] k u = (λ slot h. refl, tt)
Unique-append event (e ∷ events) k u = (
  λ slot h. ground (arith, holds-append slot event events, u.0 slot h, k slot, h),
  Unique-append event events (λ slot h. ground (arith, k slot h)) u.1,
)

holds-filter :
    (p : Event → Bool) (slot : Slot) (events : List Event)
    → holds slot events ≡ false
    → holds slot (filter p events) ≡ false
unfolding holds filter
holds-filter p slot [] h = refl
holds-filter p slot (e ∷ events) h = ground (arith, h, holds-filter p slot events)

pub Unique-filter :
    (p : Event → Bool) (events : List Event) → Unique events → Unique (filter p events)
unfolding filter
Unique-filter p [] u = tt
Unique-filter p (e ∷ events) u = elim (Bool-cases (p e)) [
  | inl h ↦ rw h (λ slot g. holds-filter p slot events (u.0 slot g), Unique-filter p events u.1)
  | inr h ↦ rw h (Unique-filter p events u.1)
]

abbrev pub or_index : Option ℕ → Option ℕ → Option ℕ
or_index none other = other
or_index (some i) other = some i

abbrev pub index_if : Bool → ℕ → Option ℕ
index_if b i = if b then some i else none

pub position-append :
    (slot : Slot) (event : Event) (events : List Event)
    → position slot (events ++ (event ∷ []))
      ≡ or_index (position slot events) (index_if (has_slot slot event) (length events))
unfolding position
position-append slot event [] = ground arith
position-append slot event (e ∷ events) = ground (arith, position-append slot event events)

same_slot_comm : (a b : Slot) → same_slot a b ≡ same_slot b a
same_slot_comm a b = ground (arith, same_slot_iff a b, same_slot_iff b a)

set_slot-slot_is :
    (key : Option Slot) (i : ℕ) (indexes : Slot → Option ℕ) (slot : Slot)
    → set_slot key i indexes slot ≡ (if slot_is slot key then some i else indexes slot)
unfolding set_index
set_slot-slot_is none i indexes slot = refl
set_slot-slot_is (some s) i indexes slot = ground (arith, same_slot_comm s slot)

set_slot-has :
    (event : Event) (i : ℕ) (indexes : Slot → Option ℕ) (slot : Slot)
    → set_slot (slot_of event) i indexes slot
      ≡ (if has_slot slot event then some i else indexes slot)
unfolding has_slot
set_slot-has event i indexes slot = set_slot-slot_is (slot_of event) i indexes slot

-- Rebuilt indexes are positions.
pub index_from-position :
    (i : ℕ) (events : List Event) (indexes : Slot → Option ℕ) (slot : Slot)
    → Unique events
    → index_from i events indexes slot
      ≡ or_index (map_option (λ j. i + j) (position slot events)) (indexes slot)
unfolding index_from position
index_from-position i [] indexes slot u = refl
index_from-position i (e ∷ events) indexes slot u =
    index_from-position (i + 1) events (set_slot (slot_of e) i indexes) slot u.1
    ∙ ground (arith, set_slot-has e i indexes slot, u.0 slot, position_of_holds slot events)

holds-replace_same :
    (slot other : Slot) (event : Event) (events : List Event)
    → has_slot slot event ≡ true
    → holds other (replace slot event events) ≡ holds other events
unfolding holds replace
holds-replace_same slot other event [] h = refl
holds-replace_same slot other event (e ∷ events) h =
    ground (arith, h, same_key slot other event e h, holds-replace_same slot other event events h)

-- An event with a key adds it to the keys that occur.
pub holds-place :
    (slot other : Slot) (event : Event) (events : List Event)
    → has_slot slot event ≡ true
    → holds other (place slot event events) ≡ (same_slot slot other || holds other events)
unfolding place
holds-place slot other event events h = ground (
  arith,
  h,
  holds-replace_same slot other event events h,
  holds-append other event events,
  same_slot_iff slot other,
  has_slot-HasOnly slot event h other,
  ap (λ s. holds s events),
  ap (λ s. has_slot s event),
)

has_no_slot : (slot : Slot) (event : Event) → slot_of event ≡ none → has_slot slot event ≡ false
unfolding has_slot
has_no_slot slot event n = ap (slot_is slot) n

holds-replace_end :
    (slot other : Slot) (event : Event) (events : List Event)
    → slot_of event ≡ none
    → Unique events
    → holds other (replace slot event events) ≡ (not (same_slot slot other) && holds other events)
unfolding holds replace
holds-replace_end slot other event [] n u = ground arith
holds-replace_end slot other event (e ∷ events) n u = ground (
  arith,
  has_no_slot other event n,
  u.0 slot,
  same_slot_iff slot other,
  ap (λ s. holds s events),
  ap (λ s. has_slot s e),
  λ (g : has_slot slot e ≡ true). has_slot-HasOnly slot e g other,
  holds-replace_end slot other event events n u.1,
)

-- An event without a key that takes the place of one with a key removes this from those that occur.
pub holds-place_end :
    (slot other : Slot) (event : Event) (events : List Event)
    → slot_of event ≡ none
    → Unique events
    → holds other (place slot event events) ≡ (not (same_slot slot other) && holds other events)
unfolding place
holds-place_end slot other event events n u = ground (
  arith,
  has_no_slot other event n,
  holds-replace_end slot other event events n u,
  holds-append other event events,
  same_slot_iff slot other,
  ap (λ s. holds s events),
)
