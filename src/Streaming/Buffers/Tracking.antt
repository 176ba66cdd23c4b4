-- ===== src/Streaming/Buffers/Tracking.antt =====
-- core/runtime/partial_context.py: which segments are open in the buffers.
use zj_cyber_workbench.Prelude.{
  if◌then◌else◌, string_eq, ◌==◌, nat_eq, not, ◌&&◌, ◌||◌, String, ◌≡◌, Bool, true, false, List, [],
  ◌∷◌, arith,
}
use zj_cyber_workbench.Streaming.{
  Event, text_delta, thinking_delta, text_complete, thinking_complete,
}
use zj_cyber_workbench.Streaming.Buffers.{
  DeltaBuffer, add_delta, complete_buffer, update_buffer, track_delta,
}
use text.Mathlib.TextLemmas.{append-eq-nil_iff}
use Prim.Native.String.{◌++◌ as str_append}

abbrev pub same_bool : Bool → Bool → Bool
same_bool a b = if a then b else not b

abbrev pub kind_of : Bool → String
kind_of is_thinking = if is_thinking then "thinking" else "text"

abbrev pub is_open : DeltaBuffer → Bool
is_open b = not (b.content == "") && not b.complete

-- The first buffer of the segment is of this kind, and open.
unfoldable pub has_open : Bool → String → List DeltaBuffer → Bool
has_open k id [] = false
has_open k id (b ∷ buffers) =
    let rest = has_open k id buffers in
    if b.segment_id == id then same_bool b.is_thinking k && is_open b else rest

-- The first buffer of the segment, if there is one, is of this kind and not `ended`.
unfoldable pub continues : (ended : DeltaBuffer → Bool) → Bool → String → List DeltaBuffer → Bool
continues ended k id [] = true
continues ended k id (b ∷ buffers) =
    let rest = continues ended k id buffers in
    if b.segment_id == id then same_bool b.is_thinking k && not (ended b) else rest

abbrev pub never : DeltaBuffer → Bool
never b = false

-- A delta is not empty and does not follow the end of its segment. A segment has one kind.
unfoldable pub is_regular : List DeltaBuffer → Event → Bool
is_regular buffers (text_delta e) =
    not (e.delta == "") && continues (λ b. b.complete) false e.segment_id buffers
is_regular buffers (thinking_delta e) =
    not (e.delta == "") && continues (λ b. b.complete) true e.segment_id buffers
is_regular buffers (text_complete e) = continues never false e.segment_id buffers
is_regular buffers (thinking_complete e) = continues never true e.segment_id buffers
is_regular buffers _ = true

abbrev pub AllRegular : List DeltaBuffer → List Event → Type 0
AllRegular buffers [] = Unit
AllRegular buffers (event ∷ events) =
    (is_regular buffers event ≡ true) × AllRegular (track_delta buffers event) events

append_nonempty : (a b : String) → (b == "") ≡ false → (str_append a b == "") ≡ false
append_nonempty a b h = ground (
  arith,
  h,
  (append-eq-nil_iff {p = a} {q = b}).0,
  string_eq.same_iff (str_append a b) "",
  string_eq.same_iff b "",
)

abbrev pub is_segment : Bool → String → Bool → String → Bool
is_segment k id j other = same_bool k j && id == other

pub has_open-add_delta :
    (k : Bool) (id delta : String) (j : Bool) (other : String) (buffers : List DeltaBuffer)
    → (delta == "") ≡ false
    → continues (λ b. b.complete) k id buffers ≡ true
    → has_open j other (update_buffer k id (add_delta delta) buffers)
      ≡ (is_segment k id j other || has_open j other buffers)
unfolding has_open continues update_buffer
has_open-add_delta k id delta j other [] n c =
    ground (arith, append_nonempty "" delta n, string_eq.same_iff id other)
has_open-add_delta k id delta j other (b ∷ buffers) n c = ground (
  arith,
  c,
  append_nonempty b.content delta n,
  string_eq.same_iff id other,
  string_eq.same_iff b.segment_id id,
  string_eq.same_iff b.segment_id other,
  has_open-add_delta k id delta j other buffers n,
)

pub has_open-complete_buffer :
    (k : Bool) (id full_text : String) (j : Bool) (other : String) (buffers : List DeltaBuffer)
    → continues never k id buffers ≡ true
    → has_open j other (update_buffer k id (complete_buffer full_text) buffers)
      ≡ (not (is_segment k id j other) && has_open j other buffers)
unfolding has_open continues update_buffer
has_open-complete_buffer k id full_text j other [] c = ground arith
has_open-complete_buffer k id full_text j other (b ∷ buffers) c = ground (
  arith,
  c,
  string_eq.same_iff id other,
  string_eq.same_iff b.segment_id id,
  string_eq.same_iff b.segment_id other,
  has_open-complete_buffer k id full_text j other buffers,
)
