-- ===== src/Streaming/Timeline/Items.antt =====
-- core/runtime/timeline.py and core/runtime/session.py (`_stamp_event`): the items that events are part
-- of, and their ordinals.
use zj_cyber_workbench.Streaming.Timeline.Ordinals.{same_item, IsTimeline, stamp_event-key_iff}
use Prim.Native.Char.{code}
use Prim.Native.String.{◌++◌ as str_append}
use Prim.Native.String.append
use zj_cyber_workbench.Prelude.{
  if◌then◌else◌, string_eq, ◌==◌, nat_eq, not, ◌&&◌, ℕ, zero, suc, String, ◌≡◌, refl, sym, ap, ◌∙◌,
  ◌↔◌, Bool, true, false, Option, none, some, map_option, List, arith,
}
use zj_cyber_workbench.Streaming.{
  Event, user_message, turn_boundary, run_state, text_delta, thinking_delta, text_complete,
  thinking_complete, tool_call, tool_result, subagent_task, done, failed,
}
use zj_cyber_workbench.Streaming.Timeline.{
  timeline_item_key, is_control_event, seq_of, Timeline, stamp_event, stamp_events,
}

pub data Kind : Type 0 where
  text_part thinking_part call_part result_part : Kind

-- A segment of a text or of a thought, a call of a tool, or its result, each with the id of the call
-- that it is nested in and its own; or the task of a subagent.
pub data Item : Type 0 where
  part : Kind → (nested_call_id id : String) → Item
  task : (run_id : String) → Item

-- What an event is part of, if it is part of anything.
abbrev pub item_of : Event → Option Item
item_of (text_delta e) = some (part text_part e.scoped.nested_call_id e.segment_id)
item_of (text_complete e) = some (part text_part e.scoped.nested_call_id e.segment_id)
item_of (thinking_delta e) = some (part thinking_part e.scoped.nested_call_id e.segment_id)
item_of (thinking_complete e) = some (part thinking_part e.scoped.nested_call_id e.segment_id)
item_of (tool_call e) = some (part call_part e.scoped.nested_call_id e.call_id)
item_of (tool_result e) = some (part result_part e.scoped.nested_call_id e.call_id)
item_of (subagent_task e) = some (task e.run_id)
item_of _ = none

-- The two events are part of one item.
abbrev pub AreOfOneItem : Event → Event → Type 0
AreOfOneItem first second =
    (item : Item) × (item_of first ≡ some item) × (item_of second ≡ some item)

abbrev pub has_no_colon : String → Bool
has_no_colon String.[] = true
has_no_colon (String.◌∷◌ c s) = not (code c == b':') && has_no_colon s

-- The id of the call that an item is nested in has no colon.
abbrev pub is_plain : Option Item → Bool
is_plain (some (part kind nested_call_id id)) = has_no_colon nested_call_id
is_plain _ = true

abbrev kind_text : Kind → String
kind_text text_part = "text"
kind_text thinking_part = "thinking"
kind_text call_part = "tc"
kind_text result_part = "tr"

-- The concatenation of the texts, which computes.
abbrev glue : String → String → String
glue String.[] t = t
glue (String.◌∷◌ c s) t = String.◌∷◌ c (glue s t)

abbrev key_of : Item → String
key_of (part kind nested_call_id id) =
    glue (kind_text kind) (glue ":" (glue nested_call_id (glue ":" id)))
key_of (task run_id) = glue "sa:" run_id

str_append-glue : (s t : String) → str_append s t ≡ glue s t
str_append-glue String.[] t = append.nil t
str_append-glue (String.◌∷◌ c s) t =
    append.cons c s t ∙ ap (λ r. String.◌∷◌ c r) (str_append-glue s t)

item_key-glue :
    (kind n id : String)
    → str_append kind (str_append ":" (str_append n (str_append ":" id)))
      ≡ glue kind (glue ":" (glue n (glue ":" id)))
item_key-glue kind n id =
    ap (λ r. str_append kind (str_append ":" (str_append n r))) (str_append-glue ":" id)
    ∙ ap (λ r. str_append kind (str_append ":" r)) (str_append-glue n (glue ":" id))
    ∙ ap (str_append kind) (str_append-glue ":" (glue n (glue ":" id)))
    ∙ str_append-glue kind (glue ":" (glue n (glue ":" id)))

key_of-item_of : (event : Event) → timeline_item_key event ≡ map_option key_of (item_of event)
unfolding timeline_item_key
key_of-item_of (user_message e) = refl
key_of-item_of (turn_boundary s) = refl
key_of-item_of (run_state e) = refl
key_of-item_of (text_delta e) = ap some (item_key-glue "text" e.scoped.nested_call_id e.segment_id)
key_of-item_of (text_complete e) =
    ap some (item_key-glue "text" e.scoped.nested_call_id e.segment_id)
key_of-item_of (thinking_delta e) =
    ap some (item_key-glue "thinking" e.scoped.nested_call_id e.segment_id)
key_of-item_of (thinking_complete e) =
    ap some (item_key-glue "thinking" e.scoped.nested_call_id e.segment_id)
key_of-item_of (tool_call e) = ap some (item_key-glue "tc" e.scoped.nested_call_id e.call_id)
key_of-item_of (tool_result e) = ap some (item_key-glue "tr" e.scoped.nested_call_id e.call_id)
key_of-item_of (subagent_task e) = ap some (str_append-glue "sa:" e.run_id)
key_of-item_of (done s) = refl
key_of-item_of (failed e) = refl

abbrev rest_of : String → String
rest_of String.[] = ""
rest_of (String.◌∷◌ c s) = s

abbrev first_is_colon : String → Bool
first_is_colon String.[] = false
first_is_colon (String.◌∷◌ c s) = code c == b':'

abbrev with_first : String → String → String
with_first String.[] t = t
with_first (String.◌∷◌ c s) t = String.◌∷◌ c t

-- Two texts without a colon, each before a colon.
split_colon :
    (a b x y : String)
    → has_no_colon a ≡ true
    → has_no_colon b ≡ true
    → glue a (glue ":" x) ≡ glue b (glue ":" y)
    → (a ≡ b) × (x ≡ y)
split_colon String.[] String.[] x y h k e = (refl, ap rest_of e)
split_colon String.[] (String.◌∷◌ d b) x y h k e = ground (arith, k, ap first_is_colon e)
split_colon (String.◌∷◌ c a) String.[] x y h k e = ground (arith, h, ap first_is_colon e)
split_colon (String.◌∷◌ c a) (String.◌∷◌ d b) x y h k e =
    let rest = split_colon a b x y (ground (arith, h)) (ground (arith, k)) (ap rest_of e) in
    (ap (λ t. with_first t a) e ∙ ap (λ t. String.◌∷◌ d t) rest.0, rest.1)

-- The kind of an item by its key.
abbrev number_of : Item → ℕ
number_of (part text_part n a) = 0
number_of (part thinking_part n a) = 1
number_of (part call_part n a) = 2
number_of (part result_part n a) = 3
number_of (task r) = 4

-- The code of the character behind some others.
abbrev code_at : ℕ → String → ℕ
code_at n String.[] = 0
code_at zero (String.◌∷◌ c s) = code c
code_at (suc n) (String.◌∷◌ c s) = code_at n s

-- Keys begin with "te", "th", "tc", "tr" or "sa".
number_by : (letter : ℕ) → ℕ
number_by letter =
    if letter == b'e'
    then 0
    else if letter == b'h'
    then 1
    else if letter == b'c'
    then 2
    else if letter == b'r'
    then 3
    else 4

number_of-key_of : (i : Item) → number_of i ≡ number_by (code_at 1 (key_of i))
unfolding number_by
number_of-key_of (part text_part n a) = refl
number_of-key_of (part thinking_part n a) = refl
number_of-key_of (part call_part n a) = refl
number_of-key_of (part result_part n a) = refl
number_of-key_of (task r) = refl

abbrev drop_first : ℕ → String → String
drop_first zero s = s
drop_first (suc n) s = drop_first n (rest_of s)

part_inj :
    (kind : Kind) (n m a b : String)
    → has_no_colon n ≡ true
    → has_no_colon m ≡ true
    → glue n (glue ":" a) ≡ glue m (glue ":" b)
    → part kind n a ≡ part kind m b
part_inj kind n m a b h k e =
    let both = split_colon n m a b h k e in
    ap (λ x. part kind x a) both.0 ∙ ap (λ x. part kind m x) both.1

key_of_inj :
    (i j : Item)
    → is_plain (some i) ≡ true
    → is_plain (some j) ≡ true
    → number_of i ≡ number_of j
    → key_of i ≡ key_of j
    → i ≡ j
key_of_inj (part text_part n a) (part text_part m b) h k q e =
    part_inj text_part n m a b h k (ap (drop_first 5) e)
key_of_inj (part thinking_part n a) (part thinking_part m b) h k q e =
    part_inj thinking_part n m a b h k (ap (drop_first 9) e)
key_of_inj (part call_part n a) (part call_part m b) h k q e =
    part_inj call_part n m a b h k (ap (drop_first 3) e)
key_of_inj (part result_part n a) (part result_part m b) h k q e =
    part_inj result_part n m a b h k (ap (drop_first 3) e)
key_of_inj (task a) (task b) h k q e = ap task (ap (drop_first 3) e)
key_of_inj (part text_part n a) (part thinking_part m b) h k q e = ground (arith, q)
key_of_inj (part text_part n a) (part call_part m b) h k q e = ground (arith, q)
key_of_inj (part text_part n a) (part result_part m b) h k q e = ground (arith, q)
key_of_inj (part text_part n a) (task b) h k q e = ground (arith, q)
key_of_inj (part thinking_part n a) (part text_part m b) h k q e = ground (arith, q)
key_of_inj (part thinking_part n a) (part call_part m b) h k q e = ground (arith, q)
key_of_inj (part thinking_part n a) (part result_part m b) h k q e = ground (arith, q)
key_of_inj (part thinking_part n a) (task b) h k q e = ground (arith, q)
key_of_inj (part call_part n a) (part text_part m b) h k q e = ground (arith, q)
key_of_inj (part call_part n a) (part thinking_part m b) h k q e = ground (arith, q)
key_of_inj (part call_part n a) (part result_part m b) h k q e = ground (arith, q)
key_of_inj (part call_part n a) (task b) h k q e = ground (arith, q)
key_of_inj (part result_part n a) (part text_part m b) h k q e = ground (arith, q)
key_of_inj (part result_part n a) (part thinking_part m b) h k q e = ground (arith, q)
key_of_inj (part result_part n a) (part call_part m b) h k q e = ground (arith, q)
key_of_inj (part result_part n a) (task b) h k q e = ground (arith, q)
key_of_inj (task a) (part text_part m b) h k q e = ground (arith, q)
key_of_inj (task a) (part thinking_part m b) h k q e = ground (arith, q)
key_of_inj (task a) (part call_part m b) h k q e = ground (arith, q)
key_of_inj (task a) (part result_part m b) h k q e = ground (arith, q)

same_item-AreOfOneItem :
    (i j : Option Item)
    → is_plain i ≡ true
    → is_plain j ≡ true
    → (same_item (map_option key_of i) (map_option key_of j) ≡ true)
      ↔ ((item : Item) × (i ≡ some item) × (j ≡ some item))
same_item-AreOfOneItem none j h k = (λ e. ground (arith, e), λ s. ground (arith, s.1))
same_item-AreOfOneItem (some i) none h k = (λ e. ground (arith, e), λ s. ground (arith, s.2))
same_item-AreOfOneItem (some i) (some j) h k = (
  λ e.
      let keys = (string_eq.same_iff (key_of i) (key_of j)).0 e in
      let numbers =
        number_of-key_of i ∙ ap (λ s. number_by (code_at 1 s)) keys ∙ sym (number_of-key_of j) in
      (j, ap some (key_of_inj i j h k numbers keys), refl),
  λ s.
      let same : some i ≡ some j = s.1 ∙ sym s.2 in
      (string_eq.same_iff (key_of i) (key_of j)).1
        (ap (λ o. elim o [ none ↦ key_of i | some x ↦ key_of x ]) same),
)

module _ (show : ℕ → String) where
  -- Two events that a session stamps one after the other, with any others before and between them
  -- and without loading the log, get the same ordinal exactly if they are part of one item: a
  -- segment of text or of thought, a call of a tool or its result, with its own id and that of the
  -- call it is nested in, or the task of a subagent. Neither is a control event, the ids of the
  -- calls that they are nested in have no colon, and the ordinals that are stored are distinct and
  -- not ahead of the counter.
  pub stamp_event-seq_iff :
      (before between : List Event) (first second : Event) (t : Timeline)
      → IsTimeline t
      → is_control_event first ≡ false
      → is_control_event second ≡ false
      → is_plain (item_of first) ≡ true
      → is_plain (item_of second) ≡ true
      → let start = stamp_events show before t in
        let stamped = stamp_event show first start in
        let later = stamp_events show between stamped.1 in
        (seq_of stamped.0.0 ≡ seq_of (stamp_event show second later).0.0)
        ↔ AreOfOneItem first second
  stamp_event-seq_iff before between first second t h c d p q =
      let ordinals = stamp_event-key_iff show before between first second t h c d in
      let items = same_item-AreOfOneItem (item_of first) (item_of second) p q in
      let keys =
        ap (λ k. same_item k (timeline_item_key second)) (key_of-item_of first)
        ∙ ap (same_item (map_option key_of (item_of first))) (key_of-item_of second) in
      (λ e. items.0 (sym keys ∙ ordinals.0 e), λ s. ordinals.1 (keys ∙ items.1 s))
