-- ===== src/Conversation/Budget/Boundaries.antt =====
-- core/conversation/context_budget.py: where the chunks of an input end.
use zj_cyber_workbench.Prelude.{
  if◌then◌else◌, Bool-cases, string_eq, ◌==◌, nat_eq, not, ◌&&◌, ◌||◌, All, filter, contains, ℕ,
  String, ◌≡◌, refl, sym, ap, ◌∙◌, subst, inl, inr, true, false, List, [], ◌∷◌, ◌++◌, arith,
}
use zj_cyber_workbench.Json.{Json}
use zj_cyber_workbench.Conversation.{tool_call_id, is_call, is_output}
use zj_cyber_workbench.Conversation.Budget.{
  InputChunk, has_no, set_add, set_remove, OpenChunk, no_chunk, add_call, chunk_items, flush_chunk,
  close_chunk, chunk_item, chunks_from, build_chunks,
}

-- The calls that are open after one more item: a call with an id opens it, an output closes it.
abbrev pub open_after : Json → List String → List String
open_after item ids =
    if is_call item
    then (if tool_call_id item == "" || contains ids (tool_call_id item)
        then ids
        else tool_call_id item ∷ ids)
    else if is_output item
    then filter (λ id. not (id == tool_call_id item)) ids
    else ids

-- The ids of the calls in these items without an output behind them, and of those in `ids`.
unfoldable pub open_calls : List String → List Json → List String
open_calls ids [] = ids
open_calls ids (item ∷ items) = open_calls (open_after item ids) items

open_calls-append :
    (ids : List String) (a b : List Json)
    → open_calls ids (a ++ b) ≡ open_calls (open_calls ids a) b
unfolding open_calls
open_calls-append ids [] b = refl
open_calls-append ids (item ∷ a) b = open_calls-append (open_after item ids) a b

set_remove-absent :
    (id : String) (ids : List String) → contains ids id ≡ false → set_remove id ids ≡ ids
unfolding set_remove filter contains
set_remove-absent id [] h = refl
set_remove-absent id (i ∷ ids) h =
    ground (arith, h, string_eq.same_iff id i, string_eq.same_iff i id, set_remove-absent id ids)

abbrev IsClosed : InputChunk → Type 0
IsClosed c = open_calls [] c.items ≡ []

-- Every chunk but the last is closed.
abbrev ClosedButLast : List InputChunk → Type 0
ClosedButLast [] = Unit
ClosedButLast (c ∷ []) = Unit
ClosedButLast (c ∷ d ∷ chunks) = IsClosed c × ClosedButLast (d ∷ chunks)

ClosedButLast-append :
    (a b : List InputChunk) → All IsClosed a → ClosedButLast b → ClosedButLast (a ++ b)
ClosedButLast-append [] b h k = k
ClosedButLast-append (c ∷ []) [] h k = tt
ClosedButLast-append (c ∷ []) (d ∷ b) h k = (h.0, k)
ClosedButLast-append (c ∷ d ∷ a) b h k = (h.0, ClosedButLast-append (d ∷ a) b h.1 k)

ClosedButLast-before :
    (a : List InputChunk) (c : InputChunk) (b : List InputChunk)
    → ClosedButLast (a ++ (c ∷ b))
    → All IsClosed a
ClosedButLast-before [] c b h = tt
ClosedButLast-before (d ∷ []) c b h = (h.0, tt)
ClosedButLast-before (d ∷ e ∷ a) c b h = (h.0, ClosedButLast-before (e ∷ a) c b h.1)

open_calls-chunks : (a : List InputChunk) → All IsClosed a → open_calls [] (chunk_items a) ≡ []
unfolding open_calls chunk_items
open_calls-chunks [] h = refl
open_calls-chunks (c ∷ a) h =
    open_calls-append [] c.items (chunk_items a)
    ∙ ap (λ ids. open_calls ids (chunk_items a)) h.0
    ∙ open_calls-chunks a h.1

nil_of_has_no : {A : Type 0} (xs : List A) → has_no xs ≡ true → xs ≡ []
nil_of_has_no [] h = refl
nil_of_has_no (x ∷ xs) h = cc

-- The code's set of open calls is that of the items that are pending.
abbrev IsTracked : OpenChunk → Type 0
IsTracked c = c.open_calls ≡ open_calls [] c.pending

module _ (count : Json → ℕ) where
  Round : List InputChunk × OpenChunk → Type 0
  Round round = All IsClosed round.0 × IsTracked round.1

  flush_chunk-IsClosed :
      (items : List Json) → open_calls [] items ≡ [] → All IsClosed (flush_chunk count items)
  unfolding flush_chunk
  flush_chunk-IsClosed [] h = tt
  flush_chunk-IsClosed (item ∷ items) h = (h, tt)

  flush_chunk-last : (items : List Json) → ClosedButLast (flush_chunk count items)
  unfolding flush_chunk
  flush_chunk-last [] = tt
  flush_chunk-last (item ∷ items) = tt

  close_chunk-Round : (c : OpenChunk) → IsTracked c → Round (close_chunk count c)
  unfolding Round open_calls
  close_chunk-Round c h = elim (Bool-cases (has_no c.open_calls)) [
    | inl e ↦ rw e (flush_chunk-IsClosed c.pending (sym h ∙ nil_of_has_no c.open_calls e), refl)
    | inr e ↦ rw e (tt, h)
  ]

  next_open :
      (item : Json) (c : OpenChunk)
      → is_call item ≡ false
      → (if is_output item && contains c.open_calls (tool_call_id item)
          then set_remove (tool_call_id item) c.open_calls
          else c.open_calls)
        ≡ open_after item c.open_calls
  unfolding set_remove
  next_open item c n = ground (arith, n, set_remove-absent (tool_call_id item) c.open_calls)

  tracked_next :
      (item : Json) (c : OpenChunk)
      → IsTracked c
      → open_after item c.open_calls ≡ open_calls [] (c.pending ++ (item ∷ []))
  unfolding open_calls
  tracked_next item c h = ap (open_after item) h ∙ sym (open_calls-append [] c.pending (item ∷ []))

  add_call-open :
      (item : Json) (ids : List String)
      → is_call item ≡ true
      → add_call (tool_call_id item) ids ≡ open_after item ids
  unfolding set_add
  add_call-open item ids n = ground (arith, n)

  chunk_item-Round : (item : Json) (c : OpenChunk) → IsTracked c → Round (chunk_item count item c)
  unfolding Round chunk_item open_calls contains filter
  chunk_item-Round item c h = elim (Bool-cases (is_call item)) [
    | inl e ↦ elim (Bool-cases (has_no c.pending)) [
      | inl f ↦ rw e (rw f (tt, ground (arith, e)))
      | inr f ↦ rw e (rw f (tt, add_call-open item c.open_calls e ∙ tracked_next item c h))
    ]
    | inr e ↦ elim (Bool-cases (has_no c.pending)) [
      | inl f ↦ rw e (rw f ((ground (arith, e), tt), h))
      | inr f ↦ rw e (rw f (close_chunk-Round _ (next_open item c e ∙ tracked_next item c h)))
    ]
  ]

  chunks_from-ClosedButLast :
      (items : List Json) (c : OpenChunk) → IsTracked c → ClosedButLast (chunks_from count items c)
  unfolding chunks_from Round
  chunks_from-ClosedButLast [] c h = flush_chunk-last c.pending
  chunks_from-ClosedButLast (item ∷ items) c h =
      let round = chunk_item-Round item c h in
      ClosedButLast-append (chunk_item count item c).0 _ round.0
        (chunks_from-ClosedButLast items (chunk_item count item c).1 round.1)

  -- Behind chunks that others follow, no call is open.
  pub build_chunks-closed :
      (items : List Json) (older : List InputChunk) (c : InputChunk) (newer : List InputChunk)
      → build_chunks count items ≡ older ++ (c ∷ newer)
      → open_calls [] (chunk_items older) ≡ []
  unfolding build_chunks open_calls
  build_chunks-closed items older c newer e = open_calls-chunks older (
      ClosedButLast-before older c newer
        (subst ClosedButLast e (chunks_from-ClosedButLast items no_chunk refl)))
