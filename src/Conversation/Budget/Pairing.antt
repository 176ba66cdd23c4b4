-- ===== src/Conversation/Budget/Pairing.antt =====
-- core/conversation/context_budget.py: tool calls and their outputs in what is left of an input.
use zj_cyber_workbench.Prelude.{
  string_eq, ◌&&◌, ◌||◌, All, filter, contains, String, ◌≡◌, refl, ap, Bool, true, List, [], ◌∷◌,
  arith,
}
use zj_cyber_workbench.Json.{Json}
use zj_cyber_workbench.Conversation.{tool_call_id, is_call, is_output}
use zj_cyber_workbench.Conversation.Budget.{tool_ids, is_kept, drop_orphan_tool_items}

unfoldable pub is_tool_item : Json → Bool
is_tool_item item = is_call item || is_output item

-- Dropping the tool items whose ids are not paired leaves the ids that are.
tool_ids-kept :
    (is_kind : Json → Bool) (paired : String → Bool) (id : String) (items : List Json)
    → ((item : Json) → is_kind item ≡ true → is_tool_item item ≡ true)
    → paired id ≡ true
    → contains (tool_ids is_kind (filter (is_kept paired) items)) id
      ≡ contains (tool_ids is_kind items) id
unfolding tool_ids filter contains is_kept is_tool_item
tool_ids-kept is_kind paired id [] k p = refl
tool_ids-kept is_kind paired id (item ∷ items) k p = ground (
  arith,
  k item,
  p,
  string_eq.same_iff id (tool_call_id item),
  ap paired,
  tool_ids-kept is_kind paired id items k p,
)

abbrev pub is_paired : List Json → String → Bool
is_paired items id = contains (tool_ids is_call items) id && contains (tool_ids is_output items) id

-- Each tool call among the items has its output there, and each output its call.
abbrev pub AllPaired : List Json → Type 0
AllPaired items =
    All (λ item. is_tool_item item ≡ true → is_paired items (tool_call_id item) ≡ true) items

All-kept :
    (paired : String → Bool) (items : List Json)
    → All
        (λ item. is_tool_item item ≡ true → paired (tool_call_id item) ≡ true)
        (filter (is_kept paired) items)
unfolding filter is_kept is_tool_item
All-kept paired [] = tt
All-kept paired (item ∷ items) = ground (arith, All-kept paired items)

All-weaken :
    (P Q : Json → Type 0) (items : List Json)
    → ((item : Json) → P item → Q item)
    → All P items
    → All Q items
All-weaken P Q [] k h = tt
All-weaken P Q (item ∷ items) k h = (k item h.0, All-weaken P Q items k h.1)

is_paired-kept :
    (items : List Json) (id : String)
    → is_paired items id ≡ true
    → is_paired (drop_orphan_tool_items items) id ≡ true
unfolding drop_orphan_tool_items is_tool_item
is_paired-kept items id h = ground (
  arith,
  h,
  tool_ids-kept is_call (is_paired items) id items (λ item e. ground (arith, e)) h,
  tool_ids-kept is_output (is_paired items) id items (λ item e. ground (arith, e)) h,
)

-- Whatever items come in, no tool call is left without its output, nor an output without its call.
pub drop_orphan_tool_items-AllPaired :
    (items : List Json) → AllPaired (drop_orphan_tool_items items)
unfolding drop_orphan_tool_items
drop_orphan_tool_items-AllPaired items =
    All-weaken _ _ (filter (is_kept (is_paired items)) items)
      (λ item h t. is_paired-kept items (tool_call_id item) (h t))
      (All-kept (is_paired items) items)
