-- ===== src/Conversation/Budget.antt =====
-- core/conversation/context_budget.py: the input of one call of the model, cut to its budget. The
-- tokens of an item come from `count`, as in the compaction. An error is the `RuntimeError` of the
-- source; the warning that a cut logs is left out.
pub mod Bounds
pub mod Boundaries
pub mod Pairing
pub mod Pruning
use zj_cyber_workbench.Prelude.{
  ltb, leb, if◌then◌else◌, string_eq, ◌==◌, nat_eq, not, ◌&&◌, ◌||◌, length, filter, contains, ℕ,
  ◌+◌, ◌-◌, ◌/◌, min, max, String, Bool, true, false, Option, none, some, List, [], ◌∷◌, ◌++◌, map,
}
use zj_cyber_workbench.Json.{Json, text, array, object, nil, cons, end, field}
use zj_cyber_workbench.Conversation.{tool_call_id, is_call, is_output}
use zj_cyber_workbench.Conversation.Formats.{is_context_summary_item}
use zj_cyber_workbench.Conversation.Tokens.{estimate_items_tokens}
use mathlib.Core.List.{reverse}

pub record ContextBudget : Type 0 where
  pub context_window : ℕ
  pub input_budget_tokens : ℕ

pub record InputChunk : Type 0 where
  pub items : List Json
  pub token_estimate : ℕ

pub data BudgetError : Type 0 where
  instructions_exceed_budget latest_item_exceeds_budget pruned_exceeds_budget : BudgetError
  input_exceeds_budget : BudgetError

pub data Constrained : Type 0 where
  input : List Json → Constrained
  failed : BudgetError → Constrained

-- `scaled window` is `int(context_window * cfg.context_budget_model_call_ratio)`, of floats.
unfoldable pub resolve_context_budget :
    (scaled : ℕ → ℕ) → (context_window : ℕ) → Option ContextBudget
resolve_context_budget scaled context_window =
    let slack = min 2048 (max 1 (context_window / 10)) in
    let hard_budget = max 1 (context_window - slack) in
    if context_window == 0
    then none
    else some (record {
      context_window = context_window;
      input_budget_tokens = max 1 (min (scaled context_window) hard_budget);
    })

abbrev pub notice_text : String
notice_text =
    "# Context Budget Notice\n\nOlder conversation items were omitted from this model call because the active input exceeded the configured context window. Use the retained context summary and recent messages. Reload specific files, command outputs, or source documents if exact omitted details are needed."

unfoldable pub budget_notice_item : Json
budget_notice_item = object (
    field "type" (text "message") (
      field "role" (text "user") (
        field "content"
          (array (
            cons (object (field "type" (text "input_text") (field "text" (text notice_text) end)))
              nil))
          end)))

-- The summary that stands first, if there is one, and the rest.
unfoldable pub split_context_anchor : List Json → List Json × List Json
split_context_anchor [] = ([], [])
split_context_anchor (first ∷ items) =
    if is_context_summary_item first then (first ∷ [], items) else ([], first ∷ items)

abbrev pub has_no {ℓ} : {A : Type ℓ} → List A → Bool
has_no [] = true
has_no (x ∷ xs) = false

unfoldable pub set_add : String → List String → List String
set_add x xs = if contains xs x then xs else x ∷ xs

unfoldable pub set_remove : String → List String → List String
set_remove x xs = filter (λ y. not (y == x)) xs

-- The ids of the tool calls of these items, or of their outputs: the sets of
-- `_drop_orphan_tool_items`.
unfoldable pub tool_ids : (Json → Bool) → List Json → List String
tool_ids is_kind items = filter (λ id. not (id == "")) (map tool_call_id (filter is_kind items))

unfoldable pub is_kept : (paired : String → Bool) → Json → Bool
is_kept paired item = not ((is_call item || is_output item) && not (paired (tool_call_id item)))

unfoldable pub drop_orphan_tool_items : List Json → List Json
drop_orphan_tool_items items =
    filter
      (is_kept
        (λ id. contains (tool_ids is_call items) id && contains (tool_ids is_output items) id))
      items

-- The items of the chunk that is being built, and its calls without an output.
pub record OpenChunk : Type 0 where
  pub pending : List Json
  pub open_calls : List String

abbrev pub no_chunk : OpenChunk
no_chunk = record { pending = []; open_calls = [] }

abbrev pub id_set : String → List String
id_set id = if id == "" then [] else id ∷ []

abbrev pub add_call : String → List String → List String
add_call id calls = if id == "" then calls else set_add id calls

unfoldable pub chunk_items : List InputChunk → List Json
chunk_items [] = []
chunk_items (c ∷ chunks) = c.items ++ chunk_items chunks

-- The loop over the reversed chunks; `selected` is in the order of the conversation again.
unfoldable pub select_back :
    (budget all : ℕ)
    → List InputChunk
    → (selected : List InputChunk) → (total : ℕ) → List InputChunk × ℕ
select_back budget all [] selected total = (selected, 0)
select_back budget all (c ∷ older) selected total =
    let rest = select_back budget all older (c ∷ selected) (total + c.token_estimate) in
    if ltb budget (total + c.token_estimate) then (selected, all - length selected) else rest

-- The items that are kept, and how many chunks are left out.
unfoldable pub select_recent_chunks : List InputChunk → (budget : ℕ) → List Json × ℕ
select_recent_chunks chunks budget =
    let selection = select_back budget (length chunks) (reverse chunks) [] 0 in
    (chunk_items selection.0, selection.1)

abbrev pub with_notice : ℕ → List Json → List Json
with_notice omitted suffix = if omitted == 0 then suffix else budget_notice_item ∷ suffix

module _ (count : Json → ℕ) where
  abbrev pub chunk_of : List Json → InputChunk
  chunk_of items = record { items = items; token_estimate = estimate_items_tokens count items }

  unfoldable pub flush_chunk : List Json → List InputChunk
  flush_chunk [] = []
  flush_chunk (item ∷ items) = chunk_of (item ∷ items) ∷ []

  abbrev pub close_chunk : OpenChunk → List InputChunk × OpenChunk
  close_chunk c = if has_no c.open_calls then (flush_chunk c.pending, no_chunk) else ([], c)

  -- One round of `_build_chunks`.
  unfoldable pub chunk_item : Json → OpenChunk → List InputChunk × OpenChunk
  chunk_item item c =
      let call_id = tool_call_id item in
      if is_call item
      then (if has_no c.pending
          then ([], record { pending = item ∷ []; open_calls = id_set call_id })
          else (
            [],
            record {
              pending = c.pending ++ (item ∷ []);
              open_calls = add_call call_id c.open_calls;
            },
          ))
      else if not (has_no c.pending)
      then close_chunk (record {
        pending = c.pending ++ (item ∷ []);
        open_calls =
            if is_output item && contains c.open_calls call_id
            then set_remove call_id c.open_calls
            else c.open_calls;
      })
      else (chunk_of (item ∷ []) ∷ [], c)

  unfoldable pub chunks_from : List Json → OpenChunk → List InputChunk
  chunks_from [] c = flush_chunk c.pending
  chunks_from (item ∷ items) c =
      let round = chunk_item item c in round.0 ++ chunks_from items round.1

  unfoldable pub build_chunks : List Json → List InputChunk
  build_chunks items = chunks_from items no_chunk

  abbrev pub fits : (item_budget : ℕ) → List Json → Bool
  fits item_budget items = leb (estimate_items_tokens count items) item_budget

  -- `_prune_items_to_budget` once the suffix is chosen. Without an anchor there is one attempt.
  unfoldable pub assemble :
      (item_budget : ℕ) → (anchor suffix : List Json) → (omitted : ℕ) → Constrained
  assemble item_budget anchor suffix omitted =
      let candidate = drop_orphan_tool_items (anchor ++ with_notice omitted suffix) in
      let unanchored = drop_orphan_tool_items (with_notice omitted suffix) in
      if fits item_budget candidate
      then input candidate
      else if not (has_no anchor) && fits item_budget unanchored
      then input unanchored
      else failed pruned_exceeds_budget

  unfoldable pub prune_with :
      (item_budget : ℕ) → (anchor tail : List Json) → (suffix_budget : ℕ) → Constrained
  prune_with item_budget anchor tail suffix_budget =
      let chunks = build_chunks tail in
      let selection = select_recent_chunks chunks suffix_budget in
      if has_no selection.0 && not (has_no chunks)
      then failed latest_item_exceeds_budget
      else assemble item_budget anchor selection.0 selection.1

  unfoldable pub prune_items_to_budget : List Json → (item_budget : ℕ) → Constrained
  prune_items_to_budget items item_budget =
      let parts = split_context_anchor items in
      let anchor_tokens = estimate_items_tokens count parts.0 in
      let notice_tokens = estimate_items_tokens count (budget_notice_item ∷ []) in
      let drops = leb item_budget (anchor_tokens + notice_tokens) && not (has_no parts.0) in
      if drops
      then prune_with item_budget [] parts.1 (item_budget - notice_tokens)
      else prune_with item_budget parts.0 parts.1 (item_budget - anchor_tokens - notice_tokens)

  -- `None` and the empty text count nothing.
  unfoldable pub estimate_instruction_tokens : Option String → ℕ
  estimate_instruction_tokens none = 0
  estimate_instruction_tokens (some instructions) =
      if instructions == ""
      then 0
      else estimate_items_tokens count (
          object (
            field "type" (text "message")
              (field "role" (text "system") (field "content" (text instructions) end)))
          ∷ [])

  unfoldable pub estimate_model_call_tokens : List Json → Option String → ℕ
  estimate_model_call_tokens items instructions =
      estimate_items_tokens count items + estimate_instruction_tokens instructions

  abbrev pub checked : ContextBudget → Option String → Constrained → Constrained
  checked budget instructions (failed error) = failed error
  checked budget instructions (input items) =
      if ltb budget.input_budget_tokens (estimate_model_call_tokens items instructions)
      then failed input_exceeds_budget
      else input items

  unfoldable pub constrain_model_input : List Json → Option String → ContextBudget → Constrained
  constrain_model_input items instructions budget =
      let instruction_tokens = estimate_instruction_tokens instructions in
      if leb (estimate_model_call_tokens items instructions) budget.input_budget_tokens
      then input items
      else if leb budget.input_budget_tokens instruction_tokens
      then failed instructions_exceed_budget
      else checked budget instructions
          (prune_items_to_budget items (budget.input_budget_tokens - instruction_tokens))
