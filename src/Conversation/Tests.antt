-- ===== src/Conversation/Tests.antt =====
-- Conversations with one tool call, at small budgets, and the theorems at them.
use zj_cyber_workbench.Prelude.{
  string_eq, nat_eq, filter, any, contains, count_where, ℕ, ◌+◌, ◌≤◌, ◌<◌, String, ◌≡◌, refl, ◌↔◌,
  true, false, none, some, List, [], ◌∷◌, ◌++◌, map, arith,
}
use zj_cyber_workbench.Json.{
  Json, text, object, end, field, get, is_true, is_text, text_or_empty, or_else,
}
use zj_cyber_workbench.Conversation.{tool_call_id, is_call, is_output}
use zj_cyber_workbench.Conversation.Formats.{TextLibrary, is_user_item, is_context_summary_item}
use zj_cyber_workbench.Conversation.Projection.{
  ProjectionCompaction, ProjectedItem, StoredItem, Viewer, project_context,
}
use zj_cyber_workbench.Conversation.Projection.Blocks.{
  is_shown, blocks, summary_of, behind, show_block, project_context-blocks,
}
use zj_cyber_workbench.Conversation.Tokens.{estimate_items_tokens}
use zj_cyber_workbench.Conversation.Budget.{
  ContextBudget, input, resolve_context_budget, budget_notice_item, split_context_anchor, set_add,
  set_remove, tool_ids, is_kept, drop_orphan_tool_items, chunk_items, select_back,
  select_recent_chunks, flush_chunk, chunk_item, chunks_from, build_chunks, assemble, prune_with,
  prune_items_to_budget, estimate_instruction_tokens, estimate_model_call_tokens,
  constrain_model_input,
}
use zj_cyber_workbench.Conversation.Budget.Bounds.{costs, instructions_cost}
use zj_cyber_workbench.Conversation.Budget.Pairing.{AllPaired, drop_orphan_tool_items-AllPaired}
use zj_cyber_workbench.Conversation.Budget.Pruning.{IsPruning, constrain_model_input-IsPruning}
use zj_cyber_workbench.Conversation.Compaction.{
  CompactionScope, CompactionConfig, CompactionState, same_scope, toggle_group, preserved_count,
  add_candidate, reaches_target, collect, select_compaction_candidates, candidate_ids,
  candidate_end_message_id, candidate_start_message_id,
}
use zj_cyber_workbench.Conversation.Compaction.Storage.{
  exception, answer, hard_stop, is_hard_stop, is_locked, try_lock_compaction, unlock_compaction,
  store_compaction, latest_row, get_latest_compaction, store_locked, with_estimate,
  estimate_projection_tokens, projected_tokens_of, with_summary, with_candidates, compact_if_needed,
}
use zj_cyber_workbench.Conversation.Compaction.Groups.{IsSelection}
use zj_cyber_workbench.Conversation.Compaction.Rounds.{
  is_call_of, is_output_of, AreRounds, select_compaction_candidates-rounds,
}
use zj_cyber_workbench.Conversation.Compaction.Outcome.{IsStopped, compact_if_needed-hard_stop_iff}
use zj_cyber_workbench.Conversation.Compaction.Stored.{
  IsStored, reports, compact_if_needed-IsStored,
}

abbrev message : String → Json
message content = object (
    field "type" (text "message") (field "role" (text "user") (field "content" (text content) end)))

abbrev tool_item : String → String → Json
tool_item kind id = object (field "type" (text kind) (field "call_id" (text id) end))

abbrev call_item : Json
call_item = tool_item "function_call" "c1"

abbrev output_item : Json
output_item = tool_item "function_call_output" "c1"

-- Every item counts ten tokens.
abbrev six : Json → ℕ
six item = 6

abbrev budget_of : ℕ → ContextBudget
budget_of tokens = record { context_window = 100; input_budget_tokens = tokens }

abbrev conversation : List Json
conversation = message "one" ∷ message "two" ∷ call_item ∷ output_item ∷ message "three" ∷ []

abbrev pruned : List Json
pruned = budget_notice_item ∷ call_item ∷ output_item ∷ message "three" ∷ []

abbrev by : String → ℕ → StoredItem
by owner id = record {
  message_id = id;
  owner_code = owner;
  item = object (
      field "type" (text "message")
        (field "role" (text "assistant") (field "content" (text "found it") end)));
  nested_for = "";
  nested_call_id = "";
}

abbrev lead : Viewer
lead = record { viewing_agent_code = "lead"; viewer_nested_for = ""; viewer_nested_call_id = "" }

abbrev compacted_twice : ProjectionCompaction
compacted_twice = record {
  id = 1;
  start_message_id = 1;
  end_message_id = 2;
  summary_item = message "# Context Summary";
}

abbrev stored : List StoredItem
stored = by "lead" 1 ∷ by "scout" 3 ∷ by "scout" 4 ∷ by "lead" 5 ∷ []

abbrev item_of : ℕ → String → Json → ProjectedItem
item_of id group item = record {
  item = item;
  source_message_ids = id ∷ [];
  token_estimate = 10;
  atomic_group = group;
}

-- A call is the first item, and its output the second.
abbrev projection : List ProjectedItem
projection =
    item_of 1 "tool:lead:c1" call_item
    ∷ item_of 2 "tool:lead:c1" output_item
    ∷ item_of 3 "" (message "next")
    ∷ item_of 4 "" (message "last")
    ∷ []

abbrev config : CompactionConfig
config = record {
  enabled = true;
  window = 100;
  trigger_tokens = 30;
  hard_stop_tokens = 40;
  target_tokens = 35;
  preserve_tokens = 10;
  preserve_recent_items = 1;
  min_items = 1;
  summary_max_tokens = 5;
}

abbrev main_scope : CompactionScope
main_scope = record {
  session_id = "s";
  viewer_agent_code = "lead";
  scope_nested_for = "";
  scope_nested_call_id = "";
}

abbrev no_compactions : CompactionState
no_compactions = record { rows = []; locked = [] }

-- A library whose functions leave texts as they are.
abbrev plain : TextLibrary
plain = record {
  strip = λ s. s;
  lstrip = λ s. s;
  casefold = λ s. s;
  splitlines = λ s. s ∷ [];
  is_control = λ c. false;
}

all_open : Unit {0}
unfolding tool_call_id is_call is_output get is_text text_or_empty or_else resolve_context_budget
    split_context_anchor is_context_summary_item tool_ids is_kept drop_orphan_tool_items set_add
    set_remove chunk_items select_back select_recent_chunks flush_chunk chunk_item chunks_from
    build_chunks assemble prune_with prune_items_to_budget estimate_instruction_tokens
    estimate_model_call_tokens constrain_model_input estimate_items_tokens filter contains any
    is_user_item is_true budget_notice_item toggle_group preserved_count add_candidate
    reaches_target collect select_compaction_candidates candidate_ids candidate_end_message_id
    candidate_start_message_id same_scope is_hard_stop is_locked try_lock_compaction
    unlock_compaction store_compaction latest_row get_latest_compaction store_locked with_estimate
    estimate_projection_tokens projected_tokens_of with_summary with_candidates compact_if_needed
    count_where
all_open = tt

-- Forty tokens hold the notice and the last two chunks.
prunes : constrain_model_input six conversation none (budget_of 40) ≡ input pruned
unfolding all_open
prunes = refl

-- A call whose output is cut off is dropped.
drops_orphans : drop_orphan_tool_items (message "one" ∷ call_item ∷ []) ≡ message "one" ∷ []
unfolding all_open
drops_orphans = refl

-- The call is not compacted without its output.
selects :
    select_compaction_candidates config 40 projection
    ≡ item_of 1 "tool:lead:c1" call_item ∷ item_of 2 "tool:lead:c1" output_item ∷ []
unfolding all_open
selects = refl

over_budget : 40 < costs six conversation + instructions_cost six none
unfolding all_open
over_budget = omega arith

constrain_model_input-IsPruning_example :
    IsPruning conversation pruned × (costs six pruned + instructions_cost six none ≤ 40)
constrain_model_input-IsPruning_example =
    constrain_model_input-IsPruning six conversation pruned none (budget_of 40) over_budget prunes

drop_orphan_tool_items-AllPaired_example : AllPaired (drop_orphan_tool_items conversation)
drop_orphan_tool_items-AllPaired_example = drop_orphan_tool_items-AllPaired conversation

-- A tenth of the window is left free.
resolves :
    resolve_context_budget (λ w. w) 100
    ≡ some (record { context_window = 100; input_budget_tokens = 90 })
unfolding all_open
resolves = refl

project_context-blocks_example :
    project_context (λ code. none) (λ n. "1") lead (some compacted_twice) stored
    ≡ summary_of (some compacted_twice)
      ++ map
          (show_block (λ code. none) (λ n. "1"))
          (blocks "lead" (filter (is_shown "lead") (behind (some compacted_twice) stored)))
project_context-blocks_example =
    project_context-blocks (λ code. none) (λ n. "1") lead (some compacted_twice) stored refl
      (refl, (refl, (refl, (refl, tt))))

projection-AreRounds : AreRounds projection
unfolding all_open
projection-AreRounds = record {
  one_call = λ group n. ground arith;
  one_output = λ group n. ground arith;
  nothing_else = refl;
}

select_compaction_candidates-rounds_example :
    let result = select_compaction_candidates config 40 projection in
    IsSelection config projection result
    × (count_where (is_call_of "tool:lead:c1") result
        ≡ count_where (is_output_of "tool:lead:c1") result)
select_compaction_candidates-rounds_example =
    select_compaction_candidates-rounds config 40 projection "tool:lead:c1" projection-AreRounds
      refl

-- The tokens have reached the hard stop, and the model fails.
compact_if_needed-hard_stop_iff_example :
    ((compact_if_needed plain six config main_scope 1 projection [] exception no_compactions).0
      ≡ hard_stop)
    ↔ IsStopped six plain config projection [] exception
compact_if_needed-hard_stop_iff_example =
    compact_if_needed-hard_stop_iff plain six config main_scope 1 projection [] exception
      no_compactions

stops :
    (compact_if_needed plain six config main_scope 1 projection [] exception no_compactions).0
    ≡ hard_stop
unfolding all_open
stops = refl

compacts :
    reports plain six main_scope
      (compact_if_needed plain six config main_scope 1 projection []
        (answer "goal")
        no_compactions).0
    ≡ true
unfolding all_open
compacts = refl

compact_if_needed-IsStored_example :
    IsStored plain six main_scope 1
      (select_compaction_candidates config
        (projected_tokens_of six projection [])
        (estimate_projection_tokens six projection))
      (answer "goal")
      no_compactions
      (compact_if_needed plain six config main_scope 1 projection []
        (answer "goal")
        no_compactions).1
compact_if_needed-IsStored_example =
    compact_if_needed-IsStored plain six main_scope config 1 projection [] (answer "goal")
      no_compactions compacts
