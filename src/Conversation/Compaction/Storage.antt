-- ===== src/Conversation/Compaction/Storage.antt =====
-- core/conversation/compaction.py: the decision to compact, with the store of summaries and the
-- locks. What the model answers to the request for a summary is an argument.
use zj_cyber_workbench.Prelude.{
  ltb, leb, if◌then◌else◌, string_eq, ◌==◌, nat_eq, not, ◌&&◌, ◌||◌, length, filter, any, ℕ, zero,
  suc, ◌+◌, String, Bool, true, false, Option, none, some, map_option, List, [], ◌∷◌, ◌++◌, map,
}
use zj_cyber_workbench.Json.{Json, text, array, object, nil, cons, end, field}
use zj_cyber_workbench.Conversation.Formats.{
  TextLibrary, context_summary_item_id, format_context_summary,
}
use zj_cyber_workbench.Conversation.Projection.{ProjectionCompaction, ProjectedItem}
use zj_cyber_workbench.Conversation.Tokens.{estimate_items_tokens}
use zj_cyber_workbench.Conversation.Compaction.{
  CompactionScope, CompactionConfig, CompactionDecision, ContextCompaction, CompactionState,
  same_scope, select_compaction_candidates, candidate_end_message_id, candidate_start_message_id,
}

-- The call of the model raised an exception, or returned a text.
pub data Summary : Type 0 where
  exception : Summary
  answer : String → Summary

pub data Compacted : Type 0 where
  decided : CompactionDecision → Compacted
  hard_stop : Compacted

abbrev pub token_or : ℕ → ℕ → ℕ
token_or zero estimate = estimate
token_or (suc n) estimate = suc n

abbrev pub sum_tokens : List ProjectedItem → ℕ
sum_tokens [] = 0
sum_tokens (item ∷ items) = item.token_estimate + sum_tokens items

-- `_raise_if_hard_stop`
unfoldable pub is_hard_stop : (projected_tokens hard_stop_tokens : ℕ) → Bool
is_hard_stop projected_tokens hard_stop_tokens =
    ltb 0 hard_stop_tokens && leb hard_stop_tokens projected_tokens

unfoldable pub is_locked : CompactionScope → List CompactionScope → Bool
is_locked scope locked = any (same_scope scope) locked

-- `none` is a lock that somebody holds.
unfoldable pub try_lock_compaction :
    CompactionScope → List CompactionScope → Option (List CompactionScope)
try_lock_compaction scope locked = if is_locked scope locked then none else some (scope ∷ locked)

unfoldable pub unlock_compaction : CompactionScope → List CompactionScope → List CompactionScope
unlock_compaction scope locked = filter (λ s. not (same_scope scope s)) locked

abbrev pub of_scope : CompactionScope → ContextCompaction → Bool
of_scope scope row = same_scope row.scope scope

-- `_store_compaction`: the row of the scope is replaced.
unfoldable pub store_compaction :
    ContextCompaction → List ContextCompaction → List ContextCompaction
store_compaction row rows = filter (λ r. not (of_scope row.scope r)) rows ++ (row ∷ [])

-- `ORDER BY end_message_id DESC, id DESC`
abbrev pub is_later : ContextCompaction → ContextCompaction → Bool
is_later a b =
    ltb b.end_message_id a.end_message_id || (a.end_message_id == b.end_message_id && leb b.id a.id)

abbrev pub latest_of : ContextCompaction → Option ContextCompaction → ContextCompaction
latest_of row none = row
latest_of row (some best) = if is_later row best then row else best

unfoldable pub latest_row : List ContextCompaction → Option ContextCompaction
latest_row [] = none
latest_row (row ∷ rows) = some (latest_of row (latest_row rows))

abbrev pub compaction_of : ContextCompaction → ProjectionCompaction
compaction_of row = record {
  id = row.id;
  start_message_id = row.start_message_id;
  end_message_id = row.end_message_id;
  summary_item = row.summary_item;
}

unfoldable pub get_latest_compaction :
    CompactionScope → List ContextCompaction → Option ProjectionCompaction
get_latest_compaction scope rows =
    map_option compaction_of (latest_row (filter (of_scope scope) rows))

abbrev pub decision : CompactionConfig → Bool → ℕ → CompactionDecision
decision cfg should_compact projected_tokens = record {
  should_compact = should_compact;
  decided_projected_tokens = projected_tokens;
  decided_window = cfg.window;
  decided_trigger_tokens = cfg.trigger_tokens;
  decided_target_tokens = cfg.target_tokens;
}

-- The row is written under the lock of its scope, or not at all if somebody holds this.
unfoldable pub store_locked :
    CompactionConfig
    → (projected_tokens : ℕ) → ContextCompaction
    → Option (List CompactionScope)
    → CompactionState
    → Compacted × CompactionState
store_locked cfg projected_tokens row none st = (decided (decision cfg false projected_tokens), st)
store_locked cfg projected_tokens row (some locked) st = (
  decided (decision cfg true projected_tokens),
  record { rows = store_compaction row st.rows; locked = unlock_compaction row.scope locked },
)

module _ (count : Json → ℕ) where
  unfoldable pub with_estimate : ProjectedItem → ProjectedItem
  with_estimate item = record item {
    token_estimate = token_or item.token_estimate (estimate_items_tokens count (item.item ∷ []));
  }

  unfoldable pub estimate_projection_tokens : List ProjectedItem → List ProjectedItem
  estimate_projection_tokens items = map with_estimate items

  unfoldable pub projected_tokens_of : List ProjectedItem → (incoming : List Json) → ℕ
  projected_tokens_of items incoming =
      sum_tokens (estimate_projection_tokens items) + estimate_items_tokens count incoming

module _ (lib : TextLibrary) (count : Json → ℕ) where
  unfoldable pub summary_item_of : String → Json
  summary_item_of summary_text = object (
      field "id" (text context_summary_item_id) (
        field "type" (text "message") (
          field "role" (text "user") (
            field "content"
              (array (
                cons
                  (object (
                    field "type" (text "input_text")
                      (field "text" (text (format_context_summary lib summary_text)) end)))
                  nil))
              end))))

  abbrev pub compaction_row :
      CompactionScope → (id start end_id : ℕ) → List ProjectedItem → String → ContextCompaction
  compaction_row scope id start end_id candidates summary_text = record {
    id = id;
    scope = scope;
    start_message_id = start;
    end_message_id = end_id;
    summary_item = summary_item_of summary_text;
    source_item_count = length candidates;
    source_token_estimate = sum_tokens candidates;
    summary_token_estimate = estimate_items_tokens count (summary_item_of summary_text ∷ []);
  }

  -- From the answer of the model on.
  unfoldable pub with_summary :
      CompactionConfig
      → CompactionScope
      → (id start end_id projected_tokens : ℕ) → List ProjectedItem
      → Summary
      → CompactionState
      → Compacted × CompactionState
  with_summary cfg scope id start end_id projected_tokens candidates exception st =
      if is_hard_stop projected_tokens cfg.hard_stop_tokens
      then (hard_stop, st)
      else (decided (decision cfg false projected_tokens), st)
  with_summary cfg scope id start end_id projected_tokens candidates (answer t) st =
      if lib.strip t == ""
      then (if is_hard_stop projected_tokens cfg.hard_stop_tokens
          then (hard_stop, st)
          else (decided (decision cfg false projected_tokens), st))
      else store_locked cfg projected_tokens (compaction_row scope id start end_id candidates t)
          (try_lock_compaction scope st.locked) st

  -- The candidates have ids, and are enough.
  unfoldable pub with_candidates :
      CompactionConfig
      → CompactionScope
      → (id projected_tokens : ℕ) → List ProjectedItem
      → (start end_id : Option ℕ) → Summary
      → CompactionState
      → Compacted × CompactionState
  with_candidates cfg scope id projected_tokens candidates (some start) (some end_id) summary st =
      if ltb (length candidates) cfg.min_items
      then (decided (decision cfg false projected_tokens), st)
      else with_summary cfg scope id start end_id projected_tokens candidates summary st
  with_candidates cfg scope id projected_tokens candidates _ _ summary st =
      (decided (decision cfg false projected_tokens), st)

  unfoldable pub compact_if_needed :
      CompactionConfig
      → CompactionScope
      → (id : ℕ) → List ProjectedItem
      → (incoming : List Json) → Summary
      → CompactionState
      → Compacted × CompactionState
  compact_if_needed cfg scope id items incoming summary st =
      let estimated = estimate_projection_tokens count items in
      let projected_tokens = projected_tokens_of count items incoming in
      let candidates = select_compaction_candidates cfg projected_tokens estimated in
      if not cfg.enabled || cfg.window == 0
      then (
        decided (record (decision cfg false 0) {
          decided_trigger_tokens = 0;
          decided_target_tokens = 0;
        }),
        st,
      )
      else if ltb projected_tokens cfg.trigger_tokens
      then (decided (decision cfg false projected_tokens), st)
      else with_candidates cfg scope id projected_tokens candidates
          (candidate_start_message_id candidates) (candidate_end_message_id candidates) summary st
