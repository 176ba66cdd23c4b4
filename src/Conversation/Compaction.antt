-- ===== src/Conversation/Compaction.antt =====
-- core/conversation/compaction.py with model/agent/context_compactions.py: older items become a
-- summary. The products of the context window with the ratios of the configuration, which are
-- floats, and the summary of the model are arguments. Log lines are left out.
pub mod Storage
pub mod Groups
pub mod Rounds
pub mod Outcome
pub mod Stored
use zj_cyber_workbench.Prelude.{
  leb, if◌then◌else◌, string_eq, ◌==◌, nat_eq, not, ◌&&◌, length, contains, ℕ, zero, suc, ◌+◌, ◌-◌,
  min, max, String, Bool, Option, none, some, List, [], ◌∷◌, ◌++◌,
}
use zj_cyber_workbench.Json.{Json}
use zj_cyber_workbench.Conversation.Projection.{ProjectedItem}
use zj_cyber_workbench.Conversation.Budget.{has_no, set_remove}
use mathlib.Core.List.{reverse}

pub record CompactionScope : Type 0 where
  pub session_id : String
  pub viewer_agent_code : String
  pub scope_nested_for : String
  pub scope_nested_call_id : String

-- The settings of the runtime, for one context window: `int(context_window * ratio)` for each ratio.
pub record CompactionConfig : Type 0 where
  pub enabled : Bool
  pub window : ℕ
  pub trigger_tokens : ℕ
  pub hard_stop_tokens : ℕ
  pub target_tokens : ℕ
  pub preserve_tokens : ℕ
  pub preserve_recent_items : ℕ
  pub min_items : ℕ
  pub summary_max_tokens : ℕ

pub record CompactionDecision : Type 0 where
  pub should_compact : Bool
  pub decided_projected_tokens : ℕ
  pub decided_window : ℕ
  pub decided_trigger_tokens : ℕ
  pub decided_target_tokens : ℕ

pub record ContextCompaction : Type 0 where
  pub id : ℕ
  pub scope : CompactionScope
  pub start_message_id : ℕ
  pub end_message_id : ℕ
  pub summary_item : Json
  pub source_item_count : ℕ
  pub source_token_estimate : ℕ
  pub summary_token_estimate : ℕ

-- The table, and the scopes whose lock is held.
pub record CompactionState : Type 0 where
  pub rows : List ContextCompaction
  pub locked : List CompactionScope

unfoldable pub same_scope : CompactionScope → CompactionScope → Bool
same_scope a b =
    a.session_id == b.session_id
    && a.viewer_agent_code == b.viewer_agent_code
    && a.scope_nested_for == b.scope_nested_for
    && a.scope_nested_call_id == b.scope_nested_call_id

-- `open_atomic_groups`: a group opens with its first item and closes with the next.
unfoldable pub toggle_group : String → List String → List String
toggle_group group groups =
    if group == ""
    then groups
    else if contains groups group
    then set_remove group groups
    else group ∷ groups

-- The first loop: how many of the reversed items are preserved.
unfoldable pub preserved_count : CompactionConfig → List ProjectedItem → (preserved tokens : ℕ) → ℕ
preserved_count cfg [] preserved tokens = preserved
preserved_count cfg (item ∷ older) preserved tokens =
    let rest = preserved_count cfg older (preserved + 1) (tokens + item.token_estimate) in
    if leb cfg.preserve_recent_items preserved && leb cfg.preserve_tokens tokens
    then preserved
    else rest

-- The variables of the second loop; `complete` is `last_complete_index + 1`.
pub record Candidates : Type 0 where
  pub candidates : List ProjectedItem
  pub removed_tokens : ℕ
  pub open_groups : List String
  pub complete : ℕ

abbrev pub no_candidates : Candidates
no_candidates = record { candidates = []; removed_tokens = 0; open_groups = []; complete = 0 }

unfoldable pub add_candidate : CompactionConfig → ProjectedItem → Candidates → Candidates
add_candidate cfg item c =
    let added = c.candidates ++ (item ∷ []) in
    let groups = toggle_group item.atomic_group c.open_groups in
    record {
      candidates = added;
      removed_tokens = c.removed_tokens + item.token_estimate;
      open_groups = groups;
      complete =
          if has_no groups && leb cfg.min_items (length added) then length added else c.complete;
    }

-- `projected - removed + summary <= target`, where the difference may be negative.
unfoldable pub reaches_target : CompactionConfig → (projected_tokens : ℕ) → Candidates → Bool
reaches_target cfg projected_tokens c =
    leb (projected_tokens + cfg.summary_max_tokens) (cfg.target_tokens + c.removed_tokens)
    && leb cfg.min_items (length c.candidates)
    && has_no c.open_groups

abbrev pub take {ℓ} : {A : Type ℓ} → ℕ → List A → List A
take zero xs = []
take (suc n) [] = []
take (suc n) (x ∷ xs) = x ∷ take n xs

abbrev pub end_candidates : Candidates → List ProjectedItem
end_candidates c = if has_no c.open_groups then c.candidates else take c.complete c.candidates

-- The second loop, over the items that are not preserved.
unfoldable pub collect :
    CompactionConfig → (projected_tokens : ℕ) → List ProjectedItem → Candidates → List ProjectedItem
collect cfg projected_tokens [] c = end_candidates c
collect cfg projected_tokens (item ∷ items) c =
    let added = add_candidate cfg item c in
    let next = if has_no item.source_message_ids then c else added in
    let rest = collect cfg projected_tokens items next in
    if not (has_no item.source_message_ids) && reaches_target cfg projected_tokens added
    then added.candidates
    else rest

unfoldable pub select_compaction_candidates :
    CompactionConfig → (projected_tokens : ℕ) → List ProjectedItem → List ProjectedItem
select_compaction_candidates cfg projected_tokens items =
    let compact_count = length items - preserved_count cfg (reverse items) 0 0 in
    if compact_count == 0
    then []
    else collect cfg projected_tokens (take compact_count items) no_candidates

unfoldable pub candidate_ids : List ProjectedItem → List ℕ
candidate_ids [] = []
candidate_ids (item ∷ items) = item.source_message_ids ++ candidate_ids items

abbrev pub max_of : List ℕ → ℕ
max_of [] = 0
max_of (id ∷ ids) = max id (max_of ids)

abbrev pub min_of : ℕ → List ℕ → ℕ
min_of id [] = id
min_of id (next ∷ ids) = min id (min_of next ids)

abbrev pub max_id : List ℕ → Option ℕ
max_id [] = none
max_id (id ∷ ids) = some (max_of (id ∷ ids))

abbrev pub min_id : List ℕ → Option ℕ
min_id [] = none
min_id (id ∷ ids) = some (min_of id ids)

unfoldable pub candidate_end_message_id : List ProjectedItem → Option ℕ
candidate_end_message_id items = max_id (candidate_ids items)

unfoldable pub candidate_start_message_id : List ProjectedItem → Option ℕ
candidate_start_message_id items = min_id (candidate_ids items)
