-- ===== src/Conversation/Projection.antt =====
-- core/conversation/projection.py: the stored items as one agent sees them. The generator of the
-- source becomes a list, and its variables become a state between two stored items. The dict of
-- tool groups only remembers names that are computed from its keys, so it is left out.
pub mod Blocks
use zj_cyber_workbench.Prelude.{
  ltb, if◌then◌else◌, string_eq, ◌==◌, nat_eq, not, ◌&&◌, ◌||◌, filter, ℕ, String, Bool, true,
  false, Option, none, some, List, [], ◌∷◌, ◌++◌, map,
}
use zj_cyber_workbench.Json.{Json, text, array, object, nil, cons, end, field, get, is_text}
use zj_cyber_workbench.Conversation.{tool_call_id, extract_message_text, is_call, is_output}
use zj_cyber_workbench.Conversation.Formats.{is_internal_context_item}
use Prim.Native.String.{◌++◌ as str_append}

pub record ProjectionCompaction : Type 0 where
  pub id : ℕ
  pub start_message_id : ℕ
  pub end_message_id : ℕ
  pub summary_item : Json

pub record ProjectedItem : Type 0 where
  pub item : Json
  pub source_message_ids : List ℕ
  pub token_estimate : ℕ
  pub atomic_group : String

pub record StoredItem : Type 0 where
  pub message_id : ℕ
  pub owner_code : String
  pub item : Json
  pub nested_for : String
  pub nested_call_id : String

-- The agent that looks, and the call that it is nested in, if any.
pub record Viewer : Type 0 where
  pub viewing_agent_code : String
  pub viewer_nested_for : String
  pub viewer_nested_call_id : String

-- The texts of another agent that are not emitted yet.
pub record Pending : Type 0 where
  pub pending_owner : String
  pub pending_texts : List String
  pub pending_ids : List ℕ

abbrev pub nothing_pending : Pending
nothing_pending = record { pending_owner = ""; pending_texts = []; pending_ids = [] }

unfoldable pub projected : Json → List ℕ → String → ProjectedItem
projected item source_message_ids atomic_group = record {
  item = item;
  source_message_ids = source_message_ids;
  token_estimate = 0;
  atomic_group = atomic_group;
}

unfoldable pub tool_group : StoredItem → String
tool_group stored =
    if (is_call stored.item || is_output stored.item) && not (tool_call_id stored.item == "")
    then str_append "tool:"
        (str_append stored.owner_code (str_append ":" (tool_call_id stored.item)))
    else ""

-- `_OWNER_PRIVATE_TYPES`
unfoldable pub is_owner_private : Json → Bool
is_owner_private item = is_text "reasoning" (get item "type") || is_call item || is_output item

unfoldable pub filter_compacted : List StoredItem → Option ProjectionCompaction → List StoredItem
filter_compacted stored none = stored
filter_compacted stored (some compaction) =
    filter (λ s. ltb compaction.end_message_id s.message_id) stored

unfoldable pub join_texts : List String → String
join_texts [] = ""
join_texts (t ∷ []) = t
join_texts (t ∷ next ∷ texts) = str_append t (str_append "\n\n" (join_texts (next ∷ texts)))

abbrev pub first_id : List ℕ → Option ℕ
first_id [] = none
first_id (id ∷ ids) = some id

abbrev pub last_id : List ℕ → Option ℕ
last_id [] = none
last_id (id ∷ []) = some id
last_id (id ∷ next ∷ ids) = last_id (next ∷ ids)

abbrev pub has_texts : List String → Bool
has_texts [] = false
has_texts _ = true

abbrev pub after_flush : Pending → Pending
after_flush p = if has_texts p.pending_texts then nothing_pending else p

abbrev pub own_item : StoredItem → ProjectedItem
own_item stored = projected stored.item (stored.message_id ∷ []) (tool_group stored)

abbrev pub is_nested_item : Viewer → StoredItem → Bool
is_nested_item viewer stored =
    stored.owner_code == viewer.viewing_agent_code
    && stored.nested_for == viewer.viewer_nested_for
    && stored.nested_call_id == viewer.viewer_nested_call_id

unfoldable pub summary_first : Option ProjectionCompaction → List ProjectedItem → List ProjectedItem
summary_first none items = items
summary_first (some compaction) items =
    projected compaction.summary_item (compaction.start_message_id ∷ compaction.end_message_id ∷ [])
      ""
    ∷ items

-- The names of agents by their codes, and `str` of a message's id.
module _ (name_of : String → Option String) (show : ℕ → String) where
  abbrev pub show_id : Option ℕ → String
  show_id none = ""
  show_id (some id) = show id

  abbrev pub name_or_code : (owner_code : String) → Option String → String
  name_or_code owner_code none = owner_code
  name_or_code owner_code (some name) = name

  unfoldable pub build_foreign_block :
      (source_code source_name : String) → (message_ids : List ℕ) → (texts : List String) → Json
  build_foreign_block source_code source_name message_ids texts =
      let label = str_append "foreign_" (
        str_append source_code (
          str_append "_" (
            str_append (show_id (first_id message_ids))
              (str_append "_" (show_id (last_id message_ids)))))) in
      let body =
        str_append "[other agent: "
          (str_append source_name (str_append "]\n" (join_texts texts))) in
      object (
        field "id" (text label) (
          field "type" (text "message") (
            field "role" (text "assistant") (
              field "content"
                (array (
                  cons
                    (object (
                      field "type" (text "output_text")
                        (field "text" (text body) (field "annotations" (array nil) end))))
                    nil))
                (field "status" (text "completed") end)))))

  abbrev pub foreign_item : Pending → ProjectedItem
  foreign_item p =
      projected
        (build_foreign_block p.pending_owner
          (name_or_code p.pending_owner (name_of p.pending_owner)) p.pending_ids p.pending_texts)
        p.pending_ids ""

  -- `flush`: what is emitted; nothing is pending after it.
  unfoldable pub flush : Pending → List ProjectedItem
  flush p = if has_texts p.pending_texts then foreign_item p ∷ [] else []

  -- A text of another agent joins the pending ones if these are of the same agent.
  unfoldable pub add_foreign : StoredItem → String → Pending → List ProjectedItem × Pending
  add_foreign stored t p =
      let changes = not (p.pending_owner == "") && not (p.pending_owner == stored.owner_code) in
      let emitted = if changes then flush p else [] in
      let kept = if changes then after_flush p else p in
      (
        emitted,
        record {
          pending_owner = stored.owner_code;
          pending_texts = kept.pending_texts ++ (t ∷ []);
          pending_ids = kept.pending_ids ++ (stored.message_id ∷ []);
        },
      )

  -- One round of the loop: what it emits, and what is pending then.
  unfoldable pub visit_stored :
      (viewing_agent_code : String) → StoredItem → Pending → List ProjectedItem × Pending
  visit_stored viewing_agent_code stored p =
      let own = stored.owner_code == viewing_agent_code in
      let role = get stored.item "role" in
      let t = extract_message_text (get stored.item "content") in
      if not (stored.nested_for == "")
      then ([], p)
      else if is_text "user" role
      then (if is_internal_context_item stored.item && not own
          then ([], p)
          else (flush p ++ (own_item stored ∷ []), after_flush p))
      else if own
      then (flush p ++ (own_item stored ∷ []), after_flush p)
      else if is_owner_private stored.item
      then ([], p)
      else if not (is_text "assistant" role) || not (is_text "message" (get stored.item "type"))
      then ([], p)
      else if t == ""
      then ([], p)
      else add_foreign stored t p

  unfoldable pub project_from :
      (viewing_agent_code : String) → List StoredItem → Pending → List ProjectedItem
  project_from viewing_agent_code [] p = flush p
  project_from viewing_agent_code (stored ∷ items) p =
      let round = visit_stored viewing_agent_code stored p in
      round.0 ++ project_from viewing_agent_code items round.1

  unfoldable pub project_visible : Viewer → List StoredItem → List ProjectedItem
  project_visible viewer items =
      if viewer.viewer_nested_for == ""
      then project_from viewer.viewing_agent_code items nothing_pending
      else map own_item (filter (is_nested_item viewer) items)

  unfoldable pub project_context :
      Viewer → Option ProjectionCompaction → List StoredItem → List ProjectedItem
  project_context viewer compaction items =
      summary_first compaction (project_visible viewer (filter_compacted items compaction))
