-- ===== src/Conversation/Projection/Blocks.antt =====
-- core/conversation/projection.py: the projection as runs of visible items.
use mathlib.Core.List.{append_assoc, map-append}
use zj_cyber_workbench.Prelude.{
  leb, if◌then◌else◌, Bool-cases, string_eq, ◌==◌, nat_eq, not, ◌&&◌, ◌||◌, filter, ℕ, String, ◌≡◌,
  refl, sym, ap, ◌∙◌, inl, inr, Bool, true, false, Option, none, some, List, [], ◌∷◌, ◌++◌, map,
  arith,
}
use zj_cyber_workbench.Json.{Json, null, bool, number, text, array, object, get, is_text}
use zj_cyber_workbench.Conversation.{extract_message_text, is_call, is_output}
use zj_cyber_workbench.Conversation.Formats.{is_internal_context_item}
use zj_cyber_workbench.Conversation.Projection.{
  ProjectionCompaction, ProjectedItem, StoredItem, Viewer, Pending, projected, is_owner_private,
  filter_compacted, after_flush, own_item, summary_first, foreign_item, flush, add_foreign,
  visit_stored, project_from, project_visible, project_context,
}

-- What an agent is shown: nothing of nested calls; its own items; the messages of users, unless
-- they are internal context of another agent; the texts of other agents' messages.
unfoldable pub is_shown : (viewing_agent_code : String) → StoredItem → Bool
is_shown v s =
    let role = get s.item "role" in
    s.nested_for == ""
    && (s.owner_code == v
        || (if is_text "user" role
            then not (is_internal_context_item s.item)
            else is_text "assistant" role
              && is_text "message" (get s.item "type")
              && not (extract_message_text (get s.item "content") == "")))

-- Items that stay as they are, or the run of one other agent's messages.
pub data Block : Type 0 where
  as_is : StoredItem → Block
  run_of : (owner : String) → List StoredItem → Block

abbrev pub stays : (viewing_agent_code : String) → StoredItem → Bool
stays v s = is_text "user" (get s.item "role") || s.owner_code == v

abbrev pub join_run : StoredItem → List Block → List Block
join_run s [] = run_of s.owner_code (s ∷ []) ∷ []
join_run s (as_is t ∷ bs) = run_of s.owner_code (s ∷ []) ∷ as_is t ∷ bs
join_run s (run_of owner ss ∷ bs) =
    if owner == s.owner_code
    then run_of owner (s ∷ ss) ∷ bs
    else run_of s.owner_code (s ∷ []) ∷ run_of owner ss ∷ bs

-- Neighbouring messages of the same other agent form one run.
unfoldable pub blocks : (viewing_agent_code : String) → List StoredItem → List Block
blocks v [] = []
blocks v (s ∷ items) =
    let rest = blocks v items in if stays v s then as_is s ∷ rest else join_run s rest

abbrev pub text_of : StoredItem → String
text_of s = extract_message_text (get s.item "content")

abbrev pub id_of : StoredItem → ℕ
id_of s = s.message_id

-- Other agents' items have an owner.
abbrev pub AllOwned : List StoredItem → Type 0
AllOwned [] = Unit
AllOwned (s ∷ items) = ((s.owner_code == "") ≡ false) × AllOwned items

-- The summary of what has been compacted, if anything has.
abbrev pub summary_of : Option ProjectionCompaction → List ProjectedItem
summary_of none = []
summary_of (some c) =
    record {
      item = c.summary_item;
      source_message_ids = c.start_message_id ∷ c.end_message_id ∷ [];
      token_estimate = 0;
      atomic_group = "";
    }
    ∷ []

-- The stored items whose ids are greater than the last one that has been compacted.
abbrev pub behind : Option ProjectionCompaction → List StoredItem → List StoredItem
behind none items = items
behind (some c) [] = []
behind (some c) (s ∷ items) =
    let rest = behind (some c) items in if leb s.message_id c.end_message_id then rest else s ∷ rest

filter_compacted-behind :
    (compaction : Option ProjectionCompaction) (items : List StoredItem)
    → filter_compacted items compaction ≡ behind compaction items
unfolding filter_compacted filter
filter_compacted-behind none items = refl
filter_compacted-behind (some c) [] = refl
filter_compacted-behind (some c) (s ∷ items) =
    ground (arith, filter_compacted-behind (some c) items)

summary_first-summary_of :
    (compaction : Option ProjectionCompaction) (items : List ProjectedItem)
    → summary_first compaction items ≡ summary_of compaction ++ items
unfolding summary_first projected
summary_first-summary_of none items = refl
summary_first-summary_of (some c) items = refl

message_type :
    (v : Option Json)
    → is_text "message" v ≡ true
    → (is_text "reasoning" v || is_text "function_call" v || is_text "function_call_output" v)
      ≡ false
unfolding is_text
message_type none h = refl
message_type (some (text t)) h = rw ((string_eq.same_iff t "message").0 h) refl
message_type (some null) h = refl
message_type (some (bool b)) h = refl
message_type (some (number n)) h = refl
message_type (some (array xs)) h = refl
message_type (some (object fs)) h = refl

message-is_owner_private :
    (s : Json) → is_text "message" (get s "type") ≡ true → is_owner_private s ≡ false
unfolding is_owner_private is_call is_output
message-is_owner_private s h = message_type (get s "type") h

AllOwned-filter :
    (p : StoredItem → Bool) (items : List StoredItem) → AllOwned items → AllOwned (filter p items)
unfolding filter
AllOwned-filter p [] h = tt
AllOwned-filter p (s ∷ items) h = ground (arith, h, AllOwned-filter p items h.1)

AllOwned-compacted :
    (compaction : Option ProjectionCompaction) (items : List StoredItem)
    → AllOwned items
    → AllOwned (filter_compacted items compaction)
unfolding filter_compacted
AllOwned-compacted none items h = h
AllOwned-compacted (some c) items h = AllOwned-filter _ items h

module _ (name_of : String → Option String) (show : ℕ → String) where
  abbrev pub pending_run : (owner : String) → List StoredItem → Pending
  pending_run owner ss = record {
    pending_owner = owner;
    pending_texts = map text_of ss;
    pending_ids = map id_of ss;
  }

  unfoldable pub show_block : Block → ProjectedItem
  show_block (as_is s) = own_item s
  show_block (run_of owner ss) = foreign_item name_of show (pending_run owner ss)

  -- The pending run before some blocks.
  abbrev attach : (owner : String) → List StoredItem → List Block → List Block
  attach owner [] bs = bs
  attach owner (s ∷ ss) [] = run_of owner (s ∷ ss) ∷ []
  attach owner (s ∷ ss) (as_is t ∷ bs) = run_of owner (s ∷ ss) ∷ as_is t ∷ bs
  attach owner (s ∷ ss) (run_of other ts ∷ bs) =
      if other == owner
      then run_of owner ((s ∷ ss) ++ ts) ∷ bs
      else run_of owner (s ∷ ss) ∷ run_of other ts ∷ bs

  attach-as_is :
      (owner : String) (ss : List StoredItem) (t : StoredItem) (bs : List Block)
      → map show_block (attach owner ss (as_is t ∷ bs))
        ≡ flush name_of show (pending_run owner ss) ++ (own_item t ∷ map show_block bs)
  unfolding show_block flush
  attach-as_is owner [] t bs = refl
  attach-as_is owner (s ∷ ss) t bs = refl

  -- A message of the same agent joins the pending run.
  attach-join_run :
      (owner : String) (s : StoredItem) (ss : List StoredItem) (t : StoredItem) (bs : List Block)
      → owner ≡ t.owner_code
      → attach owner (s ∷ ss) (join_run t bs) ≡ attach owner ((s ∷ ss) ++ (t ∷ [])) bs
  attach-join_run owner s ss t [] e = ground (arith, e, string_eq.same_iff t.owner_code owner)
  attach-join_run owner s ss t (as_is u ∷ bs) e =
      ground (arith, e, string_eq.same_iff t.owner_code owner)
  attach-join_run owner s ss t (run_of other ts ∷ bs) e = ground (
    arith,
    e,
    string_eq.same_iff t.owner_code owner,
    string_eq.same_iff other owner,
    string_eq.same_iff other t.owner_code,
    append_assoc ss (t ∷ []) ts,
  )

  -- A message of another one comes after it.
  attach-other_run :
      (owner : String) (s : StoredItem) (ss : List StoredItem) (t : StoredItem) (bs : List Block)
      → (owner == t.owner_code) ≡ false
      → attach owner (s ∷ ss) (join_run t bs)
        ≡ run_of owner (s ∷ ss) ∷ attach t.owner_code (t ∷ []) bs
  attach-other_run owner s ss t [] e =
      ground
        (arith, e, string_eq.same_iff t.owner_code owner, string_eq.same_iff owner t.owner_code)
  attach-other_run owner s ss t (as_is u ∷ bs) e =
      ground
        (arith, e, string_eq.same_iff t.owner_code owner, string_eq.same_iff owner t.owner_code)
  attach-other_run owner s ss t (run_of other ts ∷ bs) e = ground (
    arith,
    e,
    string_eq.same_iff t.owner_code owner,
    string_eq.same_iff owner t.owner_code,
    string_eq.same_iff other t.owner_code,
    string_eq.same_iff other owner,
  )

  -- The state of the loop: the pending run is empty, or has an owner.
  abbrev HasOwner : (owner : String) → List StoredItem → Type 0
  HasOwner owner [] = owner ≡ ""
  HasOwner owner (s ∷ ss) = (owner == "") ≡ false

  visit-hidden :
      (v : String) (t : StoredItem) (p : Pending)
      → is_shown v t ≡ false
      → visit_stored name_of show v t p ≡ ([], p)
  unfolding visit_stored is_shown
  visit-hidden v t p h = ground (arith, h)

  visit-stays :
      (v : String) (t : StoredItem) (p : Pending)
      → is_shown v t ≡ true
      → stays v t ≡ true
      → visit_stored name_of show v t p ≡ (flush name_of show p ++ (own_item t ∷ []), after_flush p)
  unfolding visit_stored is_shown
  visit-stays v t p h k = ground (arith, h, k)

  visit-joins :
      (v : String) (t : StoredItem) (p : Pending)
      → is_shown v t ≡ true
      → stays v t ≡ false
      → visit_stored name_of show v t p ≡ add_foreign name_of show t (text_of t) p
  unfolding visit_stored is_shown
  visit-joins v t p h k = ground (arith, h, k, message-is_owner_private t.item)

  after_flush-run :
      (owner : String) (ss : List StoredItem)
      → HasOwner owner ss
      → after_flush (pending_run owner ss) ≡ pending_run "" []
  after_flush-run owner [] h = ap (λ o. pending_run o []) h
  after_flush-run owner (s ∷ ss) h = refl

  attach-single :
      (t : StoredItem) (bs : List Block) → attach t.owner_code (t ∷ []) bs ≡ join_run t bs
  attach-single t [] = refl
  attach-single t (as_is u ∷ bs) = refl
  attach-single t (run_of other ts ∷ bs) = ground (arith, string_eq.same_iff other t.owner_code)

  -- A new text ends the run of another agent, or is added to the pending one.
  add_foreign-first :
      (t : StoredItem)
      → add_foreign name_of show t (text_of t) (pending_run "" [])
        ≡ ([], pending_run t.owner_code (t ∷ []))
  unfolding add_foreign
  add_foreign-first t = refl

  add_foreign-same :
      (owner : String) (s : StoredItem) (ss : List StoredItem) (t : StoredItem)
      → owner ≡ t.owner_code
      → add_foreign name_of show t (text_of t) (pending_run owner (s ∷ ss))
        ≡ ([], pending_run owner ((s ∷ ss) ++ (t ∷ [])))
  unfolding add_foreign
  add_foreign-same owner s ss t e = ground (
    arith,
    e,
    string_eq.same_iff owner t.owner_code,
    map-append text_of ss (t ∷ []),
    map-append id_of ss (t ∷ []),
  )

  add_foreign-other :
      (owner : String) (s : StoredItem) (ss : List StoredItem) (t : StoredItem)
      → (owner == "") ≡ false
      → (owner == t.owner_code) ≡ false
      → add_foreign name_of show t (text_of t) (pending_run owner (s ∷ ss))
        ≡ (flush name_of show (pending_run owner (s ∷ ss)), pending_run t.owner_code (t ∷ []))
  unfolding add_foreign
  add_foreign-other owner s ss t h e = ground (arith, h, e)

  abbrev shown_blocks : (v owner : String) → (ss items : List StoredItem) → List ProjectedItem
  shown_blocks v owner ss items =
      map show_block (attach owner ss (blocks v (filter (is_shown v) items)))

  abbrev coming : (v : String) → List StoredItem → List Block
  coming v items = blocks v (filter (is_shown v) items)

  coming-hidden :
      (v : String) (t : StoredItem) (items : List StoredItem)
      → is_shown v t ≡ false
      → coming v (t ∷ items) ≡ coming v items
  unfolding filter
  coming-hidden v t items e = ap (blocks v) (ground (arith, e))

  coming-shown :
      (v : String) (t : StoredItem) (items : List StoredItem)
      → is_shown v t ≡ true
      → coming v (t ∷ items)
        ≡ (if stays v t then as_is t ∷ coming v items else join_run t (coming v items))
  unfolding filter blocks
  coming-shown v t items e = rw e refl

  -- One round: the visit of `t`, when it is known to give `round`.
  project_from-round :
      (v : String) (t : StoredItem) (items : List StoredItem) (p : Pending)
      (round : List ProjectedItem × Pending)
      → visit_stored name_of show v t p ≡ round
      → project_from name_of show v (t ∷ items) p
        ≡ round.0 ++ project_from name_of show v items round.1
  unfolding project_from
  project_from-round v t items p round e = ap (λ r. r.0 ++ project_from name_of show v items r.1) e

  project_from-end :
      (v owner : String) (ss : List StoredItem)
      → project_from name_of show v [] (pending_run owner ss) ≡ map show_block (attach owner ss [])
  unfolding project_from flush show_block
  project_from-end v owner [] = refl
  project_from-end v owner (s ∷ ss) = refl

  -- From any pending run on, the loop gives the blocks of the shown items.
  abbrev GivesBlocks : (v : String) → List StoredItem → Type 0
  GivesBlocks v items =
      (owner : String) (ss : List StoredItem)
      → HasOwner owner ss
      → project_from name_of show v items (pending_run owner ss)
        ≡ map show_block (attach owner ss (coming v items))

  coming-stays :
      (v : String) (t : StoredItem) (items : List StoredItem)
      → is_shown v t ≡ true
      → stays v t ≡ true
      → coming v (t ∷ items) ≡ as_is t ∷ coming v items
  coming-stays v t items e f = rw (coming-shown v t items e) (rw f refl)

  coming-joins :
      (v : String) (t : StoredItem) (items : List StoredItem)
      → is_shown v t ≡ true
      → stays v t ≡ false
      → coming v (t ∷ items) ≡ join_run t (coming v items)
  coming-joins v t items e f = rw (coming-shown v t items e) (rw f refl)

  project_from-stays :
      (v owner : String) (ss : List StoredItem) (t : StoredItem) (items : List StoredItem)
      → GivesBlocks v items
      → HasOwner owner ss
      → is_shown v t ≡ true
      → stays v t ≡ true
      → project_from name_of show v (t ∷ items) (pending_run owner ss)
        ≡ map show_block (attach owner ss (coming v (t ∷ items)))
  project_from-stays v owner ss t items ih h e f = rw (coming-stays v t items e f) (
      rw (attach-as_is owner ss t (coming v items)) (
        project_from-round v t items _ _ (visit-stays v t (pending_run owner ss) e f)
        ∙ append_assoc (flush name_of show (pending_run owner ss)) (own_item t ∷ []) _
        ∙ ap (λ r. flush name_of show (pending_run owner ss) ++ (own_item t ∷ r))
            (ap (project_from name_of show v items) (after_flush-run owner ss h) ∙ ih "" [] refl)))

  project_from-first :
      (v : String) (t : StoredItem) (items : List StoredItem)
      → GivesBlocks v items
      → (t.owner_code == "") ≡ false
      → is_shown v t ≡ true
      → stays v t ≡ false
      → project_from name_of show v (t ∷ items) (pending_run "" [])
        ≡ map show_block (coming v (t ∷ items))
  project_from-first v t items ih k e f =
      project_from-round v t items _ _
        (visit-joins v t (pending_run "" []) e f ∙ add_foreign-first t)
      ∙ ih t.owner_code (t ∷ []) k
      ∙ ap (λ bs. map show_block bs)
          (attach-single t (coming v items) ∙ sym (coming-joins v t items e f))

  project_from-more :
      (v owner : String) (s : StoredItem) (ss : List StoredItem) (t : StoredItem)
      (items : List StoredItem)
      → GivesBlocks v items
      → (owner == "") ≡ false
      → (t.owner_code == "") ≡ false
      → is_shown v t ≡ true
      → stays v t ≡ false
      → project_from name_of show v (t ∷ items) (pending_run owner (s ∷ ss))
        ≡ map show_block (attach owner (s ∷ ss) (coming v (t ∷ items)))
  unfolding flush show_block
  project_from-more v owner s ss t items ih h k e f = elim (Bool-cases (owner == t.owner_code)) [
    | inl q ↦
        let same = (string_eq.same_iff owner t.owner_code).0 q in
        project_from-round v t items _ _
          (visit-joins v t (pending_run owner (s ∷ ss)) e f ∙ add_foreign-same owner s ss t same)
        ∙ ih owner ((s ∷ ss) ++ (t ∷ [])) h
        ∙ ap (λ bs. map show_block bs)
            (sym (attach-join_run owner s ss t (coming v items) same)
              ∙ ap (attach owner (s ∷ ss)) (sym (coming-joins v t items e f)))
    | inr q ↦
        project_from-round v t items _ _
          (visit-joins v t (pending_run owner (s ∷ ss)) e f ∙ add_foreign-other owner s ss t h q)
        ∙ ap (λ r. foreign_item name_of show (pending_run owner (s ∷ ss)) ∷ r)
            (ih t.owner_code (t ∷ []) k)
        ∙ ap (λ bs. map show_block bs)
            (sym (attach-other_run owner s ss t (coming v items) q)
              ∙ ap (attach owner (s ∷ ss)) (sym (coming-joins v t items e f)))
  ]

  project_from-joins :
      (v owner : String) (ss : List StoredItem) (t : StoredItem) (items : List StoredItem)
      → GivesBlocks v items
      → HasOwner owner ss
      → (t.owner_code == "") ≡ false
      → is_shown v t ≡ true
      → stays v t ≡ false
      → project_from name_of show v (t ∷ items) (pending_run owner ss)
        ≡ map show_block (attach owner ss (coming v (t ∷ items)))
  project_from-joins v owner [] t items ih h k e f =
      ap (λ o. project_from name_of show v (t ∷ items) (pending_run o [])) h
      ∙ project_from-first v t items ih k e f
  project_from-joins v owner (s ∷ ss) t items ih h k e f =
      project_from-more v owner s ss t items ih h k e f

  project_from-GivesBlocks :
      (v : String) (items : List StoredItem) → AllOwned items → GivesBlocks v items
  unfolding blocks filter
  project_from-GivesBlocks v [] k owner ss h = project_from-end v owner ss
  project_from-GivesBlocks v (t ∷ items) k owner ss h = elim (Bool-cases (is_shown v t)) [
    | inl e ↦ elim (Bool-cases (stays v t)) [
      | inl f ↦ project_from-stays v owner ss t items (project_from-GivesBlocks v items k.1) h e f
      | inr f ↦
          project_from-joins v owner ss t items (project_from-GivesBlocks v items k.1) h k.0 e f
    ]
    | inr e ↦
        project_from-round v t items _ _ (visit-hidden v t (pending_run owner ss) e)
        ∙ project_from-GivesBlocks v items k.1 owner ss h
        ∙ ap (λ bs. map show_block (attach owner ss bs)) (sym (coming-hidden v t items e))
  ]

  pub project_context-blocks :
      (viewer : Viewer) (compaction : Option ProjectionCompaction) (items : List StoredItem)
      → (viewer.viewer_nested_for == "") ≡ true
      → AllOwned items
      → project_context name_of show viewer compaction items
        ≡ summary_of compaction
          ++ map show_block (
              blocks viewer.viewing_agent_code
                (filter (is_shown viewer.viewing_agent_code) (behind compaction items)))
  unfolding project_context project_visible
  project_context-blocks viewer compaction items n h = rw n (
      summary_first-summary_of compaction _
      ∙ ap (λ shown. summary_of compaction ++ shown)
          (project_from-GivesBlocks viewer.viewing_agent_code (filter_compacted items compaction)
              (AllOwned-compacted compaction items h) "" [] refl
            ∙ ap
                (λ kept. map show_block (
                  blocks viewer.viewing_agent_code
                    (filter (is_shown viewer.viewing_agent_code) kept)))
                (filter_compacted-behind compaction items)))
