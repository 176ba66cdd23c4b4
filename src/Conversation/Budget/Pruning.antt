-- ===== src/Conversation/Budget/Pruning.antt =====
-- core/conversation/context_budget.py: what is left of an input that is over its budget.
use zj_cyber_workbench.Conversation.Tokens.{estimate_items_tokens}
use zj_cyber_workbench.Conversation.{is_call}
use zj_cyber_workbench.Prelude.{
  ltb, leb, if◌then◌else◌, Bool-cases, string_eq, ◌==◌, nat_eq, not, ◌&&◌, length, ℕ, ◌+◌, ◌-◌, ◌≤◌,
  ◌<◌, String, ◌≡◌, refl, sym, ap, ◌∙◌, ◌⊎◌, inl, inr, Bool, true, false, Option, List, [], ◌∷◌,
  ◌++◌, arith,
}
use zj_cyber_workbench.Json.{Json}
use zj_cyber_workbench.Conversation.Budget.Bounds.{
  costs, instructions_cost, estimate_model_call_tokens-costs, constrain_model_input-le,
}
use zj_cyber_workbench.Conversation.Budget.Boundaries.{open_calls, build_chunks-closed}
use zj_cyber_workbench.Conversation.Budget.{
  ContextBudget, InputChunk, Constrained, input, failed, budget_notice_item, split_context_anchor,
  has_no, drop_orphan_tool_items, OpenChunk, no_chunk, chunk_items, select_back,
  select_recent_chunks, with_notice, flush_chunk, chunk_item, chunks_from, build_chunks, fits,
  assemble, prune_with, prune_items_to_budget, estimate_instruction_tokens,
  estimate_model_call_tokens, checked, constrain_model_input,
}
use mathlib.Core.List.{append_assoc, append-nil, reverse, reverse-cons, reverse-reverse}

chunk_items-append : (a b : List InputChunk) → chunk_items (a ++ b) ≡ chunk_items a ++ chunk_items b
unfolding chunk_items
chunk_items-append [] b = refl
chunk_items-append (c ∷ a) b =
    ap (λ r. c.items ++ r) (chunk_items-append a b)
    ∙ sym (append_assoc c.items (chunk_items a) (chunk_items b))

select_back-split :
    (budget all : ℕ) (back selected : List InputChunk) (total : ℕ)
    → (older : List InputChunk) × (reverse back ++ selected
        ≡ older ++ (select_back budget all back selected total).0)
unfolding select_back
select_back-split budget all [] selected total = ([], refl)
select_back-split budget all (c ∷ back) selected total =
    elim (Bool-cases (ltb budget (total + c.token_estimate))) [
      | inl e ↦ (reverse (c ∷ back), rw e refl)
      | inr e ↦
          let rest = select_back-split budget all back (c ∷ selected) (total + c.token_estimate) in
          (
            rest.0,
            rw e (
                ap (λ r. r ++ selected) (reverse-cons c back)
                ∙ append_assoc (reverse back) (c ∷ []) selected
                ∙ rest.1),
          )
    ]

nil_of_has_no : (items : List Json) → has_no items ≡ true → items ≡ []
nil_of_has_no [] h = refl
nil_of_has_no (item ∷ items) h = cc

nil_of_has_no_chunks : (chunks : List InputChunk) → has_no chunks ≡ true → chunks ≡ []
nil_of_has_no_chunks [] h = refl
nil_of_has_no_chunks (c ∷ chunks) h = cc

module _ (count : Json → ℕ) where
  flush_chunk-items : (items : List Json) → chunk_items (flush_chunk count items) ≡ items
  unfolding flush_chunk chunk_items
  flush_chunk-items [] = refl
  flush_chunk-items (item ∷ items) = append-nil (item ∷ items)

  close_if-items :
      (closes : Bool) (c : OpenChunk)
      → let round : List InputChunk × OpenChunk =
          if closes then (flush_chunk count c.pending, no_chunk) else ([], c) in
        chunk_items round.0 ++ round.1.pending ≡ c.pending
  unfolding chunk_items
  close_if-items true c =
      append-nil (chunk_items (flush_chunk count c.pending)) ∙ flush_chunk-items c.pending
  close_if-items false c = refl

  -- One round keeps the item: in a chunk that it closes, or pending.
  chunk_item-items :
      (item : Json) (c : OpenChunk)
      → chunk_items (chunk_item count item c).0 ++ (chunk_item count item c).1.pending
        ≡ c.pending ++ (item ∷ [])
  unfolding chunk_item chunk_items
  chunk_item-items item c = elim (Bool-cases (is_call item)) [
    | inl e ↦ ground (arith, e, nil_of_has_no c.pending)
    | inr e ↦ elim (Bool-cases (has_no c.pending)) [
      | inl f ↦ ground (arith, e, f, nil_of_has_no c.pending f)
      | inr f ↦ rw e (rw f (close_if-items _ _))
    ]
  ]

  chunks_from-items :
      (items : List Json) (c : OpenChunk)
      → chunk_items (chunks_from count items c) ≡ c.pending ++ items
  unfolding chunks_from chunk_items
  chunks_from-items [] c = flush_chunk-items c.pending ∙ sym (append-nil c.pending)
  chunks_from-items (item ∷ items) c =
      let round = chunk_item count item c in
      chunk_items-append round.0 (chunks_from count items round.1)
      ∙ ap (λ r. chunk_items round.0 ++ r) (chunks_from-items items round.1)
      ∙ sym (append_assoc (chunk_items round.0) round.1.pending items)
      ∙ ap (λ r. r ++ items) (chunk_item-items item c)
      ∙ append_assoc c.pending (item ∷ []) items

  -- The chunks hold the items in their order.
  build_chunks-items : (items : List Json) → chunk_items (build_chunks count items) ≡ items
  unfolding build_chunks
  build_chunks-items items = chunks_from-items items no_chunk

select_recent_chunks-split :
    (chunks : List InputChunk) (budget : ℕ)
    → (older : List InputChunk) × (newer : List InputChunk) × (chunks ≡ older ++ newer)
      × ((select_recent_chunks chunks budget).0 ≡ chunk_items newer)
unfolding select_recent_chunks
select_recent_chunks-split chunks budget =
    let split = select_back-split budget (length chunks) (reverse chunks) [] 0 in
    (
      split.0,
      _,
      sym (reverse-reverse chunks) ∙ sym (append-nil (reverse (reverse chunks))) ∙ split.1,
      refl,
    )

-- A suffix that is empty only if the whole is.
has_no-split :
    (suffix whole older : List Json)
    → whole ≡ older ++ suffix
    → (has_no suffix ≡ true → whole ≡ [])
    → has_no suffix ≡ has_no whole
has_no-split [] whole older e h = ap has_no (sym (h refl))
has_no-split (item ∷ suffix) whole [] e h = ap has_no (sym e)
has_no-split (item ∷ suffix) whole (o ∷ older) e h = ap has_no (sym e)

-- What may stand before the recent items: the summary that led the input, and the notice.
abbrev pub IsFront : List Json → List Json → Type 0
IsFront items front =
    (front ≡ [])
    ⊎ (front ≡ budget_notice_item ∷ [])
    ⊎ (front ≡ (split_context_anchor items).0)
    ⊎ (front ≡ (split_context_anchor items).0 ++ (budget_notice_item ∷ []))

-- `result` keeps a contiguous end of the input, without orphans. No call before it is open there.
pub record IsPruning (items result : List Json) : Type 0 where
  pub front : List Json
  pub omitted : List Json
  pub recent : List Json
  pub framed : IsFront items front
  pub split : (split_context_anchor items).1 ≡ omitted ++ recent
  pub closed : open_calls [] omitted ≡ []
  pub not_all : has_no recent ≡ has_no (split_context_anchor items).1
  pub kept : result ≡ drop_orphan_tool_items (front ++ recent)

module _ (count : Json → ℕ) where
  omitted-closed :
      (tail : List Json) (older newer : List InputChunk)
      → build_chunks count tail ≡ older ++ newer
      → has_no (chunk_items newer) ≡ has_no tail
      → open_calls [] (chunk_items older) ≡ []
  unfolding chunk_items open_calls
  omitted-closed tail older (c ∷ newer) e n = build_chunks-closed count tail older c newer e
  omitted-closed tail older [] e n = ap (open_calls []) (
      ap chunk_items (sym (append-nil older))
      ∙ ap chunk_items (sym e)
      ∙ build_chunks-items count tail
      ∙ nil_of_has_no tail (sym n))

  flush_chunk-nil : (items : List Json) → flush_chunk count items ≡ [] → items ≡ []
  unfolding flush_chunk
  flush_chunk-nil [] h = refl
  flush_chunk-nil (item ∷ items) h = cc

  nil_of_build_chunks : (items : List Json) → has_no (build_chunks count items) ≡ true → items ≡ []
  unfolding chunk_items
  nil_of_build_chunks items h =
      sym (build_chunks-items count items)
      ∙ ap chunk_items (nil_of_has_no_chunks (build_chunks count items) h)

  abbrev FrontOf : (anchor suffix result front : List Json) → Type 0
  FrontOf anchor suffix result front =
      ((front ≡ [])
        ⊎ (front ≡ budget_notice_item ∷ [])
        ⊎ (front ≡ anchor)
        ⊎ (front ≡ anchor ++ (budget_notice_item ∷ [])))
      × (result ≡ drop_orphan_tool_items (front ++ suffix))

  anchored-FrontOf :
      (anchor suffix : List Json) (omitted : ℕ)
      → (front : List Json) × FrontOf anchor suffix
          (drop_orphan_tool_items (anchor ++ with_notice omitted suffix))
          front
  anchored-FrontOf anchor suffix omitted = elim (Bool-cases (omitted == 0)) [
    | inl e ↦ (anchor, (inr (inr (inl refl)), rw e refl))
    | inr e ↦ (
      anchor ++ (budget_notice_item ∷ []),
      (
        inr (inr (inr refl)),
        rw e (
            ap drop_orphan_tool_items (sym (append_assoc anchor (budget_notice_item ∷ []) suffix))),
      ),
    )
  ]

  unanchored-FrontOf :
      (anchor suffix : List Json) (omitted : ℕ)
      → (front : List Json) × FrontOf anchor suffix
          (drop_orphan_tool_items (with_notice omitted suffix))
          front
  unanchored-FrontOf anchor suffix omitted = elim (Bool-cases (omitted == 0)) [
    | inl e ↦ ([], (inl refl, rw e refl))
    | inr e ↦ (budget_notice_item ∷ [], (inr (inl refl), rw e refl))
  ]

  input_inj : (a b : List Json) → input a ≡ input b → b ≡ a
  input_inj a b h = cc

  -- Whichever way the candidate is assembled, it is a front before the suffix.
  assemble-FrontOf :
      (item_budget : ℕ) (anchor suffix result : List Json) (omitted : ℕ)
      → assemble count item_budget anchor suffix omitted ≡ input result
      → (front : List Json) × FrontOf anchor suffix result front
  unfolding assemble
  assemble-FrontOf item_budget anchor suffix result omitted h =
      elim (Bool-cases
        (fits count item_budget (drop_orphan_tool_items (anchor ++ with_notice omitted suffix)))) [
          | inl e ↦
              let f = anchored-FrontOf anchor suffix omitted in
              (f.0, (f.1.0, input_inj _ _ (ground (arith, e, h)) ∙ f.1.1))
          | inr e ↦
              let f = unanchored-FrontOf anchor suffix omitted in
              (f.0, (f.1.0, input_inj _ _ (ground (arith, e, h)) ∙ f.1.1))
        ]

  prune_with-IsPruning :
      (items anchor : List Json) (item_budget suffix_budget : ℕ) (result : List Json)
      → (anchor ≡ []) ⊎ (anchor ≡ (split_context_anchor items).0)
      → prune_with count item_budget anchor (split_context_anchor items).1 suffix_budget
        ≡ input result
      → IsPruning items result
  unfolding prune_with
  prune_with-IsPruning items anchor item_budget suffix_budget result a h =
      let tail = (split_context_anchor items).1 in
      let chunks = build_chunks count tail in
      let selection = select_recent_chunks chunks suffix_budget in
      let split = select_recent_chunks-split chunks suffix_budget in
      let whole : tail ≡ chunk_items split.0 ++ selection.0 =
        sym (build_chunks-items count tail)
        ∙ ap chunk_items split.2
        ∙ chunk_items-append split.0 split.1
        ∙ ap (λ r. chunk_items split.0 ++ r) (sym split.3) in
      let not_all =
        has_no-split selection.0 tail (chunk_items split.0) whole
          (λ e. nil_of_build_chunks tail (ground (arith, e, h))) in
      let f =
        assemble-FrontOf item_budget anchor selection.0 result selection.1 (ground (arith, h)) in
      record {
        front = f.0;
        omitted = chunk_items split.0;
        recent = selection.0;
        framed = ground (arith, a, f.1.0);
        split = whole;
        closed = omitted-closed tail split.0 split.1 split.2 (ap has_no (sym split.3) ∙ not_all);
        not_all = not_all;
        kept = f.1.1;
      }

  prune_items_to_budget-IsPruning :
      (items result : List Json) (item_budget : ℕ)
      → prune_items_to_budget count items item_budget ≡ input result
      → IsPruning items result
  unfolding prune_items_to_budget
  prune_items_to_budget-IsPruning items result item_budget h =
      let anchor = (split_context_anchor items).0 in
      elim (Bool-cases (
        leb item_budget (
          estimate_items_tokens count anchor
          + estimate_items_tokens count (budget_notice_item ∷ []))
        && not (has_no anchor))) [
          | inl e ↦
              prune_with-IsPruning items [] item_budget
                (item_budget - estimate_items_tokens count (budget_notice_item ∷ [])) result
                (inl refl) (ground (arith, e, h))
          | inr e ↦
              prune_with-IsPruning items anchor item_budget
                (item_budget
                  - estimate_items_tokens count anchor
                  - estimate_items_tokens count (budget_notice_item ∷ []))
                result (inr refl) (ground (arith, e, h))
        ]

  checked-input :
      (budget : ContextBudget) (instructions : Option String) (pruned : Constrained)
      (result : List Json)
      → checked count budget instructions pruned ≡ input result
      → pruned ≡ input result
  checked-input budget instructions (failed error) result h = h
  checked-input budget instructions (input items) result h = ground (arith, h)

  pub constrain_model_input-IsPruning :
      (items result : List Json) (instructions : Option String) (budget : ContextBudget)
      → budget.input_budget_tokens < costs count items + instructions_cost count instructions
      → constrain_model_input count items instructions budget ≡ input result
      → IsPruning items result
        × (costs count result + instructions_cost count instructions ≤ budget.input_budget_tokens)
  unfolding constrain_model_input
  constrain_model_input-IsPruning items result instructions budget over h =
      let over_estimate : budget.input_budget_tokens
          < estimate_model_call_tokens count items instructions =
        rw (estimate_model_call_tokens-costs count items instructions) over in
      (
        prune_items_to_budget-IsPruning items result
            (budget.input_budget_tokens - estimate_instruction_tokens count instructions)
            (checked-input budget instructions
              (prune_items_to_budget count items
                (budget.input_budget_tokens - estimate_instruction_tokens count instructions))
              result (ground (arith, over_estimate, h))),
        constrain_model_input-le count items result instructions budget h,
      )
