-- ===== src/Conversation/Compaction/Outcome.antt =====
-- core/conversation/compaction.py: what a compaction leaves behind, and when it is an error.
use zj_cyber_workbench.Prelude.{
  leb, if◌then◌else◌, string_eq, ◌==◌, nat_eq, not, ◌&&◌, length, ℕ, zero, suc, ◌+◌, ◌≤◌, ◌<◌,
  String, ◌≡◌, refl, ◌≢◌, ◌↔◌, Bool, true, false, Option, none, some, List, [], ◌∷◌, arith,
}
use zj_cyber_workbench.Json.{Json}
use zj_cyber_workbench.Conversation.Formats.{TextLibrary}
use zj_cyber_workbench.Conversation.Projection.{ProjectedItem}
use zj_cyber_workbench.Conversation.Tokens.{estimate_items_tokens}
use zj_cyber_workbench.Conversation.Budget.Bounds.{cost, costs, estimate_items_tokens-costs}
use zj_cyber_workbench.Conversation.Budget.{has_no}
use zj_cyber_workbench.Conversation.Compaction.{
  CompactionScope, CompactionConfig, CompactionState, select_compaction_candidates, candidate_ids,
  max_id, min_id, candidate_end_message_id, candidate_start_message_id,
}
use zj_cyber_workbench.Conversation.Compaction.Storage.{
  Summary, exception, answer, hard_stop, token_or, sum_tokens, is_hard_stop, store_locked,
  with_estimate, estimate_projection_tokens, projected_tokens_of, with_summary, with_candidates,
  compact_if_needed,
}

abbrev pub has_id : Option ℕ → Bool
has_id none = false
has_id (some id) = true

has_id-max : (ids : List ℕ) → has_id (max_id ids) ≡ not (has_no ids)
has_id-max [] = refl
has_id-max (id ∷ ids) = refl

has_id-min : (ids : List ℕ) → has_id (min_id ids) ≡ not (has_no ids)
has_id-min [] = refl
has_id-min (id ∷ ids) = refl

module _ (count : Json → ℕ) where
  -- An item that is projected costs its estimate, if it has one.
  abbrev pub projected_costs : List ProjectedItem → ℕ
  projected_costs [] = 0
  projected_costs (p ∷ items) =
      (if p.token_estimate == 0 then cost count p.item else p.token_estimate)
      + projected_costs items

  abbrev pub context_cost : List ProjectedItem → (incoming : List Json) → ℕ
  context_cost items incoming = projected_costs items + costs count incoming

  token_or_cases : (estimate n : ℕ) → token_or n estimate ≡ (if n == 0 then estimate else n)
  token_or_cases estimate zero = refl
  token_or_cases estimate (suc n) = ground arith

  sum_tokens-projected_costs :
      (items : List ProjectedItem)
      → sum_tokens (estimate_projection_tokens count items) ≡ projected_costs items
  unfolding estimate_projection_tokens with_estimate
  sum_tokens-projected_costs [] = refl
  sum_tokens-projected_costs (p ∷ items) = grind (
    arith,
    sum_tokens-projected_costs items,
    token_or_cases (estimate_items_tokens count (p.item ∷ [])) p.token_estimate,
    estimate_items_tokens-costs count (p.item ∷ []),
  )

  projected_tokens_of-context_cost :
      (items : List ProjectedItem) (incoming : List Json)
      → projected_tokens_of count items incoming ≡ context_cost items incoming
  unfolding projected_tokens_of
  projected_tokens_of-context_cost items incoming =
      omega (arith, sum_tokens-projected_costs items, estimate_items_tokens-costs count incoming)

  abbrev pub selected : CompactionConfig → List ProjectedItem → List Json → List ProjectedItem
  selected cfg items incoming =
      select_compaction_candidates cfg (context_cost items incoming)
        (estimate_projection_tokens count items)

  -- A summary is asked for, none is given, and the context has reached the hard stop.
  pub record IsStopped (lib : TextLibrary) (cfg : CompactionConfig) (items : List ProjectedItem)
      (incoming : List Json) (summary : Summary) : Type 0 where
    pub enabled : cfg.enabled ≡ true
    pub window : 0 < cfg.window
    pub triggered : cfg.trigger_tokens ≤ context_cost items incoming
    pub stop_set : 0 < cfg.hard_stop_tokens
    pub stop_reached : cfg.hard_stop_tokens ≤ context_cost items incoming
    pub with_ids : candidate_ids (selected cfg items incoming) ≢ []
    pub enough : cfg.min_items ≤ length (selected cfg items incoming)
    pub unusable : (t : String) → summary ≡ answer t → lib.strip t ≡ ""

  -- The guards of the code, in its terms.
  abbrev is_due : CompactionConfig → List ProjectedItem → List Json → Bool
  is_due cfg items incoming =
      let projected_tokens = projected_tokens_of count items incoming in
      let candidates =
        select_compaction_candidates cfg projected_tokens
          (estimate_projection_tokens count items) in
      cfg.enabled
      && not (cfg.window == 0)
      && leb cfg.trigger_tokens projected_tokens
      && has_id (candidate_start_message_id candidates)
      && has_id (candidate_end_message_id candidates)
      && leb cfg.min_items (length candidates)

abbrev is_unusable : TextLibrary → Summary → Bool
is_unusable lib exception = true
is_unusable lib (answer t) = lib.strip t == ""

is_unusable_iff :
    (lib : TextLibrary) (summary : Summary)
    → (is_unusable lib summary ≡ true) ↔ ((t : String) → summary ≡ answer t → lib.strip t ≡ "")
is_unusable_iff lib exception = (λ h t e. ground (arith, e), λ h. refl)
is_unusable_iff lib (answer t) = (
  λ h s e. ground (arith, h, e, string_eq.same_iff (lib.strip t) ""),
  λ h. (string_eq.same_iff (lib.strip t) "").1 (h t refl),
)

has_no_iff : (ids : List ℕ) → (not (has_no ids) ≡ true) ↔ (ids ≢ [])
has_no_iff [] = (λ h. ground (arith, h), λ h. absurd (h refl))
has_no_iff (id ∷ ids) = (λ h e. ground (arith, e), λ h. refl)

module _ (lib : TextLibrary) (count : Json → ℕ) where
  guards_iff :
      (cfg : CompactionConfig) (scope : CompactionScope) (id : ℕ) (items : List ProjectedItem)
      (incoming : List Json) (summary : Summary) (st : CompactionState)
      → ((compact_if_needed lib count cfg scope id items incoming summary st).0 ≡ hard_stop) ↔ (
          (is_due count cfg items incoming ≡ true)
          × (is_unusable lib summary ≡ true)
          × (is_hard_stop (projected_tokens_of count items incoming) cfg.hard_stop_tokens ≡ true))
  unfolding compact_if_needed with_candidates with_summary store_locked
  guards_iff cfg scope id items incoming exception st = ground arith
  guards_iff cfg scope id items incoming (answer t) st = ground arith

  guards-IsStopped :
      (cfg : CompactionConfig) (items : List ProjectedItem) (incoming : List Json)
      (summary : Summary)
      → ((is_due count cfg items incoming ≡ true)
          × (is_unusable lib summary ≡ true)
          × (is_hard_stop (projected_tokens_of count items incoming) cfg.hard_stop_tokens ≡ true))
        ↔ IsStopped count lib cfg items incoming summary
  unfolding is_hard_stop candidate_start_message_id candidate_end_message_id
  guards-IsStopped cfg items incoming summary =
      let ids = candidate_ids (selected count cfg items incoming) in
      let starts = has_id-min ids in
      let ends = has_id-max ids in
      rw (projected_tokens_of-context_cost count items incoming) (
        λ h. record {
          enabled = ground (arith, h);
          window = ground (arith, h);
          triggered = ground (arith, h);
          stop_set = ground (arith, h);
          stop_reached = ground (arith, h);
          with_ids = (has_no_iff ids).0 (ground (arith, h, starts));
          enough = ground (arith, h);
          unusable = (is_unusable_iff lib summary).0 h.1;
        },
        λ s. (
          ground (
            arith,
            s.enabled,
            s.window,
            s.triggered,
            s.enough,
            starts,
            ends,
            (has_no_iff ids).1 s.with_ids,
          ),
          (is_unusable_iff lib summary).1 s.unusable,
          ground (arith, s.stop_set, s.stop_reached),
        ),
      )

  -- The call is an error exactly when the compaction is on and has a window, the cost of the context
  -- with what comes in has reached the trigger and a hard stop that is set, there are enough
  -- candidates and they have ids, and the model gives no summary, or one that is blank.
  pub compact_if_needed-hard_stop_iff :
      (cfg : CompactionConfig) (scope : CompactionScope) (id : ℕ) (items : List ProjectedItem)
      (incoming : List Json) (summary : Summary) (st : CompactionState)
      → ((compact_if_needed lib count cfg scope id items incoming summary st).0 ≡ hard_stop)
        ↔ IsStopped count lib cfg items incoming summary
  compact_if_needed-hard_stop_iff cfg scope id items incoming summary st =
      let guards = guards_iff cfg scope id items incoming summary st in
      let stopped = guards-IsStopped cfg items incoming summary in
      (λ h. stopped.0 (guards.0 h), λ s. guards.1 (stopped.1 s))
