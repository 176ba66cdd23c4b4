-- ===== src/Conversation/Budget/Bounds.antt =====
-- core/conversation/context_budget.py: the tokens of what is sent to the model.
use zj_cyber_workbench.Prelude.{
  leb, if◌then◌else◌, Bool-cases, string_eq, ◌==◌, nat_eq, ℕ, ◌+◌, ◌-◌, ◌/◌, ◌≤◌, ◌<◌, min, max,
  String, ◌≡◌, refl, sym, inl, inr, Option, none, some, List, [], ◌∷◌, arith,
}
use zj_cyber_workbench.Json.{Json, text, object, end, field}
use zj_cyber_workbench.Conversation.Tokens.{summary_safe_value, estimate_items_tokens}
use zj_cyber_workbench.Conversation.Budget.{
  ContextBudget, Constrained, input, failed, resolve_context_budget, prune_items_to_budget,
  estimate_instruction_tokens, estimate_model_call_tokens, checked, constrain_model_input,
}

module _ (count : Json → ℕ) where
  -- What an item costs: four tokens more than JSON prints of it, without the bytes of images.
  abbrev pub cost : Json → ℕ
  cost item = 4 + count (summary_safe_value item)

  abbrev pub costs : List Json → ℕ
  costs [] = 0
  costs (item ∷ items) = cost item + costs items

  -- The instructions cost what a message of the system with them does.
  abbrev pub instructions_cost : Option String → ℕ
  instructions_cost none = 0
  instructions_cost (some instructions) =
      if instructions == ""
      then 0
      else cost (
          object (
            field "type" (text "message")
              (field "role" (text "system") (field "content" (text instructions) end))))

  pub estimate_items_tokens-costs :
      (items : List Json) → estimate_items_tokens count items ≡ costs items
  unfolding estimate_items_tokens
  estimate_items_tokens-costs [] = refl
  estimate_items_tokens-costs (item ∷ items) = omega (arith, estimate_items_tokens-costs items)

  estimate_instruction_tokens-cost :
      (instructions : Option String)
      → estimate_instruction_tokens count instructions ≡ instructions_cost instructions
  unfolding estimate_instruction_tokens estimate_items_tokens
  estimate_instruction_tokens-cost none = refl
  estimate_instruction_tokens-cost (some instructions) = grind arith

  pub estimate_model_call_tokens-costs :
      (items : List Json) (instructions : Option String)
      → estimate_model_call_tokens count items instructions
        ≡ costs items + instructions_cost instructions
  unfolding estimate_model_call_tokens
  estimate_model_call_tokens-costs items instructions =
      omega
        (arith, estimate_items_tokens-costs items, estimate_instruction_tokens-cost instructions)

  checked-le :
      (budget : ContextBudget) (instructions : Option String) (pruned : Constrained)
      (result : List Json)
      → checked count budget instructions pruned ≡ input result
      → estimate_model_call_tokens count result instructions ≤ budget.input_budget_tokens
  checked-le budget instructions (failed error) result h = ground (arith, h)
  checked-le budget instructions (input items) result h = ground (arith, h)

  -- Whatever is sent costs no more than the budget, instructions included.
  pub constrain_model_input-le :
      (items result : List Json) (instructions : Option String) (budget : ContextBudget)
      → constrain_model_input count items instructions budget ≡ input result
      → costs result + instructions_cost instructions ≤ budget.input_budget_tokens
  unfolding constrain_model_input
  constrain_model_input-le items result instructions budget h =
      rw (sym (estimate_model_call_tokens-costs result instructions))
        (elim (Bool-cases
          (leb (estimate_model_call_tokens count items instructions) budget.input_budget_tokens)) [
            | inl e ↦ ground (arith, e, h)
            | inr e ↦
                checked-le budget instructions
                  (prune_items_to_budget count items
                    (budget.input_budget_tokens - estimate_instruction_tokens count instructions))
                  result (ground (arith, e, h))
          ])

-- The budget of a window that is not empty is positive and leaves a tenth of the window free, 2048
-- tokens at most, unless the window is a single token.
pub resolve_context_budget_bounds :
    (scaled : ℕ → ℕ) (window : ℕ) (budget : ContextBudget)
    → resolve_context_budget scaled window ≡ some budget
    → 1 < window
    → (1 ≤ budget.input_budget_tokens)
      × (budget.input_budget_tokens + min 2048 (max 1 (window / 10)) ≤ window)
unfolding resolve_context_budget
resolve_context_budget_bounds scaled window budget h k = ground (arith, h, k)
