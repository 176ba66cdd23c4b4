-- ===== src/Conversation/Compaction/Rounds.antt =====
-- core/conversation/compaction.py: the calls of tools and their outputs among what is compacted.
use zj_cyber_workbench.Prelude.{
  if◌then◌else◌, string_eq, ◌==◌, nat_eq, not, ◌&&◌, filter, contains, count_where, ℕ, zero, suc,
  ◌+◌, ◌≤◌, String, ◌≡◌, refl, sym, ap, ◌∙◌, Bool, true, false, Option, none, some, List, [], ◌∷◌,
  ◌++◌, arith,
}
use zj_cyber_workbench.Json.{Json, get, is_text}
use zj_cyber_workbench.Conversation.{is_call, is_output}
use zj_cyber_workbench.Conversation.Projection.{ProjectedItem}
use zj_cyber_workbench.Conversation.Budget.{set_remove}
use zj_cyber_workbench.Conversation.Compaction.{
  CompactionConfig, toggle_group, take, select_compaction_candidates,
}
use zj_cyber_workbench.Conversation.Compaction.Groups.{
  groups_after, is_sourced, IsSelection, select_compaction_candidates-IsSelection,
  select_compaction_candidates-closed,
}

abbrev pub is_in_group : String → ProjectedItem → Bool
is_in_group group item = item.atomic_group == group

-- The calls, respectively the outputs, of one atomic group.
abbrev pub is_call_of : String → ProjectedItem → Bool
is_call_of group item = is_in_group group item && is_call item.item

abbrev pub is_output_of : String → ProjectedItem → Bool
is_output_of group item = is_in_group group item && is_output item.item

-- An item that has a group and is neither a call nor an output.
abbrev pub is_stray : ProjectedItem → Bool
is_stray item =
    not (item.atomic_group == "") && not (is_call item.item) && not (is_output item.item)

-- A group is that of one call at most, and of one output at most, and of nothing else.
pub record AreRounds (items : List ProjectedItem) : Type 0 where
  pub one_call : (group : String) → (group == "") ≡ false → count_where (is_call_of group) items ≤ 1
  pub one_output :
      (group : String) → (group == "") ≡ false → count_where (is_output_of group) items ≤ 1
  pub nothing_else : count_where is_stray items ≡ 0

-- How often a flag that changes `n` times stands in the end.
abbrev flips : ℕ → Bool → Bool
flips zero b = b
flips (suc n) b = flips n (not b)

contains-removed :
    (group other : String) (groups : List String)
    → contains (set_remove other groups) group ≡ (contains groups group && not (group == other))
unfolding set_remove filter contains
contains-removed group other [] = refl
contains-removed group other (g ∷ groups) = ground (
  arith,
  string_eq.same_iff group g,
  string_eq.same_iff g other,
  string_eq.same_iff group other,
  contains-removed group other groups,
)

contains-toggled :
    (group other : String) (groups : List String)
    → (group == "") ≡ false
    → contains (toggle_group other groups) group
      ≡ (if other == group then not (contains groups group) else contains groups group)
unfolding toggle_group contains
contains-toggled group other groups n = ground (
  arith,
  n,
  string_eq.same_iff other "",
  string_eq.same_iff group "",
  string_eq.same_iff other group,
  string_eq.same_iff group other,
  ap (contains groups),
  contains-removed group other groups,
)

-- A group is open behind some items if an odd number of them has it.
contains-groups_after :
    (group : String) (items : List ProjectedItem) (groups : List String)
    → (group == "") ≡ false
    → contains (groups_after groups items) group
      ≡ flips (count_where (is_in_group group) items) (contains groups group)
unfolding count_where filter
contains-groups_after group [] groups n = refl
contains-groups_after group (item ∷ items) groups n =
    contains-groups_after group items (toggle_group item.atomic_group groups) n
    ∙ ap (flips (count_where (is_in_group group) items))
        (contains-toggled group item.atomic_group groups n)
    ∙ ground arith

count_where-take :
    (p : ProjectedItem → Bool) (n : ℕ) (items : List ProjectedItem)
    → count_where p (filter is_sourced (take n items)) ≤ count_where p items
unfolding count_where filter
count_where-take p zero items = omega arith
count_where-take p (suc n) [] = omega arith
count_where-take p (suc n) (item ∷ items) = ground (arith, count_where-take p n items)

count_where-first :
    (p : ProjectedItem → Bool) (a b : List ProjectedItem) → count_where p a ≤ count_where p (a ++ b)
unfolding count_where filter
count_where-first p [] b = omega arith
count_where-first p (item ∷ a) b = ground (arith, count_where-first p a b)

text_exclusive :
    (value : Option Json)
    → is_text "function_call" value ≡ true
    → is_text "function_call_output" value ≡ false
unfolding is_text
text_exclusive none h = refl
text_exclusive (some (Json.text t)) h = rw ((string_eq.same_iff t "function_call").0 h) refl
text_exclusive (some Json.null) h = refl
text_exclusive (some (Json.bool b)) h = refl
text_exclusive (some (Json.number n)) h = refl
text_exclusive (some (Json.array xs)) h = refl
text_exclusive (some (Json.object fs)) h = refl

call_exclusive : (item : Json) → is_call item ≡ true → is_output item ≡ false
unfolding is_call is_output
call_exclusive item h = text_exclusive (get item "type") h

-- The items of a group are its calls and its outputs.
count_where-rounds :
    (group : String) (items : List ProjectedItem)
    → (group == "") ≡ false
    → count_where is_stray items ≡ 0
    → count_where (is_in_group group) items
      ≡ count_where (is_call_of group) items + count_where (is_output_of group) items
unfolding count_where filter
count_where-rounds group [] n h = refl
count_where-rounds group (item ∷ items) n h = ground (
  arith,
  n,
  h,
  call_exclusive item.item,
  string_eq.same_iff item.atomic_group group,
  string_eq.same_iff item.atomic_group "",
  string_eq.same_iff group "",
  count_where-rounds group items n,
)

even_rounds :
    (calls outputs n : ℕ)
    → n ≡ calls + outputs
    → calls ≤ 1
    → outputs ≤ 1
    → flips n false ≡ false
    → calls ≡ outputs
even_rounds calls outputs zero e h k f = omega (arith, e)
even_rounds calls outputs (suc zero) e h k f = ground (arith, f)
even_rounds calls outputs (suc (suc n)) e h k f = omega (arith, e, h, k)

-- The candidates for a summary leave no tool call apart from its output: for each atomic group,
-- they have its call exactly if they have its output. They are the oldest items, and the configured
-- number of recent items is not among them. A group of the items is that of one call at most, and of
-- one output at most, and of nothing else.
pub select_compaction_candidates-rounds :
    (cfg : CompactionConfig) (projected_tokens : ℕ) (items : List ProjectedItem) (group : String)
    → AreRounds items
    → (group == "") ≡ false
    → let result = select_compaction_candidates cfg projected_tokens items in
      IsSelection cfg items result
      × (count_where (is_call_of group) result ≡ count_where (is_output_of group) result)
unfolding contains
select_compaction_candidates-rounds cfg projected_tokens items group h n =
    let result = select_compaction_candidates cfg projected_tokens items in
    let selection = select_compaction_candidates-IsSelection cfg projected_tokens items in
    let le : (p : ProjectedItem → Bool) → count_where p result ≤ count_where p items = λ p. omega (
      arith,
      count_where-first p result selection.rest,
      ap (count_where p) selection.prefix,
      count_where-take p selection.compacted items,
    ) in
    (
      selection,
      even_rounds _ _ _
          (count_where-rounds group result n (omega (arith, le is_stray, h.nothing_else)))
          (omega (arith, le (is_call_of group), h.one_call group n))
          (omega (arith, le (is_output_of group), h.one_output group n))
          (sym (contains-groups_after group result [] n)
            ∙ ap (λ groups. contains groups group)
                (select_compaction_candidates-closed cfg projected_tokens items)),
    )
