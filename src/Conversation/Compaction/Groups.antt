-- ===== src/Conversation/Compaction/Groups.antt =====
-- core/conversation/compaction.py: which items are compacted.
use zj_cyber_workbench.Prelude.{
  Bool-cases, string_eq, ◌==◌, nat_eq, not, length, filter, length-append, ℕ, zero, suc, ◌+◌, ◌-◌,
  ◌≤◌, min, String, ◌≡◌, refl, sym, ap, ◌∙◌, inl, inr, Bool, true, List, [], ◌∷◌, ◌++◌, arith,
}
use zj_cyber_workbench.Conversation.Projection.{ProjectedItem}
use zj_cyber_workbench.Conversation.Budget.{has_no}
use zj_cyber_workbench.Conversation.Compaction.{
  CompactionConfig, toggle_group, preserved_count, Candidates, no_candidates, add_candidate,
  reaches_target, take, end_candidates, collect, select_compaction_candidates,
}
use mathlib.Core.List.{append_assoc, append-nil, reverse, reverse-cons}

-- The groups that are open behind some items.
abbrev pub groups_after : List String → List ProjectedItem → List String
groups_after groups [] = groups
groups_after groups (item ∷ items) = groups_after (toggle_group item.atomic_group groups) items

abbrev pub is_sourced : ProjectedItem → Bool
is_sourced item = not (has_no item.source_message_ids)

groups_after-append :
    (groups : List String) (items : List ProjectedItem) (item : ProjectedItem)
    → groups_after groups (items ++ (item ∷ []))
      ≡ toggle_group item.atomic_group (groups_after groups items)
groups_after-append groups [] item = refl
groups_after-append groups (i ∷ items) item =
    groups_after-append (toggle_group i.atomic_group groups) items item

take-append :
    (n : ℕ) (items more : List ProjectedItem)
    → n ≤ length items
    → take n (items ++ more) ≡ take n items
take-append zero items more h = refl
take-append (suc n) [] more h = absurd (omega (arith, h))
take-append (suc n) (i ∷ items) more h =
    ap (λ r. i ∷ r) (take-append n items more (omega (arith, h)))

take-all : (items : List ProjectedItem) → take (length items) items ≡ items
take-all [] = refl
take-all (i ∷ items) = ap (λ r. i ∷ r) (take-all items)

take-split :
    (n : ℕ) (items : List ProjectedItem)
    → (rest : List ProjectedItem) × (items ≡ take n items ++ rest)
take-split zero items = (items, refl)
take-split (suc n) [] = ([], refl)
take-split (suc n) (i ∷ items) =
    let split = take-split n items in (split.0, ap (λ r. i ∷ r) split.1)

-- What the second loop keeps between two items.
pub record IsCollected (c : Candidates) : Type 0 where
  pub groups : c.open_groups ≡ groups_after [] c.candidates
  pub closed : groups_after [] (take c.complete c.candidates) ≡ []
  pub complete_le : c.complete ≤ length c.candidates

nil_of_has_no : (groups : List String) → has_no groups ≡ true → groups ≡ []
nil_of_has_no [] h = refl
nil_of_has_no (g ∷ groups) h = cc

add_candidate-IsCollected :
    (cfg : CompactionConfig) (item : ProjectedItem) (c : Candidates)
    → IsCollected c
    → IsCollected (add_candidate cfg item c)
unfolding add_candidate
add_candidate-IsCollected cfg item c h =
    let added = c.candidates ++ (item ∷ []) in
    let e = groups_after-append [] c.candidates item in
    record {
      groups = sym (e ∙ ap (toggle_group item.atomic_group) (sym h.groups));
      closed = ground (
        arith,
        e,
        h.groups,
        h.closed,
        take-all added,
        take-append c.complete c.candidates (item ∷ []) h.complete_le,
        nil_of_has_no (toggle_group item.atomic_group c.open_groups),
      );
      complete_le = ground (arith, h.complete_le, length-append c.candidates (item ∷ []));
    }

end_candidates-closed : (c : Candidates) → IsCollected c → groups_after [] (end_candidates c) ≡ []
end_candidates-closed c h = ground (arith, h.groups, h.closed, nil_of_has_no c.open_groups)

collect-closed :
    (cfg : CompactionConfig) (projected_tokens : ℕ) (items : List ProjectedItem) (c : Candidates)
    → IsCollected c
    → groups_after [] (collect cfg projected_tokens items c) ≡ []
unfolding collect reaches_target
collect-closed cfg projected_tokens [] c h = end_candidates-closed c h
collect-closed cfg projected_tokens (item ∷ items) c h =
    let added = add_candidate-IsCollected cfg item c h in
    elim (Bool-cases (has_no item.source_message_ids)) [
      | inl e ↦ rw e (collect-closed cfg projected_tokens items c h)
      | inr e ↦ ground (
        arith,
        e,
        added.groups,
        nil_of_has_no (add_candidate cfg item c).open_groups,
        collect-closed cfg projected_tokens items (add_candidate cfg item c) added,
      )
    ]

-- The candidates so far, and the items that may still join them, begin with the result.
abbrev Begins : List ProjectedItem → List ProjectedItem → Type 0
Begins whole result = (rest : List ProjectedItem) × (whole ≡ result ++ rest)

end_candidates-Begins : (c : Candidates) → Begins c.candidates (end_candidates c)
end_candidates-Begins c = elim (Bool-cases (has_no c.open_groups)) [
  | inl e ↦ ([], rw e (sym (append-nil c.candidates)))
  | inr e ↦ let split = take-split c.complete c.candidates in (split.0, rw e split.1)
]

add_candidate-candidates :
    (cfg : CompactionConfig) (item : ProjectedItem) (c : Candidates)
    → (add_candidate cfg item c).candidates ≡ c.candidates ++ (item ∷ [])
unfolding add_candidate
add_candidate-candidates cfg item c = refl

collect-Begins :
    (cfg : CompactionConfig) (projected_tokens : ℕ) (items : List ProjectedItem) (c : Candidates)
    → Begins (c.candidates ++ filter is_sourced items) (collect cfg projected_tokens items c)
unfolding collect filter
collect-Begins cfg projected_tokens [] c =
    let e = end_candidates-Begins c in (e.0, append-nil c.candidates ∙ e.1)
collect-Begins cfg projected_tokens (item ∷ items) c =
    let added = add_candidate cfg item c in
    let joins : c.candidates ++ (item ∷ filter is_sourced items)
        ≡ added.candidates ++ filter is_sourced items =
      sym (append_assoc c.candidates (item ∷ []) (filter is_sourced items))
      ∙ sym (ap (λ r. r ++ filter is_sourced items) (add_candidate-candidates cfg item c)) in
    elim (Bool-cases (has_no item.source_message_ids)) [
      | inl e ↦ let ih = collect-Begins cfg projected_tokens items c in (ih.0, rw e ih.1)
      | inr e ↦ elim (Bool-cases (reaches_target cfg projected_tokens added)) [
        | inl f ↦ (filter is_sourced items, rw e (rw f joins))
        | inr f ↦
            let ih = collect-Begins cfg projected_tokens items added in
            (ih.0, rw e (rw f (joins ∙ ih.1)))
      ]
    ]

length-reverse : (items : List ProjectedItem) → length (reverse items) ≡ length items
length-reverse [] = refl
length-reverse (i ∷ items) =
    ap length (reverse-cons i items)
    ∙ omega (arith, length-append (reverse items) (i ∷ []), length-reverse items)

preserved_count_bounds :
    (cfg : CompactionConfig) (back : List ProjectedItem) (preserved tokens : ℕ)
    → (min cfg.preserve_recent_items (preserved + length back)
        ≤ preserved_count cfg back preserved tokens)
      × (preserved_count cfg back preserved tokens ≤ preserved + length back)
unfolding preserved_count
preserved_count_bounds cfg [] preserved tokens = ground arith
preserved_count_bounds cfg (item ∷ back) preserved tokens =
    ground (arith, preserved_count_bounds cfg back (preserved + 1) (tokens + item.token_estimate))

-- `result` is the beginning of the items that are not preserved, less those without a source.
pub record IsSelection (cfg : CompactionConfig) (items result : List ProjectedItem) : Type 0 where
  pub compacted : ℕ
  pub rest : List ProjectedItem
  pub recent_kept : compacted + min cfg.preserve_recent_items (length items) ≤ length items
  pub prefix : filter is_sourced (take compacted items) ≡ result ++ rest

-- They are the oldest items, and the configured number of recent items is not among them.
pub select_compaction_candidates-IsSelection :
    (cfg : CompactionConfig) (projected_tokens : ℕ) (items : List ProjectedItem)
    → IsSelection cfg items (select_compaction_candidates cfg projected_tokens items)
unfolding select_compaction_candidates filter
select_compaction_candidates-IsSelection cfg projected_tokens items =
    let kept = preserved_count cfg (reverse items) 0 0 in
    let bounds = preserved_count_bounds cfg (reverse items) 0 0 in
    let begins =
      collect-Begins cfg projected_tokens (take (length items - kept) items) no_candidates in
    elim (Bool-cases (length items - kept == 0)) [
      | inl e ↦
          rw e (record { compacted = 0; rest = []; recent_kept = ground arith; prefix = refl })
      | inr e ↦ rw e (record {
        compacted = length items - kept;
        rest = begins.0;
        recent_kept = ground (arith, bounds, length-reverse items);
        prefix = begins.1;
      })
    ]

pub select_compaction_candidates-closed :
    (cfg : CompactionConfig) (projected_tokens : ℕ) (items : List ProjectedItem)
    → groups_after [] (select_compaction_candidates cfg projected_tokens items) ≡ []
unfolding select_compaction_candidates
select_compaction_candidates-closed cfg projected_tokens items =
    let kept = preserved_count cfg (reverse items) 0 0 in
    let collected =
      collect-closed cfg projected_tokens (take (length items - kept) items) no_candidates
        (record { groups = refl; closed = refl; complete_le = omega arith }) in
    elim (Bool-cases (length items - kept == 0)) [ inl e ↦ rw e refl | inr e ↦ rw e collected ]
