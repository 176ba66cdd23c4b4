-- ===== src/Conversation/Compaction/Stored.antt =====
-- core/conversation/compaction.py: the table of summaries after one is stored.
use zj_cyber_workbench.Prelude.{
  ltb, leb, Bool-cases, string_eq, ◌==◌, nat_eq, not, ◌||◌, length, All, filter, any, In, ℕ, ◌≤◌,
  String, ◌≡◌, refl, ap, subst, ◌↔◌, inl, inr, Bool, true, false, Option, none, some, map_option,
  List, [], ◌∷◌, ◌++◌, arith,
}
use zj_cyber_workbench.Json.{Json, text, array, object, nil, cons, end, field}
use zj_cyber_workbench.Conversation.Formats.{
  TextLibrary, context_summary_item_id, format_context_summary,
}
use zj_cyber_workbench.Conversation.Projection.{ProjectedItem}
use zj_cyber_workbench.Conversation.Compaction.{
  CompactionScope, CompactionConfig, ContextCompaction, CompactionState, same_scope,
  select_compaction_candidates, candidate_ids, max_of, min_of, max_id, min_id,
  candidate_end_message_id, candidate_start_message_id,
}
use zj_cyber_workbench.Conversation.Compaction.Storage.{
  Summary, exception, answer, Compacted, decided, hard_stop, is_locked, try_lock_compaction,
  unlock_compaction, of_scope, store_compaction, latest_row, compaction_of, get_latest_compaction,
  store_locked, estimate_projection_tokens, projected_tokens_of, summary_item_of, compaction_row,
  with_summary, with_candidates, compact_if_needed,
}

same_scope_iff : (a b : CompactionScope) → (same_scope a b ≡ true) ↔ (a ≡ b)
unfolding same_scope
same_scope_iff a b = ground (
  arith,
  string_eq.same_iff a.session_id b.session_id,
  string_eq.same_iff a.viewer_agent_code b.viewer_agent_code,
  string_eq.same_iff a.scope_nested_for b.scope_nested_for,
  string_eq.same_iff a.scope_nested_call_id b.scope_nested_call_id,
)

-- An element that `p` does not hold for replaces elements that it does not hold for.
filter-replace_other {ℓ} :
    {A : Type ℓ} (p q : A → Bool) (a : A) (l : List A)
    → ((b : A) → p b ≡ true → q b ≡ false)
    → p a ≡ false
    → filter p (filter (λ b. not (q b)) l ++ (a ∷ [])) ≡ filter p l
unfolding filter
filter-replace_other p q a [] k h = ground (arith, h)
filter-replace_other p q a (b ∷ l) k h = ground (arith, k b, h, filter-replace_other p q a l k h)

-- An element that `p` holds for replaces all of them.
filter-replace {ℓ} :
    {A : Type ℓ} (p q : A → Bool) (a : A) (l : List A)
    → ((b : A) → p b ≡ true → q b ≡ true)
    → p a ≡ true
    → filter p (filter (λ b. not (q b)) l ++ (a ∷ [])) ≡ a ∷ []
unfolding filter
filter-replace p q a [] k h = ground (arith, h)
filter-replace p q a (b ∷ l) k h = ground (arith, k b, h, filter-replace p q a l k h)

same_scope_refl : (a : CompactionScope) → same_scope a a ≡ true
same_scope_refl a = (same_scope_iff a a).1 refl

store_compaction-own :
    (row : ContextCompaction) (rows : List ContextCompaction)
    → filter (of_scope row.scope) (store_compaction row rows) ≡ row ∷ []
unfolding store_compaction
store_compaction-own row rows =
    filter-replace (of_scope row.scope) (of_scope row.scope) row rows (λ r h. h)
      (same_scope_refl row.scope)

of_scope-other :
    (a b : CompactionScope) (r : ContextCompaction)
    → same_scope a b ≡ false
    → of_scope b r ≡ true
    → of_scope a r ≡ false
of_scope-other a b r n h =
    let e = (same_scope_iff r.scope b).0 h in
    elim (Bool-cases (of_scope a r)) [
      | inl g ↦ ground (arith, n, g, h, same_scope_iff a b, (same_scope_iff r.scope a).0 g, e)
      | inr g ↦ g
    ]

store_compaction-other :
    (scope : CompactionScope) (row : ContextCompaction) (rows : List ContextCompaction)
    → same_scope row.scope scope ≡ false
    → filter (of_scope scope) (store_compaction row rows) ≡ filter (of_scope scope) rows
unfolding store_compaction
store_compaction-other scope row rows n =
    filter-replace_other (of_scope scope) (of_scope row.scope) row rows
      (λ r. of_scope-other row.scope scope r n) n

is_locked-unlock :
    (scope : CompactionScope) (locked : List CompactionScope)
    → is_locked scope (unlock_compaction scope locked) ≡ false
unfolding is_locked unlock_compaction filter any
is_locked-unlock scope [] = refl
is_locked-unlock scope (s ∷ locked) = ground (arith, is_locked-unlock scope locked)

-- The message of a user that holds a summary, as the model is shown it.
abbrev pub summary_message : TextLibrary → String → Json
summary_message lib summary_text = object (
    field "id" (text context_summary_item_id) (
      field "type" (text "message") (
        field "role" (text "user") (
          field "content"
            (array (
              cons
                (object (
                  field "type" (text "input_text")
                    (field "text" (text (format_context_summary lib summary_text)) end)))
                nil))
            end))))

-- `id` is one of the ids, and none is less, respectively none is greater.
abbrev pub IsLeast : ℕ → List ℕ → Type 0
IsLeast id ids = In id ids × All (λ i. id ≤ i) ids

abbrev pub IsGreatest : ℕ → List ℕ → Type 0
IsGreatest id ids = In id ids × All (λ i. i ≤ id) ids

All-le : (m n : ℕ) (ids : List ℕ) → m ≤ n → All (λ i. n ≤ i) ids → All (λ i. m ≤ i) ids
All-le m n [] h k = tt
All-le m n (id ∷ ids) h k = (omega (arith, h, k.0), All-le m n ids h k.1)

All-ge : (m n : ℕ) (ids : List ℕ) → m ≤ n → All (λ i. i ≤ m) ids → All (λ i. i ≤ n) ids
All-ge m n [] h k = tt
All-ge m n (id ∷ ids) h k = (omega (arith, h, k.0), All-ge m n ids h k.1)

min_of-IsLeast : (id : ℕ) (ids : List ℕ) → IsLeast (min_of id ids) (id ∷ ids)
min_of-IsLeast id [] = (inl refl, (omega arith, tt))
min_of-IsLeast id (next ∷ ids) =
    let rest = min_of-IsLeast next ids in
    (
      elim (Bool-cases (leb id (min_of next ids))) [
        | inl e ↦ inl (ground (arith, e))
        | inr e ↦ inr (subst (λ m. In m (next ∷ ids)) (ground (arith, e)) rest.0)
      ],
      (omega arith, All-le _ (min_of next ids) (next ∷ ids) (omega arith) rest.1),
    )

max_of-IsGreatest : (id : ℕ) (ids : List ℕ) → IsGreatest (max_of (id ∷ ids)) (id ∷ ids)
max_of-IsGreatest id [] = (inl (omega arith), (omega arith, tt))
max_of-IsGreatest id (next ∷ ids) =
    let rest = max_of-IsGreatest next ids in
    (
      elim (Bool-cases (leb (max_of (next ∷ ids)) id)) [
        | inl e ↦ inl (ground (arith, e))
        | inr e ↦ inr (subst (λ m. In m (next ∷ ids)) (ground (arith, e)) rest.0)
      ],
      (omega arith, All-ge (max_of (next ∷ ids)) _ (next ∷ ids) (omega arith) rest.1),
    )

min_id-IsLeast : (ids : List ℕ) (id : ℕ) → min_id ids ≡ some id → IsLeast id ids
min_id-IsLeast [] id h = ground (arith, h)
min_id-IsLeast (i ∷ ids) id h =
    subst (λ m. IsLeast m (i ∷ ids)) (ground (arith, h)) (min_of-IsLeast i ids)

max_id-IsGreatest : (ids : List ℕ) (id : ℕ) → max_id ids ≡ some id → IsGreatest id ids
max_id-IsGreatest [] id h = ground (arith, h)
max_id-IsGreatest (i ∷ ids) id h =
    subst (λ m. IsGreatest m (i ∷ ids)) (ground (arith, h)) (max_of-IsGreatest i ids)

module _ (lib : TextLibrary) (count : Json → ℕ) (scope : CompactionScope) where
  -- What a run that reports a compaction leaves: the row, which is the latest of its scope, with the
  -- rows of the other scopes as they were, and no lock.
  pub record IsStored (id : ℕ) (candidates : List ProjectedItem) (summary : Summary)
      (before after : CompactionState) : Type 0 where
    pub start_id : ℕ
    pub end_id : ℕ
    pub summary_text : String
    pub answered : summary ≡ answer summary_text
    pub starts : IsLeast start_id (candidate_ids candidates)
    pub ends : IsGreatest end_id (candidate_ids candidates)
    pub latest :
        get_latest_compaction scope after.rows
        ≡ some (record {
          id = id;
          start_message_id = start_id;
          end_message_id = end_id;
          summary_item = summary_message lib summary_text;
        })
    pub others :
        (other : CompactionScope)
        → same_scope scope other ≡ false
        → get_latest_compaction other after.rows ≡ get_latest_compaction other before.rows
    pub unlocked : is_locked scope after.locked ≡ false

  abbrev pub reports : Compacted → Bool
  reports hard_stop = false
  reports (decided d) = d.should_compact

  store_locked-IsStored :
      (cfg : CompactionConfig) (id start end_id tokens : ℕ) (candidates : List ProjectedItem)
      (t : String) (lock : Option (List CompactionScope)) (st : CompactionState)
      → candidate_start_message_id candidates ≡ some start
      → candidate_end_message_id candidates ≡ some end_id
      → reports
          (store_locked cfg tokens
            (compaction_row lib count scope id start end_id candidates t)
            lock
            st).0
        ≡ true
      → IsStored id candidates
          (answer t)
          st
          (store_locked cfg tokens
            (compaction_row lib count scope id start end_id candidates t)
            lock
            st).1
  unfolding store_locked get_latest_compaction latest_row summary_item_of candidate_start_message_id
      candidate_end_message_id
  store_locked-IsStored cfg id start end_id tokens candidates t none st s e h = ground (arith, h)
  store_locked-IsStored cfg id start end_id tokens candidates t (some locked) st s e h =
      let row = compaction_row lib count scope id start end_id candidates t in
      record {
        start_id = start;
        end_id = end_id;
        summary_text = t;
        answered = refl;
        starts = min_id-IsLeast (candidate_ids candidates) start s;
        ends = max_id-IsGreatest (candidate_ids candidates) end_id e;
        latest =
            ap (λ rows. map_option compaction_of (latest_row rows))
              (store_compaction-own row st.rows);
        others = λ other n.
            ap (λ rows. map_option compaction_of (latest_row rows))
              (store_compaction-other other row st.rows n);
        unlocked = is_locked-unlock scope locked;
      }

  with_summary-IsStored :
      (cfg : CompactionConfig) (id start end_id tokens : ℕ) (candidates : List ProjectedItem)
      (summary : Summary) (st : CompactionState)
      → candidate_start_message_id candidates ≡ some start
      → candidate_end_message_id candidates ≡ some end_id
      → reports (with_summary lib count cfg scope id start end_id tokens candidates summary st).0
        ≡ true
      → IsStored id candidates summary st
          (with_summary lib count cfg scope id start end_id tokens candidates summary st).1
  unfolding with_summary
  with_summary-IsStored cfg id start end_id tokens candidates exception st s e h = ground (arith, h)
  with_summary-IsStored cfg id start end_id tokens candidates (answer t) st s e h =
      elim (Bool-cases (lib.strip t == "")) [
        | inl b ↦ ground (arith, b, h)
        | inr b ↦ rw b (
            store_locked-IsStored cfg id start end_id tokens candidates t
              (try_lock_compaction scope st.locked) st s e (ground (arith, b, h)))
      ]

  with_candidates-IsStored :
      (cfg : CompactionConfig) (id tokens : ℕ) (candidates : List ProjectedItem)
      (start end_id : Option ℕ) (summary : Summary) (st : CompactionState)
      → candidate_start_message_id candidates ≡ start
      → candidate_end_message_id candidates ≡ end_id
      → reports (with_candidates lib count cfg scope id tokens candidates start end_id summary st).0
        ≡ true
      → IsStored id candidates summary st
          (with_candidates lib count cfg scope id tokens candidates start end_id summary st).1
  unfolding with_candidates
  with_candidates-IsStored cfg id tokens candidates none end_id summary st s e h = ground (arith, h)
  with_candidates-IsStored cfg id tokens candidates (some a) none summary st s e h =
      ground (arith, h)
  with_candidates-IsStored cfg id tokens candidates (some a) (some b) summary st s e h =
      elim (Bool-cases (ltb (length candidates) cfg.min_items)) [
        | inl c ↦ ground (arith, c, h)
        | inr c ↦ rw c (
            with_summary-IsStored cfg id a b tokens candidates summary st s e
              (ground (arith, c, h)))
      ]

  pub compact_if_needed-IsStored :
      (cfg : CompactionConfig) (id : ℕ) (items : List ProjectedItem) (incoming : List Json)
      (summary : Summary) (st : CompactionState)
      → reports (compact_if_needed lib count cfg scope id items incoming summary st).0 ≡ true
      → IsStored id
          (select_compaction_candidates cfg
            (projected_tokens_of count items incoming)
            (estimate_projection_tokens count items))
          summary
          st
          (compact_if_needed lib count cfg scope id items incoming summary st).1
  unfolding compact_if_needed
  compact_if_needed-IsStored cfg id items incoming summary st h =
      let tokens = projected_tokens_of count items incoming in
      let candidates =
        select_compaction_candidates cfg tokens (estimate_projection_tokens count items) in
      elim (Bool-cases (not cfg.enabled || cfg.window == 0)) [
        | inl b ↦ ground (arith, b, h)
        | inr b ↦ elim (Bool-cases (ltb tokens cfg.trigger_tokens)) [
          | inl c ↦ ground (arith, b, c, h)
          | inr c ↦ rw b (
              rw c (
                with_candidates-IsStored cfg id tokens candidates
                  (candidate_start_message_id candidates) (candidate_end_message_id candidates)
                  summary st refl refl (ground (arith, b, c, h))))
        ]
      ]
