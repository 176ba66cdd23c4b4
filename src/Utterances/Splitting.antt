-- ===== src/Utterances/Splitting.antt =====
-- The position search against a description by concatenation.
use native.Mathlib.Decide.{ℕ_discrete, dec_lt}
use mathlib.Core.List.{append-nil, append_assoc}
use zj_cyber_workbench.Prelude.{
  Bool-cases, nat_eq, length, length-append, In, contains, contains_iff, ℕ, zero, suc, ◌+◌, ◌≤◌,
  ◌<◌, ◌≡◌, refl, sym, ap, ◌∙◌, ◌≢◌, ◌↔◌, ◌⊎◌, inl, inr, true, List, [], ◌∷◌, ◌++◌, arith,
}
use zj_cyber_workbench.Utterances.{starts_with, drop, extend, visit, scan, is_non_topic_key}

-- A text that is a sequence of components.
pub data Splits (components : List (List ℕ)) : List ℕ → Type 0 where
  done : Splits components []
  next :
      (c rest : List ℕ) → In c components → Splits components rest → Splits components (c ++ rest)

starts_with_split :
    (text c : List ℕ) → starts_with text c ≡ true → (rest : List ℕ) × (text ≡ c ++ rest)
unfolding starts_with
starts_with_split text [] h = (text, refl)
starts_with_split [] (c ∷ cs) h = cc
starts_with_split (x ∷ xs) (c ∷ cs) h =
    let (rest, e) = starts_with_split xs cs (ground arith) in (rest, ground (arith, e))

starts_with-append : (c rest : List ℕ) → starts_with (c ++ rest) c ≡ true
unfolding starts_with
starts_with-append [] rest = refl
starts_with-append (x ∷ c) rest = ground (arith, starts_with-append c rest)

module _ (components : List (List ℕ)) (key : List ℕ) where
  -- A position that components reach from the start, one behind the other.
  data Reaches : ℕ → Type 0 where
    origin : (i : ℕ) → i ≡ 0 → Reaches i
    hop :
        {i : ℕ} (c : List ℕ) (j : ℕ)
        → Reaches i
        → In c components
        → starts_with (drop i key) c ≡ true
        → j ≡ i + length c
        → Reaches j

  extend-keeps :
      (start j : ℕ) (cs : List (List ℕ)) (reach : List ℕ)
      → In j reach
      → In j (extend key start cs reach)
  unfolding extend
  extend-keeps start j [] reach m = m
  extend-keeps start j (c ∷ cs) reach m = extend-keeps start j cs _ (ground (arith, m))

  extend-adds :
      (start : ℕ) (c : List ℕ) (cs : List (List ℕ)) (reach : List ℕ)
      → In c cs
      → starts_with (drop start key) c ≡ true
      → In (start + length c) (extend key start cs reach)
  unfolding extend
  extend-adds start c [] reach m h = absurd m
  extend-adds start c (d ∷ cs) reach (inl e) h =
      extend-keeps start (start + length c) cs _ (rw e (rw (rw e at h) (inl refl)))
  extend-adds start c (d ∷ cs) reach (inr m) h = extend-adds start c cs _ m h

  extend-from :
      (start j : ℕ) (cs : List (List ℕ)) (reach : List ℕ)
      → In j (extend key start cs reach)
      → In j reach
        ⊎ ((c : List ℕ) × In c cs
            × (starts_with (drop start key) c ≡ true)
            × (j ≡ start + length c))
  unfolding extend
  extend-from start j [] reach m = inl m
  extend-from start j (c ∷ cs) reach m = elim (Bool-cases (starts_with (drop start key) c)) [
    | inl b ↦ elim (extend-from start j cs ((start + length c) ∷ reach) (rw b at m)) [
      | inl (inl e) ↦ inr (c, inl refl, b, e)
      | inl (inr old) ↦ inl old
      | inr (d, md, hd, e) ↦ inr (d, inr md, hd, e)
    ]
    | inr b ↦ elim (extend-from start j cs reach (rw b at m)) [
      | inl old ↦ inl old
      | inr (d, md, hd, e) ↦ inr (d, inr md, hd, e)
    ]
  ]

  visit-keeps :
      (start j : ℕ) (reach : List ℕ) → In j reach → In j (visit key components start reach)
  unfolding visit
  visit-keeps start j reach m = ground (arith, m, extend-keeps start j components reach m)

  scan-keeps :
      (rounds start j : ℕ) (reach : List ℕ)
      → In j reach
      → In j (scan key components rounds start reach)
  unfolding scan
  scan-keeps zero start j reach m = m
  scan-keeps (suc rounds) start j reach m =
      scan-keeps rounds (start + 1) j _ (visit-keeps start j reach m)

  visit-from :
      (start j : ℕ) (reach : List ℕ)
      → In j (visit key components start reach)
      → In j reach
        ⊎ (In start reach
            × ((c : List ℕ) × In c components
                × (starts_with (drop start key) c ≡ true)
                × (j ≡ start + length c)))
  unfolding visit
  visit-from start j reach m = elim (Bool-cases (contains reach start)) [
    | inl b ↦ elim (extend-from start j components reach (rw b at m)) [
      | inl old ↦ inl old
      | inr hopped ↦ inr ((contains_iff reach start).0 b, hopped)
    ]
    | inr b ↦ inl (rw b at m)
  ]

  -- Positions are only added beyond the round's start.
  scan-late :
      (rounds start j : ℕ) (reach : List ℕ)
      → j ≤ start
      → In j (scan key components rounds start reach)
      → In j reach
  unfolding scan
  scan-late zero start j reach h m = m
  scan-late (suc rounds) start j reach h m =
      elim (visit-from start j reach (scan-late rounds (start + 1) j _ (omega arith) m)) [
        | inl old ↦ old
        | inr (s, (c, mc, hc, e)) ↦ let same : j ≡ start = omega arith in rw same s
      ]

  visit-adds :
      (start : ℕ) (c reach : List ℕ)
      → In start reach
      → In c components
      → starts_with (drop start key) c ≡ true
      → In (start + length c) (visit key components start reach)
  unfolding visit
  visit-adds start c reach m mc hc =
      rw ((contains_iff reach start).1 m) (extend-adds start c components reach mc hc)

  scan-hop_here :
      (rounds start i : ℕ) (c : List ℕ) (reach : List ℕ)
      → i ≡ start
      → In c components
      → starts_with (drop i key) c ≡ true
      → In i (scan key components (suc rounds) start reach)
      → In (i + length c) (scan key components (suc rounds) start reach)
  unfolding scan
  scan-hop_here rounds start i c reach same mc hc m =
      let here : In start reach =
        rw (← same) (scan-late (suc rounds) start i reach (omega arith) m) in
      rw same (
        scan-keeps rounds (start + 1) (start + length c) _
          (visit-adds start c reach here mc (rw same at hc)))

  -- Every hop from a reachable position inside the key is made.
  scan-hops :
      (rounds start i : ℕ) (c : List ℕ) (reach : List ℕ)
      → start ≤ i
      → i < start + rounds
      → In c components
      → starts_with (drop i key) c ≡ true
      → In i (scan key components rounds start reach)
      → In (i + length c) (scan key components rounds start reach)
  unfolding scan
  scan-hops zero start i c reach lo hi mc hc m = absurd (omega arith)
  scan-hops (suc rounds) start i c reach lo hi mc hc m = elim (ℕ_discrete start i) [
    | yes same ↦ scan-hop_here rounds start i c reach (sym same) mc hc m
    | no other ↦ scan-hops rounds (start + 1) i c _ (omega arith) (omega arith) mc hc m
  ]

  -- Every reachable position is reached by components.
  scan-Reaches :
      (rounds start j : ℕ) (reach : List ℕ)
      → ((i : ℕ) → In i reach → Reaches i)
      → In j (scan key components rounds start reach)
      → Reaches j
  unfolding scan
  scan-Reaches zero start j reach all m = all j m
  scan-Reaches (suc rounds) start j reach all m =
      scan-Reaches rounds (start + 1) j _
        (λ i mi. elim (visit-from start i reach mi) [
          | inl old ↦ all i old
          | inr (s, (c, mc, hc, e)) ↦ hop c i (all start s) mc hc e
        ])
        m

  -- With a round for each position of the key the search is complete.
  scan_complete :
      (j : ℕ) → Reaches j → j ≤ length key → In j (scan key components (length key) 0 (0 ∷ []))
  scan_complete j (origin i e) h = scan-keeps (length key) 0 j (0 ∷ []) (inl e)
  scan_complete j (hop {i} c k r mc hc e) h =
      let found = scan_complete i r (omega arith) in
      elim (dec_lt i (length key)) [
        | yes inside ↦
            rw e (scan-hops (length key) 0 i c (0 ∷ []) (omega arith) (omega arith) mc hc found)
        | no outside ↦ let same : j ≡ i = omega arith in rw same found
      ]

drop-append : (xs ys : List ℕ) → drop (length xs) (xs ++ ys) ≡ ys
drop-append [] ys = refl
drop-append (x ∷ xs) ys = drop-append xs ys

abbrev take : ℕ → List ℕ → List ℕ
take zero xs = []
take (suc n) [] = []
take (suc n) (x ∷ xs) = x ∷ take n xs

take-length : (xs : List ℕ) → take (length xs) xs ≡ xs
take-length [] = refl
take-length (x ∷ xs) = ap (λ l. x ∷ l) (take-length xs)

take-append : (xs ys : List ℕ) → take (length xs) (xs ++ ys) ≡ xs
take-append [] ys = refl
take-append (x ∷ xs) ys = ap (λ l. x ∷ l) (take-append xs ys)

take-split :
    (i n : ℕ) (xs c rest : List ℕ)
    → n ≡ i + length c
    → drop i xs ≡ c ++ rest
    → take n xs ≡ take i xs ++ c
take-split zero n xs c rest p e =
    let same : n ≡ length c = omega arith in rw same (rw e (take-append c rest))
take-split (suc i) zero xs c rest p e = absurd (omega arith)
take-split (suc i) (suc n) [] [] rest p e = refl
take-split (suc i) (suc n) [] (x ∷ c) rest p e = cc
take-split (suc i) (suc n) (x ∷ xs) c rest p e =
    ap (λ l. x ∷ l) (take-split i n xs c rest (omega arith) e)

Splits-snoc :
    (components : List (List ℕ)) (c xs : List ℕ)
    → Splits components xs
    → In c components
    → Splits components (xs ++ c)
Splits-snoc components c [] done m = rw (← append-nil c) (next c [] m done)
Splits-snoc components c _ (next d rest md s) m =
    rw append_assoc (next d (rest ++ c) md (Splits-snoc components c rest s m))

module _ (components : List (List ℕ)) (key : List ℕ) where
  Reaches-Splits : (j : ℕ) → Reaches components key j → Splits components (take j key)
  Reaches-Splits j (origin i e) = rw e done
  Reaches-Splits j (hop {i} c k r mc hc e) =
      let (rest, split) = starts_with_split (drop i key) c hc in
      rw (take-split i j key c rest e split)
        (Splits-snoc components c (take i key) (Reaches-Splits i r) mc)

  Splits-Reaches :
      (pre : List ℕ) {suffix : List ℕ}
      → Splits components suffix
      → key ≡ pre ++ suffix
      → Reaches components key (length pre)
      → Reaches components key (length key)
  Splits-Reaches pre done e r =
      let same : length key ≡ length pre = ap length (e ∙ append-nil pre) in rw same r
  Splits-Reaches pre (next c rest mc s) e r =
      let here : drop (length pre) key ≡ c ++ rest =
        ap (drop (length pre)) e ∙ drop-append pre (c ++ rest) in
      let r' : Reaches components key (length (pre ++ c)) =
        hop c (length (pre ++ c)) r mc (rw here (starts_with-append c rest))
          (length-append pre c) in
      Splits-Reaches (pre ++ c) s (e ∙ sym (append_assoc pre c rest)) r'

  scan-Splits :
      In (length key) (scan key components (length key) 0 (0 ∷ [])) ↔ Splits components key
  scan-Splits = (
    λ m. rw (← take-length key) (
        Reaches-Splits (length key)
          (scan-Reaches components key (length key) 0 (length key) (0 ∷ []) start m)),
    λ s.
        scan_complete components key (length key) (Splits-Reaches [] s refl (origin 0 refl))
          (omega arith),
  )
    where
      start : (i : ℕ) → In i (0 ∷ []) → Reaches components key i
      start i (inl e) = origin i e
      start i (inr e) = absurd e

-- The search answers yes exactly for the keys of 1 to 96 characters that are a sequence of
-- components, one directly behind the other.
pub is_non_topic_key_iff :
    (components : List (List ℕ)) (key : List ℕ)
    → (is_non_topic_key components key ≡ true)
      ↔ ((key ≢ []) × (length key ≤ 96) × Splits components key)
unfolding is_non_topic_key
is_non_topic_key_iff components [] = (λ h. cc, λ (n, l, s). absurd (n refl))
is_non_topic_key_iff components (x ∷ xs) =
    let key = x ∷ xs in
    let search = scan key components (length key) 0 (0 ∷ []) in
    (
      λ h. (
        λ e. cc,
        ground arith,
        (scan-Splits components key).0 ((contains_iff search (length key)).0 (ground arith)),
      ),
      λ (n, l, s).
          ground (arith, (contains_iff search (length key)).1 ((scan-Splits components key).1 s)),
    )
