-- ===== src/Prelude/Rows.antt =====
-- Counting and finding rows after a change of a table.
use zj_cyber_workbench.Prelude.{
  if◌then◌else◌, Bool-cases, string_eq, ◌==◌, nat_eq, ◌&&◌, ◌||◌, filter, any, first_where,
  update_first, update_where, count_where, ◌+◌, ◌≤◌, String, ◌≡◌, refl, subst, inl, inr, Bool, true,
  false, some, List, [], ◌∷◌, ◌++◌, arith,
}

module _ {A : Type 0} where
  pub count_where-update_where :
      (q p : A → Bool) (f : A → A) (rows : List A)
      → ((row : A) → q (f row) ≡ q row)
      → count_where q (update_where p f rows) ≡ count_where q rows
  unfolding count_where filter update_where
  count_where-update_where q p f [] h = refl
  count_where-update_where q p f (row ∷ rows) h =
      ground (arith, h row, count_where-update_where q p f rows h)

  pub count_where-update_first :
      (q p : A → Bool) (f : A → A) (rows : List A)
      → ((row : A) → q (f row) ≡ q row)
      → count_where q (update_first p f rows) ≡ count_where q rows
  unfolding count_where filter update_first
  count_where-update_first q p f [] h = refl
  count_where-update_first q p f (row ∷ rows) h =
      ground (arith, h row, count_where-update_first q p f rows h)

  pub count_where-append :
      (q : A → Bool) (rows : List A) (row : A)
      → count_where q (rows ++ (row ∷ [])) ≡ count_where q rows + (if q row then 1 else 0)
  unfolding count_where filter
  count_where-append q [] row = ground arith
  count_where-append q (r ∷ rows) row = ground (arith, count_where-append q rows row)

  pub any-append :
      (q : A → Bool) (rows : List A) (row : A) → any q (rows ++ (row ∷ [])) ≡ (any q rows || q row)
  unfolding any
  any-append q [] row = ground arith
  any-append q (r ∷ rows) row = ground (arith, any-append q rows row)

  -- Where a change makes a predicate false, or leaves it.
  pub any-update_where :
      (q p : A → Bool) (f : A → A) (rows : List A)
      → ((row : A) → p row ≡ true → q (f row) ≡ q row)
      → any q (update_where p f rows) ≡ any q rows
  unfolding any update_where
  any-update_where q p f [] h = refl
  any-update_where q p f (row ∷ rows) h = ground (arith, h row, any-update_where q p f rows h)

  pub none-update_where :
      (q p : A → Bool) (f : A → A) (rows : List A)
      → ((row : A) → q row ≡ true → p row ≡ true)
      → ((row : A) → q (f row) ≡ false)
      → any q (update_where p f rows) ≡ false
  unfolding any update_where
  none-update_where q p f [] h k = refl
  none-update_where q p f (row ∷ rows) h k =
      ground (arith, h row, k row, none-update_where q p f rows h k)

  pub any-update_first :
      (q p : A → Bool) (f : A → A) (rows : List A)
      → ((row : A) → p row ≡ true → q (f row) ≡ q row)
      → any q (update_first p f rows) ≡ any q rows
  unfolding any update_first
  any-update_first q p f [] h = refl
  any-update_first q p f (row ∷ rows) h = ground (arith, h row, any-update_first q p f rows h)

  pub any-count_where :
      (q p : A → Bool) (rows : List A)
      → ((row : A) → q row ≡ true → p row ≡ true)
      → count_where p rows ≡ 0
      → any q rows ≡ false
  unfolding any count_where filter
  any-count_where q p [] h e = refl
  any-count_where q p (row ∷ rows) h e = ground (arith, h row, e, any-count_where q p rows h)

  pub none-update_first :
      (q p : A → Bool) (f : A → A) (rows : List A)
      → ((row : A) → q row ≡ true → p row ≡ true)
      → ((row : A) → q (f row) ≡ false)
      → count_where p rows ≤ 1
      → any q (update_first p f rows) ≡ false
  unfolding any update_first count_where filter
  none-update_first q p f [] h k e = refl
  none-update_first q p f (row ∷ rows) h k e =
      ground (arith, h row, k row, e, none-update_first q p f rows h k, any-count_where q p rows h)

pub fresh_unique :
    {A : Type 0}
    → (q : String → A → Bool) (k : String) (rows : List A) (row : A)
    → ((j : String) → q j row ≡ (k == j))
    → count_where (q k) rows ≡ 0
    → ((j : String) → count_where (q j) rows ≤ 1)
    → (j : String) → count_where (q j) (rows ++ (row ∷ [])) ≤ 1
fresh_unique q k rows row h e u j = rw (count_where-append (q j) rows row) (
    rw (h j) (elim (Bool-cases (k == j)) [
      | inl t ↦
          ground
            (arith, t, subst (λ i. count_where (q i) rows ≡ 0) ((string_eq.same_iff k j).0 t) e)
      | inr t ↦ ground (arith, t, u j)
    ]))

module _ {A : Type 0} where
  -- The only row that `p` fits, if `a` fits one, is changed to one that `q` fits.
  pub any-changed :
      (a p q : A → Bool) (f : A → A) (rows : List A)
      → ((row : A) → a row ≡ true → p row ≡ true)
      → ((row : A) → a row ≡ true → q (f row) ≡ true)
      → count_where p rows ≤ 1
      → any a rows ≡ true
      → any q (update_first p f rows) ≡ true
  unfolding any update_first count_where filter
  any-changed a p q f [] h k u e = ground (arith, e)
  any-changed a p q f (row ∷ rows) h k u e =
      ground (arith, h row, k row, u, e, any-changed a p q f rows h k, any-count_where a p rows h)

  count_where-le :
      (p q : A → Bool) (rows : List A)
      → count_where (λ row. p row && q row) rows ≤ count_where p rows
  unfolding count_where filter
  count_where-le p q [] = omega arith
  count_where-le p q (row ∷ rows) = ground (arith, count_where-le p q rows)

  count_where-found :
      (p q : A → Bool) (rows : List A) (row : A)
      → first_where p rows ≡ some row
      → q row ≡ true
      → 1 ≤ count_where (λ r. p r && q r) rows
  unfolding first_where count_where filter
  count_where-found p q [] row e h = ground (arith, e)
  count_where-found p q (r ∷ rows) row e h = ground (arith, e, h, count_where-found p q rows row)

  pub count_where-only :
      (p q : A → Bool) (rows : List A) (row : A)
      → count_where p rows ≤ 1
      → first_where p rows ≡ some row
      → q row ≡ true
      → count_where (λ r. p r && q r) rows ≡ 1
  count_where-only p q rows row u e h =
      omega (arith, u, count_where-le p q rows, count_where-found p q rows row e h)

  -- The row that is found is changed, and it is found again.
  pub first_where-update_where :
      (p q : A → Bool) (f : A → A) (rows : List A) (row : A)
      → ((r : A) → p (f r) ≡ p r)
      → first_where p rows ≡ some row
      → q row ≡ true
      → first_where p (update_where (λ r. p r && q r) f rows) ≡ some (f row)
  unfolding first_where update_where
  first_where-update_where p q f [] row k e h = ground (arith, e)
  first_where-update_where p q f (r ∷ rows) row k e h =
      ground (arith, k r, e, h, first_where-update_where p q f rows row k)

  -- What is found is not changed with other rows.
  pub first_where-update_other :
      (p q : A → Bool) (f : A → A) (rows : List A)
      → ((r : A) → p (f r) ≡ p r)
      → ((r : A) → q r ≡ true → p r ≡ false)
      → first_where p (update_where q f rows) ≡ first_where p rows
  unfolding first_where update_where
  first_where-update_other p q f [] k h = refl
  first_where-update_other p q f (r ∷ rows) k h =
      ground (arith, k r, h r, first_where-update_other p q f rows k h)
