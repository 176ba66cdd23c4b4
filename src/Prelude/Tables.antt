-- ===== src/Prelude/Tables.antt =====
-- Tables as lists of rows: the statements of SQL that the program runs on them.
use Prim.Native.Nat.{ℕ}
use mathlib.Core.Bool.{Bool}
use mathlib.Core.Option.{Option, none, some}
use mathlib.Core.List.{List, [], ◌∷◌}
use zj_cyber_workbench.Prelude.Tests.{if◌then◌else◌}
use zj_cyber_workbench.Prelude.Lists.{length, filter}

module _ {A : Type 0} where
  -- `select(...).where(p)`, `.first()`
  unfoldable pub first_where : (A → Bool) → List A → Option A
  first_where p [] = none
  first_where p (row ∷ table) = let rest = first_where p table in if p row then some row else rest

  -- The assignments to a row that `.first()` gave, which the commit writes back.
  unfoldable pub update_first : (A → Bool) → (A → A) → List A → List A
  update_first p f [] = []
  update_first p f (row ∷ table) =
      let rest = update_first p f table in if p row then f row ∷ table else row ∷ rest

  -- `update(...).where(p).values(f)`
  unfoldable pub update_where : (A → Bool) → (A → A) → List A → List A
  update_where p f [] = []
  update_where p f (row ∷ table) =
      let rest = update_where p f table in if p row then f row ∷ rest else row ∷ rest

  -- `updated.rowcount`
  unfoldable pub count_where : (A → Bool) → List A → ℕ
  count_where p table = length (filter p table)
