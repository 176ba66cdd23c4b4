-- ===== src/Notifications/Tracked.antt =====
-- service/agent/notifications.py: work in a table of its own, and the obligations that track it.
use zj_cyber_workbench.Prelude.{
  Bool-cases, string_eq, ◌==◌, nat_eq, ◌&&◌, any, update_where, count_where, ℕ, ◌≤◌, String, ◌≡◌,
  sym, ap, ◌∙◌, inl, inr, Bool, true, false, Option, List, arith,
}
use zj_cyber_workbench.Json.{Fields}
use zj_cyber_workbench.Notifications.{NotificationKind, is_awaiting, AgentNotification}
use zj_cyber_workbench.Notifications.Inbox.{
  Table, is_obligation, resolve_row, resolve_obligation_in_session,
}
use zj_cyber_workbench.Prelude.Rows.{
  count_where-update_where, count_where-update_first, any-update_where, none-update_where,
  any-update_first, none-update_first,
}

module _ {A : Type 0} (kind : NotificationKind) (run_id_of : A → String)
    (is_tracked : A → Bool) where
  abbrev pub is_row : String → A → Bool
  is_row k row = run_id_of row == k

  abbrev pub is_tracked_row : String → A → Bool
  is_tracked_row k row = is_row k row && is_tracked row

  abbrev pub is_awaited_by : String → AgentNotification → Bool
  is_awaited_by k n = is_obligation kind k n && is_awaiting n.status

  -- No run id is that of two rows or of two obligations; a row is tracked exactly while its
  -- obligation is awaited.
  pub record IsTracking (rows : List A) (inbox : Table) : Type 0 where
    pub rows_unique : (k : String) → count_where (is_row k) rows ≤ 1
    pub obligations_unique : (k : String) → count_where (is_obligation kind k) inbox ≤ 1
    pub tracking : (k : String) → any (is_tracked_row k) rows ≡ any (is_awaited_by k) inbox

  resolve_row_kind :
      (k : String) (ready : Bool) (payload : Option Fields) (error : String) (now : ℕ)
      (n : AgentNotification)
      → is_obligation kind k (resolve_row ready payload error now n) ≡ is_obligation kind k n
  unfolding resolve_row
  resolve_row_kind k ready payload error now n = ground arith

  resolve_row_status :
      (k : String) (ready : Bool) (payload : Option Fields) (error : String) (now : ℕ)
      (n : AgentNotification)
      → is_awaited_by k (resolve_row ready payload error now n) ≡ false
  unfolding resolve_row
  resolve_row_status k ready payload error now n = ground arith

  -- Rows of one run id end, and their obligation is resolved.
  module _ (k : String) (p : A → Bool) (f : A → A) (ready : Bool) (payload : Option Fields)
      (error : String) (now : ℕ)
      (all_tracked : (row : A) → is_tracked_row k row ≡ true → p row ≡ true)
      (only_own : (row : A) → p row ≡ true → is_row k row ≡ true)
      (same_run_id : (row : A) → run_id_of (f row) ≡ run_id_of row)
      (ends : (row : A) → is_tracked (f row) ≡ false) where
    resolved : Table → Table
    resolved inbox = (resolve_obligation_in_session kind k ready payload error now inbox).1

    resolved-tracking :
        (rows : List A) (inbox : Table) (j : String)
        → IsTracking rows inbox
        → any (is_tracked_row j) (update_where p f rows) ≡ any (is_awaited_by j) (resolved inbox)
    unfolding resolved resolve_obligation_in_session
    resolved-tracking rows inbox j h = elim (Bool-cases (j == k)) [
      | inl e ↦
          none-update_where (is_tracked_row j) p f rows
            (λ row r. ground (
              arith,
              e,
              r,
              string_eq.same_iff j k,
              string_eq.same_iff (run_id_of row) j,
              string_eq.same_iff (run_id_of row) k,
              all_tracked row,
            ))
            (λ row. ground (arith, ends row))
          ∙ sym (
              none-update_first (is_awaited_by j) (is_obligation kind k)
                (resolve_row ready payload error now) inbox
                (λ n r. ground (
                  arith,
                  e,
                  r,
                  string_eq.same_iff j k,
                  string_eq.same_iff n.run_id j,
                  string_eq.same_iff n.run_id k,
                ))
                (λ n. resolve_row_status j ready payload error now n) (h.obligations_unique k))
      | inr e ↦
          any-update_where (is_tracked_row j) p f rows (λ row r. ground (
            arith,
            e,
            string_eq.same_iff j k,
            string_eq.same_iff (run_id_of row) j,
            string_eq.same_iff (run_id_of row) k,
            string_eq.same_iff (run_id_of (f row)) j,
            only_own row r,
            same_run_id row,
          ))
          ∙ h.tracking j
          ∙ sym (
              any-update_first (is_awaited_by j) (is_obligation kind k)
                (resolve_row ready payload error now) inbox
                (λ n r. ground (
                  arith,
                  e,
                  r,
                  string_eq.same_iff j k,
                  string_eq.same_iff n.run_id j,
                  string_eq.same_iff n.run_id k,
                  resolve_row_kind j ready payload error now n,
                  resolve_row_status j ready payload error now n,
                )))
    ]

    pub resolved-IsTracking :
        (rows : List A) (inbox : Table)
        → IsTracking rows inbox
        → IsTracking
            (update_where p f rows)
            (resolve_obligation_in_session kind k ready payload error now inbox).1
    unfolding resolved resolve_obligation_in_session
    resolved-IsTracking rows inbox h = record {
      rows_unique = λ j.
          rw
            (count_where-update_where (is_row j) p f rows
              (λ row. ap (λ id. id == j) (same_run_id row)))
            (h.rows_unique j);
      obligations_unique = λ j.
          rw
            (count_where-update_first (is_obligation kind j) (is_obligation kind k)
              (resolve_row ready payload error now) inbox
              (λ n. resolve_row_kind j ready payload error now n))
            (h.obligations_unique j);
      tracking = λ j. resolved-tracking rows inbox j h;
    }
