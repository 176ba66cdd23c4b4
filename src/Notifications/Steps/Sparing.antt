-- ===== src/Notifications/Steps/Sparing.antt =====
-- service/agent/notifications.py: the calls that leave obligations alone.
use zj_cyber_workbench.Prelude.{
  if◌then◌else◌, Bool-cases, string_eq, ◌==◌, nat_eq, ◌&&◌, any, update_where, count_where, ℕ,
  String, ◌≡◌, refl, sym, ap, ◌∙◌, inl, inr, Bool, true, false, Option, none, some, List, [], ◌∷◌,
  ◌++◌, arith,
}
use zj_cyber_workbench.Prelude.Rows.{
  count_where-update_where, count_where-append, any-append, any-update_where,
}
use zj_cyber_workbench.Notifications.{
  NotificationKind, user_message, is_awaiting, same_kind, AgentNotification,
}
use zj_cyber_workbench.Notifications.Claims.{
  start_row, is_pending_row, claim_row, claim_found, claim_next_pending_notification,
  is_interrupted, cancel_main_agent_interrupted_notifications,
}
use zj_cyber_workbench.Notifications.Inbox.{
  Table, commit_if_one, new_row, enqueue_user_message_notification, is_obligation, answer_row,
  is_processing_row, finish_notification, complete_notification, fail_notification,
  release_notification, cancel_row, cancel_notifications, reset_processing_notifications_all,
}
use zj_cyber_workbench.Notifications.Steps.{
  Step, add_obligation, resolve_obligation, enqueue_user_message, claim_next, complete, fail,
  release, cancel_session, interrupt_main_agent, reset_processing, step,
}
use zj_cyber_workbench.Notifications.Tracked.{IsTracking}

-- The calls that neither make nor settle obligations: a message of a user arrives, a notification is
-- claimed, completed, failed or released, the main agent is interrupted, and claims are reset after
-- a restart.
abbrev pub spares : Step → Bool
spares (add_obligation _ _ _ _ _) = false
spares (resolve_obligation _ _ _ _ _ _) = false
spares (cancel_session _ _ _ _) = false
spares _ = true

module _ (kind : NotificationKind) (not_user : same_kind user_message kind ≡ false) where
  abbrev awaits : String → AgentNotification → Bool
  awaits k n = is_obligation kind k n && is_awaiting n.status

  -- The obligations of the kind are as many, and those that are awaited stay so.
  pub record AreSpared (before after : Table) : Type 0 where
    pub obligations :
        (k : String)
        → count_where (is_obligation kind k) after ≡ count_where (is_obligation kind k) before
    pub awaited :
        (k : String)
        → any (λ n. is_obligation kind k n && is_awaiting n.status) after
          ≡ any (λ n. is_obligation kind k n && is_awaiting n.status) before

  AreSpared-refl : (table : Table) → AreSpared table table
  AreSpared-refl table = record { obligations = λ k. refl; awaited = λ k. refl }

  update_where-AreSpared :
      (p : AgentNotification → Bool) (f : AgentNotification → AgentNotification) (table : Table)
      → ((k : String) (n : AgentNotification) → is_obligation kind k (f n) ≡ is_obligation kind k n)
      → ((n : AgentNotification) → p n ≡ true → is_awaiting n.status ≡ false)
      → ((n : AgentNotification) → is_awaiting (f n).status ≡ false)
      → AreSpared table (update_where p f table)
  update_where-AreSpared p f table same before after = record {
    obligations = λ k. count_where-update_where (is_obligation kind k) p f table (same k);
    awaited =
        λ k. any-update_where (awaits k) p f table (λ n h. ground (arith, before n h, after n));
  }

  if-AreSpared :
      (b : Bool) (before x y : Table)
      → AreSpared before x
      → AreSpared before y
      → AreSpared before (if b then x else y)
  if-AreSpared true before x y h k = h
  if-AreSpared false before x y h k = k

  answer_row-AreSpared :
      (id : String) (settled : AgentNotification → Bool) (found : Option AgentNotification)
      (after table : Table)
      → AreSpared table after
      → AreSpared table (answer_row id settled found after table).1
  unfolding answer_row
  answer_row-AreSpared id settled none after table h = AreSpared-refl table
  answer_row-AreSpared id settled (some row) after table h = elim (Bool-cases (settled row)) [
    | inl e ↦ rw e (AreSpared-refl table)
    | inr e ↦ rw e h
  ]

  claim_found-AreSpared :
      (now : ℕ) (found : Option AgentNotification) (table : Table)
      → AreSpared table (claim_found now found table).1
  unfolding claim_found claim_row start_row
  claim_found-AreSpared now none table = AreSpared-refl table
  claim_found-AreSpared now (some row) table =
      elim (Bool-cases (count_where (is_pending_row row.id) table == 1)) [
        | inl e ↦ rw e (
            update_where-AreSpared (is_pending_row row.id) (start_row now) table (λ k n. refl)
              (λ n h. ground (arith, h)) (λ n. refl))
        | inr e ↦ rw e (AreSpared-refl table)
      ]

  commit-AreSpared :
      (id : String) (f : AgentNotification → AgentNotification) (table : Table)
      → ((k : String) (n : AgentNotification) → is_obligation kind k (f n) ≡ is_obligation kind k n)
      → ((n : AgentNotification) → is_awaiting (f n).status ≡ false)
      → AreSpared table (commit_if_one (is_processing_row id) f table)
  unfolding commit_if_one
  commit-AreSpared id f table same after =
      if-AreSpared _ table _ _
        (update_where-AreSpared (is_processing_row id) f table same (λ n h. ground (arith, h))
          after)
        (AreSpared-refl table)

  append-AreSpared :
      (row : AgentNotification) (table : Table)
      → row.kind ≡ user_message
      → AreSpared table (table ++ (row ∷ []))
  append-AreSpared row table e =
      let other = ap (λ k. same_kind k kind) e ∙ not_user in
      record {
        obligations =
            λ k. grind (arith, other, count_where-append (is_obligation kind k) table row);
        awaited = λ k. grind (arith, other, any-append (awaits k) table row);
      }

  module _ (like : String → String → Bool) where
    pub step-AreSpared :
        (s : Step) (table : Table) → spares s ≡ true → AreSpared table (step like s table)
    unfolding step complete_notification fail_notification finish_notification release_notification
        cancel_main_agent_interrupted_notifications cancel_notifications
        reset_processing_notifications_all claim_next_pending_notification
        enqueue_user_message_notification new_row is_interrupted cancel_row
    step-AreSpared (add_obligation a b c d e) table h = ground (arith, h)
    step-AreSpared (resolve_obligation a b c d e f) table h = ground (arith, h)
    step-AreSpared (cancel_session a b c d) table h = ground (arith, h)
    step-AreSpared (enqueue_user_message n content display_text requested s now) table h =
        append-AreSpared _ table refl
    step-AreSpared (claim_next session_id agent_code instance_id now) table h =
        claim_found-AreSpared now _ table
    step-AreSpared (complete id now) table h =
        answer_row-AreSpared id _ _ _ table (commit-AreSpared id _ table (λ k n. refl) (λ n. refl))
    step-AreSpared (fail id error now) table h =
        answer_row-AreSpared id _ _ _ table (commit-AreSpared id _ table (λ k n. refl) (λ n. refl))
    step-AreSpared (release id now) table h =
        answer_row-AreSpared id _ _ _ table (commit-AreSpared id _ table (λ k n. refl) (λ n. refl))
    step-AreSpared (interrupt_main_agent session_id error now) table h =
        update_where-AreSpared _ (cancel_row error now) table (λ k n. refl)
          (λ n e. ground (arith, e)) (λ n. refl)
    step-AreSpared (reset_processing now) table h =
        update_where-AreSpared _ _ table (λ k n. refl) (λ n e. ground (arith, e)) (λ n. refl)

    -- The rows that obligations track are still paired with them.
    pub step-IsTracking :
        {A : Type 0} (run_id_of : A → String) (is_tracked : A → Bool) (rows : List A) (s : Step)
        (inbox : Table)
        → spares s ≡ true
        → IsTracking kind run_id_of is_tracked rows inbox
        → IsTracking kind run_id_of is_tracked rows (step like s inbox)
    step-IsTracking run_id_of is_tracked rows s inbox e h =
        let spared = step-AreSpared s inbox e in
        record {
          rows_unique = h.rows_unique;
          obligations_unique = λ k. rw (spared.obligations k) (h.obligations_unique k);
          tracking = λ k. h.tracking k ∙ sym (spared.awaited k);
        }
