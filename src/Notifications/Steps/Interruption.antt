-- ===== src/Notifications/Steps/Interruption.antt =====
-- service/agent/notifications.py: the interrupt and the notifications of the main agent.
use zj_cyber_workbench.Notifications.Steps.Claiming.{IsKeyed, count_where-keyed}
use zj_cyber_workbench.Prelude.{
  if◌then◌else◌, Bool-cases, string_eq, nat_eq, not, ◌&&◌, In, All-In, first_where, update_where, ℕ,
  String, ◌≡◌, sym, ap, ◌∙◌, subst, ◌≢◌, ◌↔◌, ◌⊎◌, inl, inr, Bool, true, false, some, [], ◌∷◌,
  arith,
}
use zj_cyber_workbench.Notifications.{
  pending, processing, canceled, is_user_message, is_processing, is_active, AgentNotification,
}
use zj_cyber_workbench.Notifications.Claims.{
  has_started, is_interrupted, cancel_main_agent_interrupted_notifications,
}
use zj_cyber_workbench.Notifications.Inbox.{
  Table, get_row, commit_if_one, answer_row, is_processing_row, release_notification, cancel_row,
  cancel_notifications, in_session,
}

update_where-In_iff :
    (p : AgentNotification → Bool) (f : AgentNotification → AgentNotification)
    (row : AgentNotification) (table : Table)
    → (In row table × (p row ≡ false))
    → In row (update_where p f table)
unfolding update_where
update_where-In_iff p f row [] h = h.0
update_where-In_iff p f row (r ∷ table) (inl e, h) = ground (arith, h, ap p e)
update_where-In_iff p f row (r ∷ table) (inr m, h) =
    ground (arith, h, update_where-In_iff p f row table (m, h))

-- A row of the new table was in the old one and is no match, or is a row that `f` made.
abbrev IsOrigin :
    (AgentNotification → Bool)
    → (AgentNotification → AgentNotification)
    → AgentNotification
    → Table
    → Type 0
IsOrigin p f row table = (In row table × (p row ≡ false)) ⊎ ((r : AgentNotification) × (row ≡ f r))

IsOrigin-tail :
    (p : AgentNotification → Bool) (f : AgentNotification → AgentNotification)
    (row r : AgentNotification) (table : Table)
    → IsOrigin p f row table
    → IsOrigin p f row (r ∷ table)
IsOrigin-tail p f row r table (inl (m, h)) = inl (inr m, h)
IsOrigin-tail p f row r table (inr h) = inr h

IsOrigin-cons :
    (p : AgentNotification → Bool) (f : AgentNotification → AgentNotification)
    (row r : AgentNotification) (table rest : Table)
    → (In row rest → IsOrigin p f row table)
    → (p r ≡ true) ⊎ (p r ≡ false)
    → In row (if p r then f r ∷ rest else r ∷ rest)
    → IsOrigin p f row (r ∷ table)
IsOrigin-cons p f row r table rest h (inl e) m =
    elim (subst (λ b. In row (if b then f r ∷ rest else r ∷ rest)) e m) [
      | inl q ↦ inr (r, q)
      | inr k ↦ IsOrigin-tail p f row r table (h k)
    ]
IsOrigin-cons p f row r table rest h (inr e) m =
    elim (subst (λ b. In row (if b then f r ∷ rest else r ∷ rest)) e m) [
      | inl q ↦ inl (inl q, ap p q ∙ e)
      | inr k ↦ IsOrigin-tail p f row r table (h k)
    ]

update_where-IsOrigin :
    (p : AgentNotification → Bool) (f : AgentNotification → AgentNotification)
    (row : AgentNotification) (table : Table)
    → In row (update_where p f table)
    → IsOrigin p f row table
unfolding update_where
update_where-IsOrigin p f row [] m = absurd m
update_where-IsOrigin p f row (r ∷ table) m =
    IsOrigin-cons p f row r table (update_where p f table) (update_where-IsOrigin p f row table)
      (Bool-cases (p r)) m

update_where-change :
    (p : AgentNotification → Bool) (f : AgentNotification → AgentNotification)
    (row : AgentNotification) (table : Table)
    → In row table
    → p row ≡ true
    → In (f row) (update_where p f table)
unfolding update_where
update_where-change p f row [] m h = absurd m
update_where-change p f row (r ∷ table) (inl e) h = ground (arith, h, ap p e, ap f e)
update_where-change p f row (r ∷ table) (inr m) h =
    ground (arith, update_where-change p f row table m h)

get_row-In :
    (row : AgentNotification) (table : Table)
    → IsKeyed table
    → In row table
    → get_row row.id table ≡ some row
unfolding first_where
get_row-In row [] k m = absurd m
get_row-In row (r ∷ table) k (inl e) = rw (sym e) (ground (arith, string_eq.same_iff row.id row.id))
get_row-In row (r ∷ table) k (inr m) = ground (
  arith,
  All-In (λ x. x.id ≢ r.id) table row k.0 m,
  string_eq.same_iff r.id row.id,
  get_row-In row table k.1 m,
)

abbrev released_row : (now : ℕ) → AgentNotification → AgentNotification
released_row now row = record row { status = pending; error = ""; updated_at = now }

release_notification-processing :
    (now : ℕ) (row : AgentNotification) (table : Table)
    → IsKeyed table
    → In row table
    → row.status ≡ processing
    → (release_notification row.id now table).1
      ≡ update_where (is_processing_row row.id) (released_row now) table
unfolding release_notification commit_if_one answer_row
release_notification-processing now row table k m h = ground (
  arith,
  h,
  get_row-In row table k m,
  count_where-keyed (λ r. is_processing r.status) row table k (ground (arith, h)) m,
)

unfoldable pub is_fresh_message : AgentNotification → Bool
is_fresh_message row = is_user_message row.kind && not (has_started row.started_at)

module _ (like : String → String → Bool) (session_id : String) where
  -- Work of the main agent of the session, that waits or is being done.
  unfoldable pub is_main_work : AgentNotification → Bool
  is_main_work row =
      in_session session_id row
      && is_active row.status
      && like row.target_agent_instance_id "main:%"

  -- After an interrupt, the main agent's pending and processing notifications in the session are
  -- exactly the user messages among the former ones that nobody has claimed, unchanged.
  pub interrupt-fresh_iff :
      (error : String) (now : ℕ) (row : AgentNotification) (table : Table)
      → (In row (cancel_main_agent_interrupted_notifications like session_id error now table).1
          × (is_main_work row ≡ true))
        ↔ (In row table × (is_main_work row ≡ true) × (is_fresh_message row ≡ true))
  unfolding cancel_main_agent_interrupted_notifications cancel_notifications is_interrupted
      is_main_work is_fresh_message cancel_row in_session
  interrupt-fresh_iff error now row table = ground (
    arith,
    update_where-IsOrigin (is_interrupted like session_id) (cancel_row error now) row table,
    update_where-In_iff (is_interrupted like session_id) (cancel_row error now) row table,
  )

  -- A user message of the main agent that was claimed, and that the interrupted work released, is
  -- not honoured again: the interrupt that follows cancels it. The ids of the table differ.
  release-interrupt :
      (error : String) (released now started : ℕ) (row : AgentNotification) (table : Table)
      → IsKeyed table
      → In row table
      → row.status ≡ processing
      → row.started_at ≡ some started
      → in_session session_id row ≡ true
      → like row.target_agent_instance_id "main:%" ≡ true
      → In
          (record row {
            status = canceled;
            error = error;
            updated_at = now;
            finished_at = some now;
          })
          (cancel_main_agent_interrupted_notifications like session_id error now
            (release_notification row.id released table).1).1
  unfolding cancel_main_agent_interrupted_notifications cancel_notifications is_interrupted
      release_notification commit_if_one cancel_row in_session
  release-interrupt error released now started row table k m h t s i =
      subst
        (λ after.
          In
            (record row {
              status = canceled;
              error = error;
              updated_at = now;
              finished_at = some now;
            })
            (update_where (is_interrupted like session_id) (cancel_row error now) after))
        (sym (release_notification-processing released row table k m h))
        (update_where-change (is_interrupted like session_id) (cancel_row error now)
          (released_row released row) _
          (update_where-change (is_processing_row row.id) (released_row released) row table m
            (ground (arith, h, string_eq.same_iff row.id row.id)))
          (ground (arith, h, t, s, i)))
