-- ===== src/Executor/Idle.antt =====
-- core/task_runtime/executor.py: the inbox of an agent that has become idle.
use zj_cyber_workbench.Notifications.Steps.{run}
use zj_cyber_workbench.Prelude.{
  Bool-cases, string_eq, ◌==◌, nat_eq, filter, first_where, update_where, count_where, ℕ, ◌≤◌,
  String, ◌≡◌, refl, sym, ◌∙◌, subst, inl, inr, Bool, true, false, Option, none, some, List, [],
  ◌∷◌, arith,
}
use zj_cyber_workbench.Notifications.{AgentNotification}
use zj_cyber_workbench.Notifications.Inbox.{
  Table, get_row, complete_notification, fail_notification,
}
use zj_cyber_workbench.Notifications.Claims.{
  first_by_order, start_row, is_pending_row, claim_row, claim_found, is_claimable,
  claim_next_pending_notification, has_pending_notification,
}
use zj_cyber_workbench.Notifications.Steps.Claiming.{IsKeyed, has_pending_notification_iff}
use zj_cyber_workbench.Executor.{
  TurnEnd, turn_result, turn_interrupted, turn_canceled, turn_failed, Turn, Drain, idle,
  canceled_drain, failed_drain, in_turn, error_or, claim, after_turn, run_claimed, drain,
  after_initial, initial_turn, run_until_idle,
}

started_row-found :
    (id : String) (now : ℕ) (table : Table)
    → 1 ≤ count_where (is_pending_row id) table
    → get_row id (update_where (is_pending_row id) (start_row now) table) ≡ none
    → ⊥
unfolding count_where filter update_where first_where start_row
started_row-found id now [] h e = ground (arith, h)
started_row-found id now (row ∷ table) h e = ground (arith, h, e, started_row-found id now table)

-- A claim that gives nothing changes nothing.
claim_found-none :
    (now : ℕ) (found : Option AgentNotification) (table : Table)
    → (claim_found now found table).0 ≡ none
    → (claim_found now found table).1 ≡ table
unfolding claim_found claim_row
claim_found-none now none table h = refl
claim_found-none now (some row) table h =
    elim (Bool-cases (count_where (is_pending_row row.id) table == 1)) [
      | inl c ↦
          absurd (started_row-found row.id now table (ground (arith, c)) (ground (arith, c, h)))
      | inr c ↦ ground (arith, c)
    ]

some-ne-none : {A : Type 0} → (a : A) → some a ≡ none → ⊥
some-ne-none a e = cc

abbrev is_idle : {A : Type 0} → Drain A → Bool
is_idle (idle r) = true
is_idle _ = false

module _ (like : String → String → Bool) (session_id agent_instance_id : String) where
  abbrev pub has_pending : Table → Bool
  has_pending table = has_pending_notification like session_id none (some agent_instance_id) table

  no_pending :
      (now : ℕ) (table : Table)
      → IsKeyed (claim like session_id agent_instance_id now table).1
      → (claim like session_id agent_instance_id now table).0 ≡ none
      → has_pending (claim like session_id agent_instance_id now table).1 ≡ false
  unfolding claim_next_pending_notification
  no_pending now table k h =
      let same =
        claim_found-none now
          (first_by_order
            (filter (is_claimable like session_id none (some agent_instance_id)) table))
          table h in
      elim (Bool-cases (has_pending table)) [
        | inr e ↦ rw same e
        | inl e ↦
            let found =
              (has_pending_notification_iff like session_id none (some agent_instance_id) now table
                  (subst IsKeyed same k)).0
                e in
            absurd (some-ne-none found.0 (sym found.1 ∙ h))
      ]

  module _ {A : Type 0} where
    abbrev Goes : (Option A → Table → Drain A × Table) → Type 0
    Goes go_on =
        (result : Option A) (table : Table) (last : Option A)
        → (go_on result table).0 ≡ idle last
        → IsKeyed (go_on result table).1
        → has_pending (go_on result table).1 ≡ false

    not_idle : (d : Drain A) (last : Option A) → is_idle d ≡ false → d ≡ idle last → ⊥
    not_idle (idle r) last n h = ground (arith, n)
    not_idle canceled_drain last n h = cc
    not_idle (failed_drain error) last n h = cc
    not_idle (in_turn n) last k h = cc

    after_turn-Goes :
        (id : String) (now : ℕ) (ending : TurnEnd A) (go_on : Option A → Table → Drain A × Table)
        → Goes go_on
        → Goes (after_turn like session_id agent_instance_id id now ending go_on)
    unfolding after_turn
    after_turn-Goes id now (turn_result r) go_on ih result table last h k =
        ih (some r) (complete_notification id now table).1 last h k
    after_turn-Goes id now turn_interrupted go_on ih result table last h k =
        ih result (complete_notification id now table).1 last h k
    after_turn-Goes id now turn_canceled go_on ih result table last h k =
        absurd (not_idle canceled_drain last refl h)
    after_turn-Goes id now (turn_failed error) go_on ih result table last h k =
        ih result (fail_notification id (error_or error "notification handling failed") now table).1
          last h k

    run_claimed-idle :
        (claimed : Option AgentNotification) (turn : Option (Turn A))
        (go_on : Option A → Table → Drain A × Table) (now : ℕ) (result : Option A) (table : Table)
        (last : Option A)
        → Goes go_on
        → (claim like session_id agent_instance_id now table).0 ≡ claimed
        → (run_claimed like session_id agent_instance_id claimed turn go_on result
            (claim like session_id agent_instance_id now table).1).0
          ≡ idle last
        → IsKeyed
            (run_claimed like session_id agent_instance_id claimed turn go_on result
              (claim like session_id agent_instance_id now table).1).1
        → has_pending
            (run_claimed like session_id agent_instance_id claimed turn go_on result
              (claim like session_id agent_instance_id now table).1).1
          ≡ false
    unfolding run_claimed
    run_claimed-idle none turn go_on now result table last ih c h k = no_pending now table k c
    run_claimed-idle (some n) none go_on now result table last ih c h k =
        absurd (not_idle (in_turn (some n)) last refl h)
    run_claimed-idle (some n) (some turn) go_on now result table last ih c h k =
        after_turn-Goes n.id turn.ended_at turn.ending go_on ih result
          (run like turn.meanwhile (claim like session_id agent_instance_id now table).1) last h k

    drain-idle :
        (turns : List (Turn A)) (last_now : ℕ)
        → Goes (drain like session_id agent_instance_id turns last_now)
    unfolding drain
    drain-idle [] last_now result table last h k =
        run_claimed-idle (claim like session_id agent_instance_id last_now table).0 none
          (λ r t. (in_turn none, t)) last_now result table last
          (λ r t l g j. absurd (not_idle (in_turn none) l refl g)) refl h k
    drain-idle (turn ∷ turns) last_now result table last h k =
        run_claimed-idle (claim like session_id agent_instance_id turn.claimed_at table).0
          (some turn) (λ r t. drain like session_id agent_instance_id turns last_now r t)
          turn.claimed_at result table last (drain-idle turns last_now) refl h k

    after_initial-Goes :
        (ending : TurnEnd A) (go_on : Option A → Table → Drain A × Table) (table : Table)
        (last : Option A)
        → Goes go_on
        → (after_initial like session_id agent_instance_id ending go_on table).0 ≡ idle last
        → IsKeyed (after_initial like session_id agent_instance_id ending go_on table).1
        → has_pending (after_initial like session_id agent_instance_id ending go_on table).1 ≡ false
    after_initial-Goes (turn_result r) go_on table last ih h k = ih (some r) table last h k
    after_initial-Goes turn_interrupted go_on table last ih h k = ih none table last h k
    after_initial-Goes turn_canceled go_on table last ih h k =
        absurd (not_idle canceled_drain last refl h)
    after_initial-Goes (turn_failed error) go_on table last ih h k =
        absurd (not_idle (failed_drain error) last refl h)

    -- When the loop returns, no notification of the agent is pending, whatever the turns did and
    -- however they ended. The ids of the inbox that it leaves differ.
    pub run_until_idle-pending :
        (initial : Option (Turn A)) (turns : List (Turn A)) (last_now : ℕ) (table : Table)
        (last : Option A)
        → (run_until_idle like session_id agent_instance_id initial turns last_now table).0
          ≡ idle last
        → IsKeyed (run_until_idle like session_id agent_instance_id initial turns last_now table).1
        → has_pending
            (run_until_idle like session_id agent_instance_id initial turns last_now table).1
          ≡ false
    unfolding run_until_idle initial_turn
    run_until_idle-pending none turns last_now table last h k =
        drain-idle turns last_now none table last h k
    run_until_idle-pending (some turn) turns last_now table last h k =
        after_initial-Goes turn.ending
          (λ r t. drain like session_id agent_instance_id turns last_now r t)
          (run like turn.meanwhile table) last (drain-idle turns last_now) h k
