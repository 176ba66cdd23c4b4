-- ===== src/Streaming/Interrupt/Deferral.antt =====
-- core/task_runtime/interrupt.py: interrupts and the calls of tools.
use zj_cyber_workbench.Prelude.{
  Bool-cases, string_eq, ◌==◌, nat_eq, ◌&&◌, ◌||◌, length, ℕ, ◌<◌, ◌≡◌, refl, sym, ◌∙◌, subst, inl,
  inr, Bool, true, false, Option, none, some, List, [], ◌∷◌, ◌++◌, arith,
}
use zj_cyber_workbench.Streaming.{Event}
use zj_cyber_workbench.Streaming.Interrupt.Calls.{
  calls_after, unanswered, Answers, length-unanswered, nil_of_length, calls_after-count,
}
use zj_cyber_workbench.Streaming.Interrupt.{
  StreamItem, next, end_of_stream, stream_error, Round, Watch, Standing, watching, returned,
  interrupted, errored, count_tool_call, after_signal, with_count, after_event, run_item, run_round,
  run_rounds, iter_interruptible_events,
}

abbrev pub is_pending : Option Bool → Bool
is_pending (some true) = true
is_pending _ = false

-- In some round, a notification was pending.
unfoldable pub any_pending : List Round → Bool
any_pending [] = false
any_pending (round ∷ rounds) = is_pending round.has_pending || any_pending rounds

-- Nothing is interrupted between a call and its result, and what is pending waits for nothing else.
abbrev IsSound : (seen : Bool) → ℕ → List Event → Standing → Type 0
IsSound seen n events (watching w) =
    (w.pending_tool_calls ≡ calls_after n events) × (seen ≡ true → 0 < w.pending_tool_calls)
IsSound seen n events interrupted = calls_after n events ≡ 0
IsSound seen n events _ = Unit

run_rounds-returned : (rounds : List Round) → run_rounds rounds returned ≡ ([], returned)
unfolding run_rounds
run_rounds-returned [] = refl
run_rounds-returned (round ∷ rounds) = refl

run_rounds-interrupted : (rounds : List Round) → run_rounds rounds interrupted ≡ ([], interrupted)
unfolding run_rounds
run_rounds-interrupted [] = refl
run_rounds-interrupted (round ∷ rounds) = refl

run_rounds-errored : (rounds : List Round) → run_rounds rounds errored ≡ ([], errored)
unfolding run_rounds
run_rounds-errored [] = refl
run_rounds-errored (round ∷ rounds) = refl

abbrev seen_so_far : List Round → Watch → Bool
seen_so_far rounds w = w.deferred || any_pending rounds

abbrev Waits : Watch → Type 0
Waits w = w.deferred ≡ true → 0 < w.pending_tool_calls

abbrev Runs : Bool → ℕ → List Event × Standing → Type 0
Runs seen n result = IsSound seen n result.0 result.1

IsSound-first :
    (seen : Bool) (n : ℕ) (event : Event) (events : List Event) (standing : Standing)
    → IsSound seen (count_tool_call event n) events standing
    → IsSound seen n (event ∷ events) standing
IsSound-first seen n event events (watching w) h =
    (h.0 ∙ sym (calls_after-count n event events), h.1)
IsSound-first seen n event events returned h = h
IsSound-first seen n event events interrupted h = calls_after-count n event events ∙ h
IsSound-first seen n event events errored h = h

module _ (rounds : List Round)
    (ih : (w : Watch)
      → Waits w
      → Runs (seen_so_far rounds w) w.pending_tool_calls (run_rounds rounds (watching w))) where
  after_signal-Runs :
      (has_pending : Option Bool) (w : Watch)
      → Waits w
      → Runs
          (w.deferred || (is_pending has_pending || any_pending rounds))
          w.pending_tool_calls
          (run_rounds rounds (after_signal has_pending w))
  unfolding after_signal
  after_signal-Runs none w h = ih w h
  after_signal-Runs (some false) w h = ih w h
  after_signal-Runs (some true) w h = elim (Bool-cases (w.pending_tool_calls == 0)) [
    | inl z ↦ rw z (
        subst (Runs _ w.pending_tool_calls) (sym (run_rounds-interrupted rounds))
          (ground (arith, z)))
    | inr z ↦ rw z (
        subst
          (λ b.
            Runs b w.pending_tool_calls
              (run_rounds rounds (watching (record w { deferred = true }))))
          (ground arith) (ih (record w { deferred = true }) (λ d. ground (arith, z))))
  ]

  after_event-Runs :
      (event : Event) (has_pending : Option Bool) (w : Watch)
      → Runs
          (w.deferred || (is_pending has_pending || any_pending rounds))
          w.pending_tool_calls
          (run_rounds rounds (after_event w has_pending))
  after_event-Runs event has_pending w =
      elim (Bool-cases (w.deferred && w.pending_tool_calls == 0)) [
        | inl z ↦ rw z (
            subst (Runs _ w.pending_tool_calls) (sym (run_rounds-interrupted rounds))
              (ground (arith, z)))
        | inr z ↦ rw z (after_signal-Runs has_pending w (λ d. ground (arith, z, d)))
      ]

  run_item-Runs :
      (item : Option StreamItem) (has_pending : Option Bool) (w : Watch)
      → Waits w
      → IsSound
          (w.deferred || (is_pending has_pending || any_pending rounds))
          w.pending_tool_calls
          ((run_item item has_pending w).0 ++ (run_rounds rounds (run_item item has_pending w).1).0)
          (run_rounds rounds (run_item item has_pending w).1).1
  run_item-Runs none has_pending w h = after_signal-Runs has_pending w h
  run_item-Runs (some end_of_stream) has_pending w h =
      subst (Runs _ w.pending_tool_calls) (sym (run_rounds-returned rounds)) tt
  run_item-Runs (some stream_error) has_pending w h =
      subst (Runs _ w.pending_tool_calls) (sym (run_rounds-errored rounds)) tt
  run_item-Runs (some (next event)) has_pending w h =
      let rest = run_rounds rounds (after_event (with_count event w) has_pending) in
      IsSound-first (w.deferred || (is_pending has_pending || any_pending rounds))
        w.pending_tool_calls event rest.0 rest.1
        (after_event-Runs event has_pending (with_count event w))

run_rounds-Runs :
    (rounds : List Round) (w : Watch)
    → Waits w
    → Runs (seen_so_far rounds w) w.pending_tool_calls (run_rounds rounds (watching w))
unfolding run_rounds any_pending run_round
run_rounds-Runs [] w h = (refl, λ d. h (ground (arith, d)))
run_rounds-Runs (round ∷ rounds) w h =
    run_item-Runs rounds (run_rounds-Runs rounds) round.item round.has_pending w h

IsSound-calls :
    (seen : Bool) (events : List Event) (standing : Standing)
    → IsSound seen 0 events standing
    → standing ≡ interrupted
    → calls_after 0 events ≡ 0
IsSound-calls seen events interrupted k h = k
IsSound-calls seen events (watching w) k h = ground (arith, h)
IsSound-calls seen events returned k h = ground (arith, h)
IsSound-calls seen events errored k h = ground (arith, h)

IsSound-waits :
    (seen : Bool) (events : List Event) (standing : Standing) (w : Watch)
    → IsSound seen 0 events standing
    → standing ≡ watching w
    → seen ≡ true
    → 0 < calls_after 0 events
IsSound-waits seen events (watching v) w k h g = ground (arith, k.0, k.1 g)
IsSound-waits seen events interrupted w k h g = ground (arith, h)
IsSound-waits seen events returned w k h g = ground (arith, h)
IsSound-waits seen events errored w k h g = ground (arith, h)

start-Runs :
    (rounds : List Round)
    → Runs
        (any_pending rounds)
        0
        (run_rounds rounds (watching (record { pending_tool_calls = 0; deferred = false })))
start-Runs rounds =
    run_rounds-Runs rounds (record { pending_tool_calls = 0; deferred = false })
      (λ d. ground (arith, d))

-- An interrupt never separates the call of a tool from its result: when it is raised, no call that
-- was yielded is without its result, by the ids of the calls. Each result that the stream gives is
-- that of a call that has none yet.
pub interrupted-calls :
    (has_pending : Bool) (rounds : List Round)
    → (iter_interruptible_events has_pending rounds).1 ≡ interrupted
    → Answers [] (iter_interruptible_events has_pending rounds).0
    → unanswered [] (iter_interruptible_events has_pending rounds).0 ≡ []
unfolding iter_interruptible_events
interrupted-calls true rounds h a = refl
interrupted-calls false rounds h a =
    let result =
      run_rounds rounds (watching (record { pending_tool_calls = 0; deferred = false })) in
    nil_of_length (unanswered [] result.0) (
      length-unanswered [] result.0 a
      ∙ IsSound-calls (any_pending rounds) result.0 result.1 (start-Runs rounds) h)

-- An interrupt is not put off for anything else: as long as the iteration goes on although a
-- notification has been pending, a call that was yielded has no result. Each result that the stream
-- gives is that of a call that has none yet.
pub watching-calls :
    (has_pending : Bool) (rounds : List Round) (w : Watch)
    → (iter_interruptible_events has_pending rounds).1 ≡ watching w
    → any_pending rounds ≡ true
    → Answers [] (iter_interruptible_events has_pending rounds).0
    → 0 < length (unanswered [] (iter_interruptible_events has_pending rounds).0)
unfolding iter_interruptible_events
watching-calls true rounds w h g a = ground (arith, h)
watching-calls false rounds w h g a =
    let result =
      run_rounds rounds (watching (record { pending_tool_calls = 0; deferred = false })) in
    rw (length-unanswered [] result.0 a)
      (IsSound-waits (any_pending rounds) result.0 result.1 w (start-Runs rounds) h g)
