-- ===== src/Streaming/Interrupt/Calls.antt =====
-- core/task_runtime/interrupt.py: the calls of tools that have no result yet.
use zj_cyber_workbench.Prelude.{
  if◌then◌else◌, string_eq, ◌==◌, nat_eq, length, contains, ℕ, ◌+◌, ◌-◌, ◌<◌, String, ◌≡◌, refl, ap,
  ◌∙◌, true, List, [], ◌∷◌, arith,
}
use zj_cyber_workbench.Streaming.{
  Event, user_message, turn_boundary, run_state, text_delta, thinking_delta, text_complete,
  thinking_complete, tool_call, tool_result, subagent_task, done, failed,
}
use zj_cyber_workbench.Streaming.Interrupt.{count_tool_call}

-- The number of calls less that of results, over events that do not answer more than was called.
abbrev pub calls_after : ℕ → List Event → ℕ
calls_after n [] = n
calls_after n (tool_call e ∷ events) = calls_after (n + 1) events
calls_after n (tool_result e ∷ events) = calls_after (n - 1) events
calls_after n (event ∷ events) = calls_after n events

-- A list without the first occurrence of an id, if it has one.
abbrev pub answered : String → List String → List String
answered id [] = []
answered id (call ∷ calls) =
    let rest = answered id calls in if call == id then calls else call ∷ rest

-- The ids of the calls without a result after these events, if there were `calls` before.
abbrev pub unanswered : List String → List Event → List String
unanswered calls [] = calls
unanswered calls (tool_call e ∷ events) = unanswered (e.call_id ∷ calls) events
unanswered calls (tool_result e ∷ events) = unanswered (answered e.call_id calls) events
unanswered calls (event ∷ events) = unanswered calls events

-- Each result is that of a call, by its id, that has none yet.
abbrev pub Answers : List String → List Event → Type 0
Answers calls [] = Unit
Answers calls (tool_call e ∷ events) = Answers (e.call_id ∷ calls) events
Answers calls (tool_result e ∷ events) =
    (contains calls e.call_id ≡ true) × Answers (answered e.call_id calls) events
Answers calls (event ∷ events) = Answers calls events

length-contains : (id : String) (calls : List String) → contains calls id ≡ true → 0 < length calls
unfolding contains
length-contains id [] h = ground (arith, h)
length-contains id (call ∷ calls) h = omega arith

length-answered :
    (id : String) (calls : List String)
    → contains calls id ≡ true
    → length (answered id calls) ≡ length calls - 1
unfolding contains
length-answered id [] h = refl
length-answered id (call ∷ calls) h = ground (
  arith,
  h,
  string_eq.same_iff call id,
  string_eq.same_iff id call,
  length-contains id calls,
  length-answered id calls,
)

pub length-unanswered :
    (calls : List String) (events : List Event)
    → Answers calls events
    → length (unanswered calls events) ≡ calls_after (length calls) events
length-unanswered calls [] h = refl
length-unanswered calls (tool_call e ∷ events) h =
    length-unanswered (e.call_id ∷ calls) events h ∙ ap (λ n. calls_after n events) (omega arith)
length-unanswered calls (tool_result e ∷ events) h =
    length-unanswered (answered e.call_id calls) events h.1
    ∙ ap (λ n. calls_after n events) (length-answered e.call_id calls h.0)
length-unanswered calls (user_message e ∷ events) h = length-unanswered calls events h
length-unanswered calls (turn_boundary e ∷ events) h = length-unanswered calls events h
length-unanswered calls (run_state e ∷ events) h = length-unanswered calls events h
length-unanswered calls (text_delta e ∷ events) h = length-unanswered calls events h
length-unanswered calls (thinking_delta e ∷ events) h = length-unanswered calls events h
length-unanswered calls (text_complete e ∷ events) h = length-unanswered calls events h
length-unanswered calls (thinking_complete e ∷ events) h = length-unanswered calls events h
length-unanswered calls (subagent_task e ∷ events) h = length-unanswered calls events h
length-unanswered calls (done e ∷ events) h = length-unanswered calls events h
length-unanswered calls (failed e ∷ events) h = length-unanswered calls events h

pub nil_of_length : (calls : List String) → length calls ≡ 0 → calls ≡ []
nil_of_length [] h = refl
nil_of_length (call ∷ calls) h = absurd (omega (arith, h))

-- The counter of the code agrees with the calls.
pub calls_after-count :
    (n : ℕ) (event : Event) (events : List Event)
    → calls_after n (event ∷ events) ≡ calls_after (count_tool_call event n) events
unfolding count_tool_call
calls_after-count n (tool_call e) events = refl
calls_after-count n (tool_result e) events = refl
calls_after-count n (user_message e) events = refl
calls_after-count n (turn_boundary e) events = refl
calls_after-count n (run_state e) events = refl
calls_after-count n (text_delta e) events = refl
calls_after-count n (thinking_delta e) events = refl
calls_after-count n (text_complete e) events = refl
calls_after-count n (thinking_complete e) events = refl
calls_after-count n (subagent_task e) events = refl
calls_after-count n (done e) events = refl
calls_after-count n (failed e) events = refl
