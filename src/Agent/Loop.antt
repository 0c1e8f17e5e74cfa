-- ===== src/Agent/Loop.antt =====
-- bat/services/agent/loop.py: `NativeAgentRunner.run`. The remaining steps of the turn are the
-- recursion's argument, so the loop ends by itself.
use bat_ai.Prelude.{
  ℕ, zero, suc, ◌+◌, ◌-◌, max, ◌&&◌, ◌||◌, not, List, [], ◌∷◌, ◌++◌, Option, none, some,
  if◌then◌else◌, leb, length, take, map,
}
use bat_ai.Prelude.Text.{Text, codes, concat}
use bat_ai.Domain.Conversation.{assistant, ToolCall}
use bat_ai.Domain.Errors.{error_code, is_public}
use bat_ai.Tools.Policy.{ToolSpec}
use bat_ai.Tools.Registry.{Outcome, returns}
use bat_ai.Agent.Events.{
  RunRequest, Event, token, final, failed, FinalEvent, StopReason, completed, max_steps,
  ChatMessage, Completion,
}
use bat_ai.Agent.Prompt.{Runner, retrieve, prompt_of, advertise, is_unusable, is_empty_text}
use bat_ai.Agent.Observe.{Failure, bat, crashed, gone, failure_of, Observed, Calls, run_calls}

-- The variables of `run`.
pub record State : Type 0 where
  pub messages : List ChatMessage
  pub specs : List ToolSpec
  pub observed : Observed
  pub budget : ℕ
  pub rounds : ℕ
  pub steps : ℕ
  pub prompt_tokens : ℕ
  pub completion_tokens : ℕ

-- What a run has emitted, and the exception that stopped it.
pub record Trace (W : Type 0) : Type 0 where
  pub events : List Event
  pub failure : Option Failure
  pub world : W

unfoldable pub final_of : State → Text → StopReason → ℕ → FinalEvent
final_of s content reason tokens = record {
  content = content;
  stop_reason = reason;
  steps = s.steps;
  prompt_tokens = s.prompt_tokens;
  completion_tokens = tokens;
}

-- `x or y` of numbers
abbrev or_else : ℕ → ℕ → ℕ
or_else zero n = n
or_else (suc m) n = suc m

-- The delay that is left, in microseconds and at least a second.
unfoldable pub remaining : ℕ → ℕ → ℕ
remaining expires now = max 1000000 (expires - now)

unfoldable pub stream_events : RunRequest → List Text → List Event
stream_events q deltas = if q.stream_tokens then map token deltas else []

unfoldable pub count_tokens : State → Completion → State
count_tokens s c = record s {
  prompt_tokens = s.prompt_tokens + c.prompt_tokens;
  completion_tokens = s.completion_tokens + c.completion_tokens;
}

unfoldable pub withdraw_tools : State → State
withdraw_tools s = record s { specs = [] }

-- The calls of a reply that the budget lets through.
unfoldable pub within_budget : State → Completion → List ToolCall
within_budget s c = take s.budget c.tool_calls

unfoldable pub next_step : State → State
next_step s = record s { steps = suc s.steps }

unfoldable pub error_event : Failure → List Event
error_event (bat e) =
    failed (error_code e.kind)
      (if is_public e.kind then e.message else codes "the model backend failed")
    ∷ []
error_event crashed = failed "agent_error" (codes "the agent failed unexpectedly") ∷ []
error_event gone = []

module _ {W : Type 0} where
  abbrev pub emit : List Event → W → Trace W
  emit events w = record { events = events; failure = none; world = w }

  abbrev pub stopped : Option Failure → W → Trace W
  stopped failure w = record { events = []; failure = failure; world = w }

  abbrev pub prepend : List Event → Trace W → Trace W
  prepend events t = record { events = events ++ t.events; failure = t.failure; world = t.world }

  -- The state after the calls of a reply.
  unfoldable pub after_round : State → Completion → List ToolCall → Calls W → State
  after_round s c calls done =
      let budget = s.budget - length calls in
      let rounds = s.rounds - 1 in
      record s {
        messages =
            s.messages
            ++ (record {
              role = assistant;
              content = c.content;
              tool_calls = calls;
              tool_call_id = none;
            }
                ∷ done.replies);
        specs = if leb budget 0 || leb rounds 0 then [] else s.specs;
        observed = done.observed;
        budget = budget;
        rounds = rounds;
      }

  -- After the calls the loop continues, unless one of them raised.
  unfoldable pub continue_round : (State → W → Trace W) → State → Calls W → Trace W
  continue_round next s done = elim done.failure [
    | some failure ↦ record { events = done.events; failure = some failure; world = done.world }
    | none ↦ prepend done.events (next s done.world)
  ]

  -- The `except` clauses: a cancellation propagates, and any other exception ends the stream.
  unfoldable pub close : Trace W → Trace W
  unfolding error_event
  close t = elim t.failure [
    | none ↦ t
    | some failure ↦ record {
      events = t.events ++ error_event failure;
      failure = elim failure [ gone ↦ some gone | _ ↦ none ];
      world = t.world;
    }
  ]

  -- The end of a streamed answer.
  unfoldable pub stream_end : RunRequest → State → List Text × Outcome (Unit {0}) × W → Trace W
  unfolding final_of failure_of stream_events
  stream_end q s (deltas, returns _, w) =
      emit
        (stream_events q deltas
          ++ final
              (final_of s (concat deltas) completed (or_else s.completion_tokens (length deltas)))
            ∷ [])
        w
  stream_end q s (deltas, other, w) = record {
    events = stream_events q deltas;
    failure = failure_of other;
    world = w;
  }

  -- The answer of a model that called no tool.
  unfoldable pub answer : RunRequest → State → Text → W → Trace W
  unfolding final_of is_empty_text
  answer q s content w =
      emit
        ((if q.stream_tokens && not (is_empty_text content) then token content ∷ [] else [])
          ++ final (final_of s content completed s.completion_tokens) ∷ [])
        w

module _ {W : Type 0} (r : Runner W) (q : RunRequest) where
  -- A completion that was asked for with tools.
  unfoldable pub tool_turn : (State → W → Trace W) → State → Completion → W → Trace W
  unfolding answer is_unusable withdraw_tools within_budget after_round continue_round run_calls
  tool_turn next s c w = elim c.tool_calls [
    | [] ↦ if is_unusable c.content then next (withdraw_tools s) w else answer q s c.content w
    | call ∷ others ↦
        let calls = within_budget s c in
        let done = run_calls r q calls s.observed w in
        continue_round next (after_round s c calls done) done
  ]

  unfoldable pub completed_turn : (State → W → Trace W) → State → Outcome Completion × W → Trace W
  unfolding count_tokens tool_turn failure_of
  completed_turn next s (returns c, w) = tool_turn next (count_tokens s c) c w
  completed_turn next s (other, w) = stopped (failure_of other) w

  -- One turn of the `while` loop, with the loop that follows it.
  unfoldable pub turn : ℕ → (State → W → Trace W) → State → W → Trace W
  unfolding final_of next_step remaining completed_turn stream_end
  turn expires next s w =
      if leb expires (r.clock w)
      then emit
          (final (
              final_of s (codes "The request ran out of time before completing.") max_steps
                s.completion_tokens)
            ∷ [])
          w
      else elim s.specs [
        | [] ↦ stream_end q (next_step s) (r.stream s.messages (remaining expires (r.clock w)) w)
        | spec ∷ specs ↦
            completed_turn next (next_step s)
              (r.complete s.messages s.specs (remaining expires (r.clock w)) w)
      ]

  -- `while steps < request.max_steps`, by the steps that are left.
  unfoldable pub loop : ℕ → ℕ → State → W → Trace W
  unfolding turn final_of
  loop expires zero s w =
      emit
        (final (
            final_of s (codes "I reached the step limit for this turn.") max_steps
              s.completion_tokens)
          ∷ [])
        w
  loop expires (suc n) s w = turn expires (loop expires n) s w

  unfoldable pub initial : List ChatMessage → List ToolSpec → State
  initial messages specs = record {
    messages = messages;
    specs = specs;
    observed = [];
    budget = q.policy.max_calls_per_run;
    rounds = q.tool_rounds_per_turn;
    steps = 0;
    prompt_tokens = 0;
    completion_tokens = 0;
  }

  -- The body of the `try`.
  unfoldable pub started : ℕ → Outcome Text × W → Trace W
  unfolding prompt_of advertise initial loop failure_of
  started expires (returns context, w) =
      loop expires q.max_steps (initial (prompt_of r.model_name q context) (advertise r q)) w
  started expires (other, w) = stopped (failure_of other) w

  unfoldable pub run : W → Trace W
  unfolding close started retrieve
  run w = close (started (r.clock w + q.deadline_s) (retrieve r q w))
