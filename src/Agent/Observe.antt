-- ===== src/Agent/Observe.antt =====
-- bat/services/agent/loop.py: the identity of a tool call, the calls that may be replayed, and the
-- calls of one reply, each run or replayed in turn.
use bat_ai.Prelude.{
  Bool, false, ◌&&◌, not, List, [], ◌∷◌, ◌++◌, Option, none, some, String, if◌then◌else◌, string_eq,
  pair_eq, ◌==◌,
}
use bat_ai.Prelude.Dict.{Dict, get, put}
use bat_ai.Prelude.Text.{Text, codes}
use bat_ai.Domain.Conversation.{tool, ToolCall, ToolResult}
use bat_ai.Domain.Errors.{BatError}
use bat_ai.Tools.Policy.{ToolDefinition, effect_eq, read_only}
use bat_ai.Tools.Registry.{Outcome, returns, raises, times_out, crashes, cancelled}
use bat_ai.Agent.Events.{RunRequest, Event, tool_call, tool_result, ChatMessage}
use bat_ai.Agent.Prompt.{Runner}

-- What stops a run: a `BatError`, any other exception, or a cancellation.
pub data Failure : Type 0 where
  bat : BatError → Failure
  crashed gone : Failure

-- The exception that an awaited call ends with.
unfoldable pub failure_of {ℓ} : {A : Type ℓ} → Outcome A → Option Failure
failure_of (returns a) = none
failure_of (raises e) = some (bat e)
failure_of times_out = some crashed
failure_of crashes = some crashed
failure_of cancelled = some gone

abbrev pub Observed : Type 0
Observed = Dict (String × String) ToolResult

-- `REPEAT_NOTICE`
abbrev pub repeat_notice : Text
repeat_notice =
    codes
      "You already made this exact call this turn and the result has not changed. Use it rather than calling again.\n\n"

abbrev pub replay : ToolCall → ToolResult → ToolResult
replay call previous = record {
  call_id = call.id;
  name = previous.name;
  content = repeat_notice ++ previous.content;
  is_error = previous.is_error;
  duration_ms = 0;
}

-- What the calls of a reply leave: the events, the exception if one was raised, the messages that
-- they add, the turn's cache and the world.
pub record Calls (W : Type 0) : Type 0 where
  pub events : List Event
  pub failure : Option Failure
  pub replies : List ChatMessage
  pub observed : Observed
  pub world : W

unfoldable pub result_event : ToolResult → Event
result_event r = tool_result r.call_id r.name r.content r.is_error r.duration_ms

unfoldable pub result_message : ToolResult → ChatMessage
result_message r = record {
  role = tool;
  content = r.content;
  tool_calls = [];
  tool_call_id = some r.call_id;
}

module _ {W : Type 0} (r : Runner W) where
  -- `_call_key`
  abbrev pub call_key : ToolCall → String × String
  call_key call = (call.name, r.canonical call.arguments)

  abbrev pub is_pure : ToolDefinition → Bool
  is_pure d = d.deterministic && (d.side_effect == read_only)

  -- `_is_cacheable`
  unfoldable pub is_cacheable : String → Bool
  is_cacheable name = elim r.registry [
    | none ↦ false
    | some tools ↦ elim (get tools name) [ none ↦ false | some t ↦ is_pure t.definition ]
  ]

  -- `_invoke`
  unfoldable pub invoke : RunRequest → ToolCall → W → Outcome ToolResult × W
  invoke q call w =
      r.execute
        (record {
          call_id = call.id;
          name = call.name;
          arguments = call.arguments;
          context = q.context;
          session_id = q.session.id;
        })
        q.policy w

  -- A result is kept for the turn if its call may be replayed and it is no error.
  unfoldable pub remember : ToolCall → Outcome ToolResult → Observed → Observed
  remember call (returns result) observed =
      if is_cacheable call.name && not result.is_error
      then put observed (call_key call) result
      else observed
  remember call other observed = observed

  -- The turn's answer to a call, if it is a repeat that may be replayed.
  unfoldable pub recall : ToolCall → Observed → Option ToolResult
  recall call observed = if is_cacheable call.name then get observed (call_key call) else none

  -- `_invoke_deduplicated`
  unfoldable pub invoke_deduplicated :
      RunRequest → ToolCall → Observed → W → Outcome ToolResult × Observed × W
  unfolding recall remember invoke
  invoke_deduplicated q call observed w = elim (recall call observed) [
    | some previous ↦ (returns (replay call previous), observed, w)
    | none ↦ let (outcome, w') = invoke q call w in (outcome, remember call outcome observed, w')
  ]

  -- A call is announced, and its result follows unless it was not returned.
  unfoldable pub after_call :
      ToolCall → Outcome ToolResult × Observed × W → (Observed → W → Calls W) → Calls W
  unfolding result_event result_message failure_of
  after_call call (returns result, observed, w) rest =
      let more = rest observed w in
      record {
        events = tool_call call.id call.name call.arguments ∷ result_event result ∷ more.events;
        failure = more.failure;
        replies = result_message result ∷ more.replies;
        observed = more.observed;
        world = more.world;
      }
  after_call call (other, observed, w) rest = record {
    events = tool_call call.id call.name call.arguments ∷ [];
    failure = failure_of other;
    replies = [];
    observed = observed;
    world = w;
  }

  -- `for call in calls`
  unfoldable pub run_calls : RunRequest → List ToolCall → Observed → W → Calls W
  unfolding after_call invoke_deduplicated
  run_calls q [] observed w = record {
    events = [];
    failure = none;
    replies = [];
    observed = observed;
    world = w;
  }
  run_calls q (call ∷ calls) observed w =
      after_call call (invoke_deduplicated q call observed w) (λ o w'. run_calls q calls o w')
