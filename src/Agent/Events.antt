-- ===== src/Agent/Events.antt =====
-- bat/ports/agent.py: the request of a turn, the events that it emits, and the fold of a stream into
-- its terminal event. bat/ports/llm.py: what goes to the model and comes back.
use bat_ai.Prelude.{ℕ, Bool, true, false, List, [], ◌∷◌, ◌++◌, Option, String, if◌then◌else◌}
use bat_ai.Prelude.Dict.{Dict}
use bat_ai.Prelude.Text.{Text, codes, concat}
use bat_ai.Domain.Conversation.{Role, Message, Session, ToolCall, Value}
use bat_ai.Domain.Tenancy.{TenantContext}
use bat_ai.Tools.Policy.{ToolPolicy}

pub data StopReason : Type 0 where
  completed max_steps tool_budget cancelled error : StopReason

-- Durations are in microseconds.
pub record RunRequest : Type 0 where
  pub context : TenantContext
  pub session : Session
  pub user_input : Text
  pub history : List Message
  pub policy : ToolPolicy
  pub max_steps : ℕ
  pub tool_rounds_per_turn : ℕ
  pub deadline_s : ℕ
  pub stream_tokens : Bool

pub record FinalEvent : Type 0 where
  pub content : Text
  pub stop_reason : StopReason
  pub steps : ℕ
  pub prompt_tokens : ℕ
  pub completion_tokens : ℕ

pub data Event : Type 0 where
  token : Text → Event
  tool_call : String → String → Dict String Value → Event
  -- the call's id, the tool's name, the content, the error flag and the duration
  tool_result : String → String → Text → Bool → ℕ → Event
  final : FinalEvent → Event
  -- `ErrorEvent`: the code and the message
  failed : String → Text → Event

unfoldable pub is_terminal : Event → Bool
is_terminal (final f) = true
is_terminal (failed code message) = true
is_terminal _ = false

-- What `collect` returns.
pub data Terminal : Type 0 where
  final : FinalEvent → Terminal
  failed : String → Text → Terminal

unfoldable pub is_blank : Text → Bool
is_blank [] = true
is_blank (c ∷ s) = false

-- The end of `collect`: a final event without content takes the tokens that were streamed.
unfoldable pub complete_final : List Text → FinalEvent → FinalEvent
unfolding is_blank
complete_final buffer f = if is_blank f.content then record f { content = concat buffer } else f

-- The loop of `collect`: it stops at the first terminal event.
unfoldable pub collect_from : List Text → List Event → Terminal
unfolding complete_final
collect_from buffer [] = failed "incomplete_stream" (codes "agent produced no terminal event")
collect_from buffer (token t ∷ es) = collect_from (buffer ++ t ∷ []) es
collect_from buffer (final f ∷ es) = final (complete_final buffer f)
collect_from buffer (failed code message ∷ es) = failed code message
collect_from buffer (_ ∷ es) = collect_from buffer es

unfoldable pub collect : List Event → Terminal
unfolding collect_from
collect es = collect_from [] es

pub record ChatMessage : Type 0 where
  pub role : Role
  pub content : Text
  pub tool_calls : List ToolCall
  pub tool_call_id : Option String

pub record Completion : Type 0 where
  pub content : Text
  pub tool_calls : List ToolCall
  pub finish_reason : Text
  pub prompt_tokens : ℕ
  pub completion_tokens : ℕ
