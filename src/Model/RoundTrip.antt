-- ===== src/Model/RoundTrip.antt =====
-- bat/adapters/llama_cpp_client.py: the calls that `_to_wire` writes are those that `_parse_completion`
-- reads.
use bat_ai.Prelude.{
  ◌≡◌, refl, ap, ℕ, ◌+◌, false, List, [], ◌∷◌, none, some, arith, string_eq, ◌==◌, All, map, inl,
}
use bat_ai.Prelude.Text.{Text}
use bat_ai.Rag.Chunking.{is_empty}
use bat_ai.Domain.Conversation.{ToolCall}
use bat_ai.Agent.Events.{ChatMessage}
use bat_ai.Model.Wire.{
  Json, WireMessage, Response, call_to_wire, message_to_wire, parse_arguments, parse_call,
  parse_calls, parse_completion, named, text_or,
}

-- An id and a name that are not empty.
abbrev pub IsNamed : ToolCall → Type 0
IsNamed c = ((c.id == "") ≡ false) × ((c.name == "") ≡ false)

-- The print of the arguments, by Python's JSON, is a text that reads back as the same object.
abbrev pub ReadsBack : Json → ToolCall → Type 0
ReadsBack json c =
    (json.loads (json.dumps c.arguments) ≡ some (inl c.arguments))
    × (is_empty (json.dumps c.arguments) ≡ false)

-- An answer of one choice.
abbrev pub answer : WireMessage → Response
answer m = record { choices = record { message = some m; finish_reason = none } ∷ []; usage = none }

text_or_nil : (s : Text) → text_or (some s) [] ≡ s
unfolding text_or is_empty
text_or_nil [] = refl
text_or_nil (c ∷ s) = refl

module _ (json : Json) where
  parse_call-to_wire :
      (read : ℕ) (c : ToolCall)
      → IsNamed c
      → ReadsBack json c
      → parse_call json read (call_to_wire json c) ≡ some c
  unfolding parse_call call_to_wire parse_arguments named
  parse_call-to_wire read c h back = ground (arith, h.0, h.1, back.0, back.1)

  parse_calls-to_wire :
      (read : ℕ) (cs : List ToolCall)
      → All IsNamed cs
      → All (ReadsBack json) cs
      → parse_calls json read (map (call_to_wire json) cs) ≡ cs
  unfolding parse_calls
  parse_calls-to_wire read [] h back = refl
  parse_calls-to_wire read (c ∷ cs) h back =
      rw (parse_call-to_wire read c h.0 back.0, parse_calls)
        (ap (λ x. c ∷ x) (parse_calls-to_wire (read + 1) cs h.1 back.1))

  -- A message that is written for llama.cpp and read as an answer keeps its content and its calls, each
  -- with its id, name and arguments and in their order, if no id and no name is empty and Python's
  -- JSON reads back what it prints for the arguments.
  pub parse_completion-to_wire :
      (m : ChatMessage)
      → All IsNamed m.tool_calls
      → All (ReadsBack json) m.tool_calls
      → let c = parse_completion json (answer (message_to_wire json m)) in
        (c.content ≡ m.content) × (c.tool_calls ≡ m.tool_calls)
  unfolding parse_completion message_to_wire text_or is_empty
  parse_completion-to_wire m h back =
      (text_or_nil m.content, parse_calls-to_wire 0 m.tool_calls h back)
