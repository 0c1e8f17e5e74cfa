-- ===== src/Model/Wire.antt =====
-- bat/adapters/llama_cpp_client.py: what goes to llama.cpp and what comes back, as it is read: a
-- part of an answer that is absent, null or empty is `none` or empty. Python's JSON is a parameter.
use bat_ai.Prelude.{
  ℕ, zero, suc, ◌+◌, ◌-◌, List, [], ◌∷◌, Option, none, some, String, if◌then◌else◌, string_eq, ◌==◌,
  map, ◌⊎◌, inl, inr,
}
use bat_ai.Prelude.Dict.{Dict}
use bat_ai.Prelude.Text.{Text, codes, decimal}
use bat_ai.Rag.Chunking.{is_empty}
use bat_ai.Domain.Conversation.{Role, ToolCall, Value, text}
use bat_ai.Tools.Policy.{Schema, ToolSpec}
use bat_ai.Rag.Vectors.{prefixed}
use bat_ai.Agent.Events.{ChatMessage, Completion}

-- The arguments of a call: none, an object, or a text that ought to be one.
pub data Arguments : Type 0 where
  absent : Arguments
  parsed : Dict String Value → Arguments
  raw : Text → Arguments

pub record WireFunction : Type 0 where
  pub name : Option String
  pub arguments : Arguments

-- The type of a call is always `function`.
pub record WireCall : Type 0 where
  pub id : Option String
  pub function : Option WireFunction

pub record WireMessage : Type 0 where
  pub role : Role
  pub content : Option Text
  pub tool_calls : List WireCall
  pub tool_call_id : Option String

pub record WireTool : Type 0 where
  pub name : String
  pub description : String
  pub parameters : Schema

pub record Usage : Type 0 where
  pub prompt_tokens : Option ℕ
  pub completion_tokens : Option ℕ

pub record Choice : Type 0 where
  pub message : Option WireMessage
  pub finish_reason : Option Text

pub record Response : Type 0 where
  pub choices : List Choice
  pub usage : Option Usage

-- A chunk of a stream: the contents of the deltas of its choices.
pub record Chunk : Type 0 where
  pub deltas : List (Option Text)

-- Python's JSON: the print of an object, and what a text is read as, an object or another value; `none`
-- for a text that is no JSON.
pub record Json : Type 0 where
  pub dumps : Dict String Value → Text
  pub loads : Text → Option (Dict String Value ⊎ Value)

-- `value or default`, for texts.
unfoldable pub text_or : Option Text → Text → Text
text_or none default = default
text_or (some s) default = if is_empty s then default else s

unfoldable pub named : Option String → Option String
named none = none
named (some s) = if s == "" then none else some s

abbrev digits : List String
digits = "0" ∷ "1" ∷ "2" ∷ "3" ∷ "4" ∷ "5" ∷ "6" ∷ "7" ∷ "8" ∷ "9" ∷ []

digit : ℕ → List String → String
digit n [] = ""
digit zero (d ∷ ds) = d
digit (suc n) (d ∷ ds) = digit n ds

spell : Text → String
unfolding digit
spell [] = ""
spell (c ∷ cs) = prefixed (digit (c - b'0') digits) (spell cs)

-- `f"call_{n}"`
unfoldable pub call_id : ℕ → String
unfolding spell
call_id n = prefixed "call_" (spell (decimal n))

unfoldable pub number_or_zero : Option ℕ → ℕ
number_or_zero none = 0
number_or_zero (some n) = n

-- `_tool_to_wire`
unfoldable pub tool_to_wire : ToolSpec → WireTool
tool_to_wire spec = record {
  name = spec.name;
  description = spec.description;
  parameters = spec.parameters;
}

module _ (json : Json) where
  open json use {dumps, loads}

  unfoldable pub call_to_wire : ToolCall → WireCall
  call_to_wire c = record {
    id = some c.id;
    function = some (record { name = some c.name; arguments = raw (dumps c.arguments) });
  }

  unfoldable pub message_to_wire : ChatMessage → WireMessage
  unfolding call_to_wire named
  message_to_wire m = record {
    role = m.role;
    content = some m.content;
    tool_calls = map call_to_wire m.tool_calls;
    tool_call_id = named m.tool_call_id;
  }

  -- `_to_wire`
  unfoldable pub to_wire : List ChatMessage → List WireMessage
  unfolding message_to_wire
  to_wire messages = map message_to_wire messages

  read_arguments : Text → Dict String Value
  read_arguments s = elim (loads s) [
    | none ↦ ("__unparsed__", text s) ∷ []
    | some (inl fields) ↦ fields
    | some (inr v) ↦ ("value", v) ∷ []
  ]

  -- `_parse_arguments`
  unfoldable pub parse_arguments : Arguments → Dict String Value
  unfolding read_arguments
  parse_arguments absent = []
  parse_arguments (parsed fields) = fields
  parse_arguments (raw s) = if is_empty s then [] else read_arguments s

  -- The call of an entry, when so many have been read; an entry without a name is none.
  unfoldable pub parse_call : ℕ → WireCall → Option ToolCall
  unfolding parse_arguments named call_id
  parse_call read c = elim c.function [
    | none ↦ none
    | some f ↦ elim (named f.name) [
      | none ↦ none
      | some name ↦ some (record {
        id = elim (named c.id) [ none ↦ call_id read | some id ↦ id ];
        name = name;
        arguments = parse_arguments f.arguments;
      })
    ]
  ]

  -- The loop over the entries.
  unfoldable pub parse_calls : ℕ → List WireCall → List ToolCall
  unfolding parse_call
  parse_calls read [] = []
  parse_calls read (c ∷ cs) =
      let next = parse_calls (read + 1) cs in
      let same = parse_calls read cs in
      elim (parse_call read c) [ none ↦ same | some call ↦ call ∷ next ]

  empty_choice : Choice
  empty_choice = record { message = none; finish_reason = none }

  first_choice : List Choice → Choice
  unfolding empty_choice
  first_choice [] = empty_choice
  first_choice (c ∷ cs) = c

  calls_of : Option WireMessage → List WireCall
  calls_of none = []
  calls_of (some m) = m.tool_calls

  content_of : Option WireMessage → Text
  unfolding text_or
  content_of none = []
  content_of (some m) = text_or m.content []

  -- `_parse_completion`
  unfoldable pub parse_completion : Response → Completion
  unfolding parse_calls first_choice calls_of content_of number_or_zero
  parse_completion r =
      let choice = first_choice r.choices in
      record {
        content = content_of choice.message;
        tool_calls = parse_calls 0 (calls_of choice.message);
        finish_reason = text_or choice.finish_reason (codes "stop");
        prompt_tokens = elim r.usage [ none ↦ 0 | some u ↦ number_or_zero u.prompt_tokens ];
        completion_tokens = elim r.usage [ none ↦ 0 | some u ↦ number_or_zero u.completion_tokens ];
      }

-- `_extract_delta`
unfoldable pub extract_delta : Chunk → Text
unfolding text_or
extract_delta c = elim c.deltas [ [] ↦ [] | d ∷ ds ↦ text_or d [] ]
