-- ===== src/Builtin/Tools.antt =====
-- bat/tools/builtin.py: the three tools. A tool acts on a world that has the memories of the
-- tenants and what the sandbox works on. How Python prints a text, a score or a value that is no
-- integer is a parameter.
use Prim.Native.Nat.{◌^◌}
use bat_ai.Prelude.{
  ℕ, true, false, List, [], ◌∷◌, ◌++◌, Option, none, some, String, if◌then◌else◌, string_eq, ltb,
  length, map, ◌⊎◌,
}
use bat_ai.Prelude.Integers.{magnitude, print}
use bat_ai.Prelude.Dict.{get}
use bat_ai.Prelude.Text.{Text, codes, strip, join, decimal}
use bat_ai.Domain.Conversation.{Value, null, boolean, integer, number, text, array, object}
use bat_ai.Domain.Errors.{error, tool}
use bat_ai.Domain.Tenancy.{Scope, tools_execute, memory_read}
use bat_ai.Tools.Policy.{
  Authority, pure, tenant, host, in_process, subprocess, read_only, Schema, ToolDefinition,
  ToolInvocation,
}
use bat_ai.Tools.Registry.{Outcome, returns, raises, crashes, cancelled, Tool, Registry, register}
use bat_ai.Rag.Chunking.{is_empty}
use bat_ai.Rag.Vectors.{Spaces, Embedding, RetrievedChunk, Query}
use bat_ai.Rag.Pipeline.{origin, retrieve}
use bat_ai.Builtin.Calculator.{Node, exact, Floats, follow, evaluate_expression}
use bat_ai.Builtin.Sandbox.{Host, Files, default_limits, run_python, render}
use bat_ai.Builtin.Calculator

-- A schema with one text that is required, and nothing else.
abbrev one_text : String → Schema
one_text name = record {
  properties = (name, record { type = some "string"; choices = none }) ∷ [];
  required = name ∷ [];
  closed = true;
}

-- `ToolDefinition` with the defaults of its fields.
abbrev define : String → String → Schema → Authority → List Scope → ℕ → ToolDefinition
define name description parameters authority scopes timeout_s = record {
  name = name;
  description = description;
  parameters = parameters;
  authority = authority;
  isolation = in_process;
  executes_arbitrary_code = false;
  side_effect = read_only;
  required_scopes = scopes;
  timeout_s = timeout_s;
  max_output_chars = 8000;
  requires_confirmation = false;
  deterministic = true;
}

abbrev pub calculator_definition : ToolDefinition
calculator_definition =
    define "calculator"
      "Evaluate an arithmetic expression exactly. Use this for any calculation instead of computing mentally. Supports + - * / // % **, and abs, round, min, max, sum, sqrt, factorial, log, log2, log10, exp, sin, cos, tan, floor, ceil, gcd, plus the constants pi, e and tau."
      (one_text "expression") pure (tools_execute ∷ []) 50

abbrev pub memory_search_definition : ToolDefinition
memory_search_definition =
    define "memory_search"
      "Search the user's stored documents and remembered facts. Use when the answer may be in material the user saved earlier."
      (one_text "query") tenant (tools_execute ∷ memory_read ∷ []) 200

abbrev pub python_exec_definition : ToolDefinition
python_exec_definition =
    record (define "python_exec"
      "Run a short Python program and return its stdout. The program runs with no network credentials, an empty working directory and a short time limit. Print the result you want to see."
      (one_text "code") host (tools_execute ∷ []) 300) {
        isolation = subprocess;
        executes_arbitrary_code = true;
        requires_confirmation = true;
      }

-- `str(value)`
unfoldable pub str : Value → Text
str null = codes "None"
str (boolean true) = codes "True"
str (boolean false) = codes "False"
str (integer t) = t
str (number t) = t
str (text t) = t
str (array t) = t
str (object t) = t

-- `str(invocation.arguments[name])`, with the `KeyError` of a name that is not there.
unfoldable pub argument : ToolInvocation → String → Outcome Text
unfolding str
argument i name = elim (get i.arguments name) [ none ↦ crashes | some v ↦ returns (str v) ]

-- The most digits of an integer that Python prints; for more it raises a `ValueError`.
abbrev pub max_digits : ℕ
max_digits = 4300

-- What the tools use of Python, of the operating system and of the embedder.
pub record Parts (F V W : Type 0) : Type 0 where
  pub floats : Floats F
  pub parse : Text → Text ⊎ Node F
  -- The print of a value that is not an integer, or the error that it raises.
  pub shown : Calculator.Value F → Option Text
  pub repr : Text → Text
  pub shown_score : ℕ → Text
  pub embedding : Embedding V
  pub sandbox : Host W
  pub python : Text
  -- The name of the next temporary directory.
  pub fresh : List String → String

-- What the tools act on.
pub record Site (V W : Type 0) : Type 0 where
  pub memories : Spaces V
  pub files : Files W

-- The bounds that the memory search is built with.
pub record SearchBounds : Type 0 where
  pub top_k : ℕ
  pub min_score : ℕ

module _ {F V W : Type 0} (parts : Parts F V W) where
  open parts use {floats, parse, shown, repr, shown_score, embedding, sandbox, python, fresh}

  unfoldable pub show_value : Calculator.Value F → Outcome Text
  show_value (exact a) = if ltb (magnitude a) (10 ^ max_digits) then returns (print a) else crashes
  show_value v = elim (shown v) [ none ↦ crashes | some t ↦ returns t ]

  -- `CalculatorTool.run`
  unfoldable pub run_calculator : ToolInvocation → Outcome Text
  unfolding argument show_value evaluate_expression
  run_calculator i = follow (argument i "expression") λ expression.
      follow (evaluate_expression floats parse expression)
        λ v. follow (show_value v) λ shown_v. returns (expression ++ (codes " = " ++ shown_v))

  hit_line : RetrievedChunk → Text
  hit_line hit =
      codes "- ["
      ++ (shown_score hit.score ++ (origin hit.chunk.source ++ (codes "] " ++ hit.chunk.text)))

  unfoldable pub show_hits : Text → List RetrievedChunk → Text
  unfolding hit_line
  show_hits query hits =
      if is_empty hits
      then codes "Nothing in memory matches " ++ (repr query ++ codes ".")
      else join (codes "\n") (
          (decimal (length hits) ++ (codes " result(s) for " ++ (repr query ++ codes ":")))
          ∷ map hit_line hits)

  unfoldable pub query_of : SearchBounds → Text → Query
  query_of bounds query = record {
    text = query;
    top_k = bounds.top_k;
    kinds = [];
    min_score = bounds.min_score;
    filters = [];
  }

  -- The answer to what the retrieval finds, if it does not raise.
  unfoldable pub answer : Text → Option (List RetrievedChunk) → Outcome Text
  unfolding show_hits
  answer query none = crashes
  answer query (some hits) = returns (show_hits query hits)

  -- `MemorySearchTool.run`: the tenant is that of the context.
  unfoldable pub run_memory_search : SearchBounds → ToolInvocation → Spaces V → Outcome Text
  unfolding argument query_of answer
  run_memory_search bounds i memories = follow (argument i "query") λ query.
      answer query (retrieve embedding memories i.context.tenant_id (query_of bounds query))

  -- The run of a program, and what is told of it.
  unfoldable pub run_code : Text → Files W → Outcome Text × Files W
  unfolding run_python render
  run_code code files =
      let (result, files') =
        run_python sandbox python default_limits (fresh files.directories) code files in
      (elim result [ none ↦ cancelled | some r ↦ returns (render r) ], files')

  -- `PythonExecTool.run`
  unfoldable pub run_python_exec : ToolInvocation → Files W → Outcome Text × Files W
  unfolding argument run_code strip
  run_python_exec i files = elim (argument i "code") [
    | returns code ↦
        if is_empty (strip code)
        then (raises (error tool (codes "code must not be empty")), files)
        else run_code code files
    | raises e ↦ (raises e, files)
    | _ ↦ (crashes, files)
  ]

  unfoldable pub calculator : Tool (Site V W)
  unfolding run_calculator
  calculator = record {
    definition = calculator_definition;
    run = λ i site. (run_calculator i, site);
  }

  unfoldable pub memory_search : SearchBounds → Tool (Site V W)
  unfolding run_memory_search
  memory_search bounds = record {
    definition = memory_search_definition;
    run = λ i site. (run_memory_search bounds i site.memories, site);
  }

  unfoldable pub python_exec : Tool (Site V W)
  unfolding run_python_exec
  python_exec = record {
    definition = python_exec_definition;
    run = λ i site.
        let (outcome, files') = run_python_exec i site.files in
        (outcome, record site { files = files' });
  }

  -- `build_default_tools`; without a memory there is nothing to search.
  unfoldable pub build_default_tools : Option SearchBounds → List (Tool (Site V W))
  unfolding calculator memory_search python_exec
  build_default_tools none = calculator ∷ python_exec ∷ []
  build_default_tools (some bounds) = calculator ∷ python_exec ∷ memory_search bounds ∷ []

-- `InMemoryToolRegistry`, with the tools that it is constructed with.
unfoldable pub register_all : {W : Type 0} → Registry W → List (Tool W) → Option (Registry W)
unfolding register
register_all tools [] = some tools
register_all tools (t ∷ ts) = elim (register tools t) [
  | none ↦ none
  | some tools' ↦ register_all tools' ts
]

abbrev pub saas_safe_tools : List String
saas_safe_tools = "calculator" ∷ "memory_search" ∷ []
