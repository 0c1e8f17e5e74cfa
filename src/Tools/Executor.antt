-- ===== src/Tools/Executor.antt =====
-- bat/services/agent/tools.py: `PolicyToolExecutor.execute`, the point that every tool call passes.
-- The world `W` stands for all that a tool can touch; its clock is read in microseconds, and a
-- duration is kept in hundredths of a millisecond, as the source rounds it. The audit sink is the
-- list of its records.
use bat_ai.Prelude.{
  ℕ, ◌-◌, ◌/◌, ◌%◌, Bool, true, false, ◌||◌, not, List, [], ◌∷◌, ◌++◌, none, some, String,
  if◌then◌else◌, length, take, keep, map, contains, leb,
}
use bat_ai.Prelude.Text.{Text, codes, decimal, join, round_div}
use bat_ai.Prelude.Dict.{Dict}
use bat_ai.Domain.Conversation.{ToolResult, Value}
use bat_ai.Domain.Errors.{BatError, ok, raise, error, tool, tool_denied, not_found}
use bat_ai.Domain.Tenancy.{
  Scope, scope_eq, missing_scopes, sessions_read, sessions_write, agent_invoke, memory_read,
  memory_write, tools_execute, admin,
}
use bat_ai.Tools.Policy.{ToolDefinition, ToolInvocation, ToolPolicy, permits}
use bat_ai.Tools.Arguments.{Problem, validate_arguments, problem_text, is_empty}
use bat_ai.Tools.Registry.{
  Outcome, returns, raises, times_out, crashes, cancelled, Tool, Registry, find,
}

pub record AuditRecord : Type 0 where
  pub call_id : String
  pub tenant_id : String
  pub principal_id : String
  pub session_id : ℕ
  pub tool_name : String
  pub arguments : Dict String Value
  pub allowed : Bool
  pub denial_reason : Text
  pub duration_ms : ℕ
  pub is_error : Bool
  pub occurred_at : ℕ

pub scope_name : Scope → String
scope_name sessions_read = "sessions:read"
scope_name sessions_write = "sessions:write"
scope_name agent_invoke = "agent:invoke"
scope_name memory_read = "memory:read"
scope_name memory_write = "memory:write"
scope_name tools_execute = "tools:execute"
scope_name admin = "admin"

-- The scopes in the order of their names, for `sorted(str(s) for s in missing)`.
abbrev by_name : List Scope
by_name =
    admin ∷ agent_invoke ∷ memory_read ∷ memory_write ∷ sessions_read ∷ sessions_write
    ∷ tools_execute ∷ []

pub sorted_names : List Scope → List Text
sorted_names scopes = map (λ s. codes (scope_name s)) (keep (λ s. contains s scopes) by_name)

pub map_problems : (Problem → Text) → List Problem → List Text
map_problems f ps = map f ps

-- `_truncate`
unfoldable pub truncate : Text → ℕ → Text
truncate text limit =
    if leb (length text) limit
    then text
    else take limit text
      ++ (codes "\n... [truncated, " ++ (decimal (length text - limit) ++ codes " chars omitted]"))

-- `f"{timeout_s}s"` of a float with one decimal.
unfoldable pub seconds_text : ℕ → Text
seconds_text tenths = decimal (tenths / 10) ++ (codes "." ++ decimal (tenths % 10))

-- What the checks before the run decide: the tool, or the error and the denial that is recorded.
pub data Admission (W : Type 0) : Type 0 where
  admitted : Tool W → Admission W
  refused : BatError → Text → Admission W

-- What is not of the program: Python's `repr` of a text, the print of a property's choices, and the
-- clock of the world.
pub record Python (W : Type 0) : Type 0 where
  pub repr : String → Text
  pub shown : String → Text
  pub clock : W → ℕ

abbrev pub problems_text : (String → Text) → (String → Text) → List Problem → Text
problems_text repr shown ps = join (codes "; ") (map_problems (problem_text repr shown) ps)

module _ {W : Type 0} (py : Python W) where
  open py use {repr, shown, clock}

  unfoldable pub check_arguments : Tool W → ToolInvocation → Admission W
  check_arguments t i =
      let problems = validate_arguments t.definition.parameters i.arguments in
      if is_empty problems
      then admitted t
      else refused
          (error tool (
            codes "invalid arguments for "
            ++ (repr i.name ++ (codes ": " ++ problems_text repr shown problems))))
          (codes "invalid arguments")

  unfoldable pub check_scopes : Tool W → ToolInvocation → Admission W
  check_scopes t i =
      let lacking = missing_scopes i.context.principal t.definition.required_scopes in
      if is_empty lacking
      then check_arguments t i
      else refused
          (error tool (
            codes "tool "
            ++ (repr i.name
                ++ (codes " requires scope(s): " ++ join (codes ", ") (sorted_names lacking)))))
          (codes "missing scope")

  unfoldable pub check_policy : Tool W → ToolInvocation → ToolPolicy → Admission W
  check_policy t i policy = elim (permits policy t.definition) [
    | none ↦ check_scopes t i
    | some reason ↦
        refused (error tool (codes "tool " ++ (repr i.name ++ (codes " denied: " ++ reason))))
          reason
  ]

  unfoldable pub admit : Registry W → ToolInvocation → ToolPolicy → Admission W
  unfolding find
  admit tools i policy = elim (find tools i.name repr) [
    | raise e ↦ refused e []
    | ok t ↦ check_policy t i policy
  ]

  -- `_ms`
  unfoldable pub elapsed_ms : W → W → ℕ
  elapsed_ms before after = round_div (clock after - clock before) 10

  abbrev observation : ToolInvocation → Text → Bool → ℕ → ToolResult
  observation i content is_error duration = record {
    call_id = i.call_id;
    name = i.name;
    content = content;
    is_error = is_error;
    duration_ms = duration;
  }

  -- `except (ToolError, NotFoundError)`; any other `BatError` is an unexpected failure.
  unfoldable pub error_text : ToolInvocation → BatError → Text
  error_text i e = elim e.kind [
    | tool ↦ e.message
    | tool_denied ↦ e.message
    | not_found ↦ e.message
    | _ ↦ codes "Tool " ++ (repr i.name ++ codes " failed unexpectedly.")
  ]

  -- The result of the run, through the `except` clauses.
  unfoldable pub settle : ToolDefinition → ToolInvocation → Outcome Text → ℕ → Outcome ToolResult
  unfolding error_text
  settle d i (returns output) ms =
      returns (observation i (truncate output d.max_output_chars) false ms)
  settle d i times_out ms = returns (
      observation i (codes "Tool timed out after " ++ (seconds_text d.timeout_s ++ codes "s.")) true
        ms)
  settle d i (raises e) ms = returns (observation i (error_text i e) true ms)
  settle d i crashes ms =
      returns
        (observation i (codes "Tool " ++ (repr i.name ++ codes " failed unexpectedly.")) true ms)
  settle d i cancelled ms = cancelled

  -- The result of a call that the checks refuse.
  unfoldable pub refusal : BatError → ToolInvocation → W → ToolResult
  unfolding error_text elapsed_ms
  refusal e i w = observation i (error_text i e) true (elapsed_ms w w)

  -- The call that the checks let through runs; a refused one leaves the world alone.
  unfoldable pub run_admitted : Admission W → ToolInvocation → W → Outcome ToolResult × W
  unfolding settle elapsed_ms refusal
  run_admitted (refused e denial) i w = (returns (refusal e i w), w)
  run_admitted (admitted t) i w =
      let (outcome, w') = t.run i w in (settle t.definition i outcome (elapsed_ms w w'), w')

  unfoldable pub denial_of : Admission W → Text
  denial_of (admitted t) = []
  denial_of (refused e denial) = denial

  unfoldable pub audit_record : ToolInvocation → Text → ToolResult → W → AuditRecord
  audit_record i denial result w = record {
    call_id = i.call_id;
    tenant_id = i.context.tenant_id;
    principal_id = i.context.principal.id;
    session_id = i.session_id;
    tool_name = i.name;
    arguments = i.arguments;
    allowed = not result.is_error || is_empty denial;
    denial_reason = denial;
    duration_ms = result.duration_ms;
    is_error = result.is_error;
    occurred_at = clock w;
  }

  -- A cancelled call propagates before the audit.
  unfoldable pub audit :
      ToolInvocation
      → Text
      → Outcome ToolResult × W
      → List AuditRecord
      → Outcome ToolResult × List AuditRecord × W
  unfolding audit_record
  audit i denial (returns result, w) log =
      (returns result, log ++ audit_record i denial result w ∷ [], w)
  audit i denial (other, w) log = (other, log, w)

  unfoldable pub execute :
      Registry W
      → ToolInvocation
      → ToolPolicy
      → List AuditRecord
      → W
      → Outcome ToolResult × List AuditRecord × W
  execute tools i policy log w =
      let admission = admit tools i policy in
      audit i (denial_of admission) (run_admitted admission i w) log
