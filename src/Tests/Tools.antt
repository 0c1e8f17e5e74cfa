-- ===== src/Tests/Tools.antt =====
-- Tests of the domain and of the tools: one principal, one tool and one policy.
use bat_ai.Prelude.{ℕ, ◌+◌, ◌≡◌, refl, true, false, [], ◌∷◌, none, some, ◌↔◌, ◌⊎◌, string_eq}
use bat_ai.Prelude.Dict.{get}
use bat_ai.Prelude.Text.{codes}
use bat_ai.Domain.Conversation.{text}
use bat_ai.Domain.Tenancy.{
  Principal, TenantContext, tools_execute, sessions_read, has, missing_scopes, scope_eq,
}
use bat_ai.Tools.Policy.{
  Schema, ToolDefinition, ToolInvocation, ToolPolicy, pure, tenant, host, in_process, subprocess,
  read_only, effect_eq, permits,
}
use bat_ai.Tools.Arguments.{
  check_argument, check_required, validate_arguments, conforms, validate_arguments-nil_iff, type_ok,
  is_empty,
}
use bat_ai.Tools.Registry.{returns, Tool, Registry, find}
use bat_ai.Tools.Executor.{
  Python, admitted, admit, check_policy, check_scopes, check_arguments, run_admitted, audit,
  execute,
}
use bat_ai.Tools.Safety.{MayRun, IsRefusal, admit-admitted_iff, execute_gate}
use bat_ai.Tools.Audit.{IsReported, execute-IsReported}
use bat_ai.Tools.Arguments

abbrev pub alice : Principal
alice = record {
  id = "alice";
  tenant_id = "acme";
  scopes = tools_execute ∷ sessions_read ∷ [];
  display_name = none;
}

abbrev pub acme : TenantContext
acme = record { tenant_id = "acme"; principal = alice; request_id = "req1"; started_at = 0 }

abbrev pub expression_schema : Schema
expression_schema = record {
  properties = ("expression", record { type = some "string"; choices = none }) ∷ [];
  required = "expression" ∷ [];
  closed = true;
}

abbrev pub calculator_definition : ToolDefinition
calculator_definition = record {
  name = "calculator";
  description = "Evaluate an arithmetic expression.";
  parameters = expression_schema;
  authority = pure;
  isolation = in_process;
  executes_arbitrary_code = false;
  side_effect = read_only;
  required_scopes = tools_execute ∷ [];
  timeout_s = 20;
  max_output_chars = 500;
  requires_confirmation = false;
  deterministic = true;
}

-- A world is the number of runs that have been made.
abbrev pub calculator : Tool ℕ
calculator = record {
  definition = calculator_definition;
  run = λ i w. (returns (codes "4"), w + 1);
}

abbrev pub opener : Tool ℕ
opener = record {
  definition = record calculator_definition { name = "open_app"; authority = host };
  run = λ i w. (returns (codes "opened"), w + 100);
}

abbrev pub tools : Registry ℕ
tools = ("calculator", calculator) ∷ ("open_app", opener) ∷ []

abbrev no_tools : Registry ℕ
no_tools = []

abbrev one_tool : Registry ℕ
one_tool = ("calculator", calculator) ∷ []

abbrev pub python : Python ℕ
python = record { repr = codes; shown = codes; clock = λ w. w }

abbrev pub policy : ToolPolicy
policy = record {
  allowed = "calculator" ∷ "open_app" ∷ [];
  max_authority = tenant;
  min_code_isolation = subprocess;
  allowed_side_effects = read_only ∷ [];
  max_calls_per_run = 2;
}

abbrev pub two_plus_two : ToolInvocation
two_plus_two = record {
  call_id = "c1";
  name = "calculator";
  arguments = ("expression", text (codes "2 + 2")) ∷ [];
  context = acme;
  session_id = 7;
}

abbrev opening : ToolInvocation
opening = record two_plus_two { name = "open_app" }

abbrev unknown : ToolInvocation
unknown = record two_plus_two { name = "guesswork" }

admit-admitted_iff_example :
    (admit python tools two_plus_two policy ≡ admitted calculator)
    ↔ MayRun tools two_plus_two policy calculator
admit-admitted_iff_example = admit-admitted_iff python tools two_plus_two policy calculator

execute_gate_example :
    ((t : Tool ℕ) × MayRun tools two_plus_two policy t
      × ((execute python tools two_plus_two policy [] 0).2 ≡ (t.run two_plus_two 0).1))
    ⊎ IsRefusal two_plus_two 0 (execute python tools two_plus_two policy [] 0)
execute_gate_example = execute_gate python tools two_plus_two policy [] 0

-- The gate lets this call through, and its tool runs once.
run_once : (execute python tools two_plus_two policy [] 0).2 ≡ 1
unfolding execute admit find get check_policy permits check_scopes missing_scopes has
    check_arguments validate_arguments type_ok is_empty run_admitted audit check_argument
    check_required Arguments.check_arguments
run_once = refl

execute-IsReported_example :
    IsReported two_plus_two [] (execute python tools two_plus_two policy [] 0)
execute-IsReported_example = execute-IsReported python tools two_plus_two policy [] 0
