-- ===== src/Tests/Builtin.antt =====
-- Tests of the tools: a sum, and the call of a program in a deployment for production.
use bat_ai.Prelude.{
  ◌≡◌, refl, ◌⊎◌, inr, ℕ, true, false, [], ◌∷◌, Option, some, string_eq, contains, min, map, length,
}
use bat_ai.Prelude.Integers.{ℤ, pos, ◌+ℤ◌}
use bat_ai.Prelude.Dict.{get, put}
use bat_ai.Prelude.Text.{codes}
use bat_ai.Domain.Conversation.{text}
use bat_ai.Tools.Policy.{ToolInvocation}
use bat_ai.Tools.Registry.{returns, register}
use bat_ai.Tools.Executor.{Python, execute}
use bat_ai.Tools.Safety.{IsRefusal}
use bat_ai.Api.Turn.{policy_for}
use bat_ai.Config.Hardening.{turn_settings}
use bat_ai.Builtin.Calculator.{
  integer, Node, constant, binary, exact, Floats, zero_division, add, floor_division, bin_op, eval,
  eval_constant, binary_on, operate_on, apply_operator, combine,
}
use bat_ai.Builtin.Allowlist.{is_arithmetic, eval-is_arithmetic}
use bat_ai.Builtin.Exact.{
  number, combined, IsIntegral, is_exact, Denotes, DividesByZero, division_by_zero, eval-Denotes,
}
use bat_ai.Builtin.Sandbox.{finished}
use bat_ai.Builtin.Tools.{
  Parts, Site, SearchBounds, build_default_tools, register_all, saas_safe_tools, calculator,
  python_exec, memory_search,
}
use bat_ai.Builtin.Deployment.{builtin, faults-saas_safe}
use bat_ai.Tests.Tools.{acme}
use bat_ai.Tests.Config.{hosted, hosted-accepted, hosted-production}

abbrev floats : Floats ℕ
floats = record {
  pi = 3;
  e = 2;
  tau = 6;
  operate = λ op v w. zero_division;
  opposite_of = λ op v. zero_division;
  exceeds = λ x n. false;
  function = λ f vs. zero_division;
}

-- 7 // 2 + 5
abbrev sum : Node ℕ
sum =
    binary "Add" (binary "FloorDiv" (constant (integer 7)) (constant (integer 2)))
      (constant (integer 5))

sum-IsIntegral : IsIntegral sum
unfolding bin_op is_exact
sum-IsIntegral =
    combined "Add" add refl refl
      (combined "FloorDiv" floor_division refl refl (number 7) (number 2)) (number 5)

eval-Denotes_example :
    ((c : ℤ) × (eval floats sum ≡ returns (exact c)) × Denotes sum c)
    ⊎ ((eval floats sum ≡ division_by_zero) × DividesByZero sum)
eval-Denotes_example = eval-Denotes floats sum sum-IsIntegral

abbrev simple_sum : Node ℕ
simple_sum = binary "Add" (constant (integer 2)) (constant (integer 5))

eval-is_arithmetic_example : is_arithmetic simple_sum ≡ true
unfolding eval eval_constant binary_on operate_on apply_operator combine bin_op ◌+ℤ◌
eval-is_arithmetic_example = eval-is_arithmetic floats simple_sum (exact (pos 7)) refl

abbrev parts : Parts ℕ ℕ ℕ
parts = record {
  floats = floats;
  parse = λ s. inr sum;
  shown = λ v. some (codes "1.0");
  repr = λ s. s;
  shown_score = λ n. codes "0.5";
  embedding = record { embed = λ ts. some (map length ts); cosine = λ a b. min a b };
  sandbox = record { execute = λ c w. (finished (codes "4") [] (some (pos 0)), w) };
  python = codes "/usr/bin/python";
  fresh = λ names. "bat-sandbox-1";
}

abbrev bounds : Option SearchBounds
bounds = some (record { top_k = 4; min_score = 250 })

abbrev site : Site ℕ ℕ
site = record { memories = []; files = record { directories = []; world = 0 } }

abbrev py : Python (Site ℕ ℕ)
py = record { repr = codes; shown = codes; clock = λ w. 5 }

abbrev program : ToolInvocation
program = record {
  call_id = "c1";
  name = "python_exec";
  arguments = ("code", text (codes "print(4)")) ∷ [];
  context = acme;
  session_id = 7;
}

faults-saas_safe_example :
    (contains "python_exec" saas_safe_tools ≡ true)
    ⊎ IsRefusal program site
        (execute py (builtin parts bounds) program (policy_for (turn_settings hosted)) [] site)
unfolding register_all register build_default_tools put get calculator python_exec memory_search
faults-saas_safe_example =
    faults-saas_safe parts py hosted bounds (builtin parts bounds) program [] site hosted-accepted
      hosted-production refl
