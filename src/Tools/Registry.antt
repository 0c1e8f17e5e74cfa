-- ===== src/Tools/Registry.antt =====
-- bat/services/agent/tools.py: `InMemoryToolRegistry`. A tool is its definition and its `run`, which
-- acts on a world `W` that is not modelled.
use bat_ai.Prelude.{
  ◌≡◌, Bool, not, List, ◌++◌, Option, none, some, String, arith, map, if◌then◌else◌, string_eq,
  is_some, keep, ◌==◌, ==_refl,
}
use bat_ai.Prelude.Dict.{Dict, get, put, values, get-put}
use bat_ai.Prelude.Text.{Text, codes}
use bat_ai.Domain.Errors.{BatError, Result, ok, raise, error, not_found}
use bat_ai.Tools.Policy.{ToolDefinition, ToolInvocation, ToolPolicy, ToolSpec, to_spec, permits}

-- How an awaited call ends: it returns, raises a `BatError`, times out, raises anything else, or is
-- cancelled.
pub data Outcome {ℓ} (A : Type ℓ) : Type ℓ where
  returns : A → Outcome A
  raises : BatError → Outcome A
  times_out crashes cancelled : Outcome A

module _ (W : Type 0) where
  pub record Tool : Type 0 where
    pub definition : ToolDefinition
    pub run : ToolInvocation → W → Outcome Text × W

  abbrev pub Registry : Type 0
  Registry = Dict String Tool

module _ {W : Type 0} where
  -- `none` is the `ValueError` of a name that is taken.
  unfoldable pub register : Registry W → Tool W → Option (Registry W)
  register tools tool =
      if is_some (get tools tool.definition.name)
      then none
      else some (put tools tool.definition.name tool)

  unfoldable pub find : Registry W → String → (String → Text) → Result (Tool W)
  find tools name repr = elim (get tools name) [
    | none ↦ raise (error not_found (codes "tool " ++ (repr name ++ codes " is not registered")))
    | some tool ↦ ok tool
  ]

  -- `policy.permits(tool.definition)[0]`
  abbrev pub is_permitted : ToolPolicy → Tool W → Bool
  is_permitted policy tool = not (is_some (permits policy tool.definition))

  unfoldable pub specs_for : Registry W → ToolPolicy → List ToolSpec
  specs_for tools policy =
      map (λ t. to_spec t.definition) (keep (is_permitted policy) (values tools))

  -- A registration that succeeds is of a name that no tool had; it changes what is found under
  -- that name alone, and a second registration of the tool fails.
  pub register_lem :
      (tools : Registry W) (tool : Tool W) (name : String) {tools' : Registry W}
      → register tools tool ≡ some tools'
      → (get tools tool.definition.name ≡ none)
        × (get tools' name ≡ (if tool.definition.name == name then some tool else get tools name))
        × (register tools' tool ≡ none)
  unfolding register
  register_lem tools tool name h = ground (
    arith,
    get-put tools tool.definition.name name tool,
    get-put tools tool.definition.name tool.definition.name tool,
    ==_refl tool.definition.name,
  )
