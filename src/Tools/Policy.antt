-- ===== src/Tools/Policy.antt =====
-- bat/ports/tools.py: what a tool can reach, where it runs, and the policy that decides about it.
use bat_ai.Prelude.{
  ℕ, ◌≤◌, none, some, ◌≡◌, ◌↔◌, Bool, true, ◌&&◌, not, List, [], ◌∷◌, ◌++◌, Option, String, arith,
  if◌then◌else◌, Eq, string_eq, nat_beq, ltb, contains,
}
use bat_ai.Prelude.Dict.{Dict}
use bat_ai.Prelude.Text.{Text, codes}
use bat_ai.Domain.Conversation.{Value}
use bat_ai.Domain.Tenancy.{Scope, TenantContext}

pub data Authority : Type 0 where
  pure tenant network host : Authority

pub data Isolation : Type 0 where
  in_process subprocess container : Isolation

pub data SideEffect : Type 0 where
  read_only tenant_write external_write : SideEffect

-- The values of the two `IntEnum`s.
abbrev pub reach : Authority → ℕ
reach pure = 0
reach tenant = 1
reach network = 2
reach host = 3

abbrev pub containment : Isolation → ℕ
containment in_process = 0
containment subprocess = 1
containment container = 2

pub authority_name : Authority → String
authority_name pure = "PURE"
authority_name tenant = "TENANT"
authority_name network = "NETWORK"
authority_name host = "HOST"

pub isolation_name : Isolation → String
isolation_name in_process = "IN_PROCESS"
isolation_name subprocess = "SUBPROCESS"
isolation_name container = "CONTAINER"

pub effect_name : SideEffect → String
effect_name read_only = "read_only"
effect_name tenant_write = "tenant_write"
effect_name external_write = "external_write"

abbrev effect_tag : SideEffect → ℕ
effect_tag read_only = 0
effect_tag tenant_write = 1
effect_tag external_write = 2

abbrev effect_beq : SideEffect → SideEffect → Bool
effect_beq a b = nat_beq (effect_tag a) (effect_tag b)

pub effect_beq_iff : (a b : SideEffect) → (effect_beq a b ≡ true) ↔ (a ≡ b)
effect_beq_iff a b = ground arith

instance abbrev pub effect_eq : Eq SideEffect
effect_eq = record { beq = effect_beq; beq_iff = effect_beq_iff }

-- One entry of a schema's `properties`: its `type`, and membership in its `enum` by Python's `==`.
-- An absent or empty one is `none`.
pub record Property : Type 0 where
  pub type : Option String
  pub choices : Option (Value → Bool)

pub record Schema : Type 0 where
  pub properties : Dict String Property
  pub required : List String
  -- `additionalProperties is False`
  pub closed : Bool

pub record ToolDefinition : Type 0 where
  pub name : String
  pub description : String
  pub parameters : Schema
  pub authority : Authority
  pub isolation : Isolation
  pub executes_arbitrary_code : Bool
  pub side_effect : SideEffect
  pub required_scopes : List Scope
  -- in tenths of a second
  pub timeout_s : ℕ
  pub max_output_chars : ℕ
  pub requires_confirmation : Bool
  pub deterministic : Bool

pub record ToolSpec : Type 0 where
  pub name : String
  pub description : String
  pub parameters : Schema

unfoldable pub to_spec : ToolDefinition → ToolSpec
to_spec d = record { name = d.name; description = d.description; parameters = d.parameters }

pub record ToolInvocation : Type 0 where
  pub call_id : String
  pub name : String
  pub arguments : Dict String Value
  pub context : TenantContext
  pub session_id : ℕ

-- Frozen sets are the lists of their members.
pub record ToolPolicy : Type 0 where
  pub allowed : List String
  pub max_authority : Authority
  pub min_code_isolation : Isolation
  pub allowed_side_effects : List SideEffect
  pub max_calls_per_run : ℕ

abbrev authority_reason : ToolDefinition → ToolPolicy → Text
authority_reason d p =
    codes "tool requires "
    ++ (codes (authority_name d.authority)
        ++ (codes " authority but this deployment permits at most "
            ++ codes (authority_name p.max_authority)))

abbrev isolation_reason : ToolDefinition → ToolPolicy → Text
isolation_reason d p =
    codes "tool runs caller-supplied code at "
    ++ (codes (isolation_name d.isolation)
        ++ (codes " containment; "
            ++ (codes (isolation_name p.min_code_isolation) ++ codes " or stronger is required")))

abbrev effect_reason : ToolDefinition → Text
effect_reason d =
    codes "side effect " ++ (codes (effect_name d.side_effect) ++ codes " not permitted")

-- The reason of a refusal; `none` when the tool is permitted. Python returns `(True, "")` and
-- `(False, reason)`, and no reason is empty.
unfoldable pub permits : ToolPolicy → ToolDefinition → Option Text
permits p d =
    if not (contains d.name p.allowed)
    then some (codes "tool is not enabled for this tenant")
    else if ltb (reach p.max_authority) (reach d.authority)
    then some (authority_reason d p)
    else if d.executes_arbitrary_code
        && ltb (containment d.isolation) (containment p.min_code_isolation)
    then some (isolation_reason d p)
    else if not (contains d.side_effect p.allowed_side_effects)
    then some (effect_reason d)
    else none

abbrev pub saas_baseline_policy : ToolPolicy
saas_baseline_policy = record {
  allowed = [];
  max_authority = network;
  min_code_isolation = subprocess;
  allowed_side_effects = read_only ∷ tenant_write ∷ [];
  max_calls_per_run = 8;
}

abbrev pub desktop_policy : ToolPolicy
desktop_policy = record {
  allowed = [];
  max_authority = host;
  min_code_isolation = in_process;
  allowed_side_effects = read_only ∷ tenant_write ∷ external_write ∷ [];
  max_calls_per_run = 12;
}

-- What the policy promises: the four conditions of a permitted tool.
pub record IsPermitted (p : ToolPolicy) (d : ToolDefinition) : Type 0 where
  pub enabled : contains d.name p.allowed ≡ true
  pub within_reach : reach d.authority ≤ reach p.max_authority
  pub contained :
      d.executes_arbitrary_code ≡ true → containment p.min_code_isolation ≤ containment d.isolation
  pub consented : contains d.side_effect p.allowed_side_effects ≡ true

-- `permits` gives no reason exactly when the tool is enabled, stays within the authority ceiling,
-- is contained if it runs a caller's code, and has only side effects that the tenant consented to.
pub permits-none_iff :
    (p : ToolPolicy) (d : ToolDefinition) → (permits p d ≡ none) ↔ IsPermitted p d
unfolding permits
permits-none_iff p d = (
  λ h. record {
    enabled = ground arith;
    within_reach = ground arith;
    contained = λ c. ground arith;
    consented = ground arith;
  },
  λ h. ground (arith, h.enabled, h.within_reach, h.contained, h.consented),
)
