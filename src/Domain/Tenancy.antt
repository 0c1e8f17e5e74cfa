-- ===== src/Domain/Tenancy.antt =====
-- bat/domain/tenancy.py: scopes, principals and the per-request tenant context.
-- A frozen set of scopes is the list of its members. `Principal.claims` is never read.
pub mod Checks
use bat_ai.Prelude.{
  ℕ, zero, suc, ◌+◌, ◌≤◌, ◌≡◌, refl, ◌↔◌, Bool, true, false, ◌&&◌, ◌||◌, not, List, [], ◌∷◌, Option,
  String, arith, if◌then◌else◌, Eq, ◌==◌, nat_eq, string_eq, nat_beq, leb, keep, all, contains,
  length,
}
use bat_ai.Prelude.Text.{Text, codes}
use bat_ai.Domain.Errors.{Result, ok, raise, error, authorization, validation}

pub data Scope : Type 0 where
  sessions_read sessions_write agent_invoke memory_read memory_write tools_execute admin : Scope

abbrev scope_tag : Scope → ℕ
scope_tag sessions_read = 0
scope_tag sessions_write = 1
scope_tag agent_invoke = 2
scope_tag memory_read = 3
scope_tag memory_write = 4
scope_tag tools_execute = 5
scope_tag admin = 6

abbrev pub scope_beq : Scope → Scope → Bool
scope_beq a b = nat_beq (scope_tag a) (scope_tag b)

pub scope_beq_iff : (a b : Scope) → (scope_beq a b ≡ true) ↔ (a ≡ b)
scope_beq_iff a b = ground arith

instance abbrev pub scope_eq : Eq Scope
scope_eq = record { beq = scope_beq; beq_iff = scope_beq_iff }

-- The scope set of an ordinary end user.
abbrev pub default_scopes : List Scope
default_scopes = sessions_read ∷ sessions_write ∷ agent_invoke ∷ memory_read ∷ memory_write ∷ []

-- `[a-z0-9]`
unfoldable pub is_lower_alnum : ℕ → Bool
is_lower_alnum c = (leb b'a' c && leb c b'z') || (leb b'0' c && leb c b'9')

-- `[a-z0-9_-]`
unfoldable pub is_tenant_char : ℕ → Bool
unfolding is_lower_alnum
is_tenant_char c = is_lower_alnum c || c == b'_' || c == b'-'

-- `^[a-z0-9][a-z0-9_-]{1,62}$`
unfoldable pub is_tenant_id : Text → Bool
unfolding is_tenant_char
is_tenant_id [] = false
is_tenant_id (c ∷ rest) =
    is_lower_alnum c && all is_tenant_char rest && leb 1 (length rest) && leb (length rest) 62

unfoldable pub validate_tenant_id : String → Result String
unfolding is_tenant_id
validate_tenant_id value =
    if is_tenant_id (codes value)
    then ok value
    else raise (
        error validation
          (codes "tenant_id must be 2-63 chars of [a-z0-9_-] and start alphanumeric"))

pub record Principal : Type 0 where
  pub id : String
  pub tenant_id : String
  pub scopes : List Scope
  pub display_name : Option String

unfoldable pub has : Principal → Scope → Bool
has p s = contains s p.scopes || contains admin p.scopes

pub record TenantContext : Type 0 where
  pub tenant_id : String
  pub principal : Principal
  pub request_id : String
  pub started_at : ℕ

-- The constructor with its `__post_init__`.
unfoldable pub make_context : String → Principal → String → ℕ → Result TenantContext
make_context tenant_id principal request_id started_at =
    if principal.tenant_id == tenant_id
    then ok (record {
      tenant_id = tenant_id;
      principal = principal;
      request_id = request_id;
      started_at = started_at;
    })
    else raise (error authorization (codes "principal does not belong to the requested tenant"))

-- The scopes of a list that a principal does not hold.
unfoldable pub missing_scopes : Principal → List Scope → List Scope
unfolding has
missing_scopes p scopes = keep (λ s. not (has p s)) scopes

refuse_missing : TenantContext → List Scope → Result TenantContext
refuse_missing context [] = ok context
refuse_missing context (s ∷ rest) = raise (error authorization (codes "missing required scope"))

-- `TenantContext.require`
unfoldable pub require : TenantContext → List Scope → Result TenantContext
unfolding refuse_missing missing_scopes
require context scopes = refuse_missing context (missing_scopes context.principal scopes)

unfoldable pub owns : TenantContext → String → Bool
owns context resource_tenant_id = resource_tenant_id == context.tenant_id
