-- ===== src/Domain/Tenancy/Checks.antt =====
-- What the tenancy checks of bat/domain/tenancy.py decide.
use bat_ai.Prelude.{
  ℕ, ◌≡◌, refl, ◌↔◌, true, List, [], ◌∷◌, String, arith, all, nat_eq, string_eq, ==_iff,
}
use bat_ai.Domain.Errors.{ok}
use bat_ai.Domain.Tenancy.{
  Scope, Principal, TenantContext, has, missing_scopes, require, make_context,
}

pub missing_scopes-nil_iff :
    (p : Principal) (scopes : List Scope)
    → (missing_scopes p scopes ≡ []) ↔ (all (has p) scopes ≡ true)
unfolding missing_scopes
missing_scopes-nil_iff p [] = (λ _. refl, λ _. refl)
missing_scopes-nil_iff p (s ∷ rest) = ground (arith, missing_scopes-nil_iff p rest)

-- `require` returns the context itself exactly when the principal has every scope of the list, by
-- holding the scope or by being an administrator.
pub require-ok_iff :
    (context : TenantContext) (scopes : List Scope)
    → (require context scopes ≡ ok context) ↔ (all (has context.principal) scopes ≡ true)
unfolding require
require-ok_iff context scopes = ground (arith, missing_scopes-nil_iff context.principal scopes)

-- A context that can be made at all names the tenant of its principal.
pub make_context-tenant :
    (tenant : String) (p : Principal) (request : String) (now : ℕ) {c : TenantContext}
    → make_context tenant p request now ≡ ok c
    → (c.tenant_id ≡ tenant) × (c.principal.tenant_id ≡ tenant)
unfolding make_context
make_context-tenant tenant p request now h = ground (arith, ==_iff p.tenant_id tenant)
