-- ===== src/Api/Boundary.antt =====
-- What the endpoints of bat/api/routers/sessions.py and bat/api/routers/memory.py let a caller do.
use bat_ai.Prelude.{
  ◌≡◌, refl, ap, ◌∙◌, ◌⊎◌, inl, inr, ℕ, true, false, [], ◌∷◌, none, some, String, arith, string_eq,
  ◌==◌, if_rule, Bool-cases,
}
use bat_ai.Prelude.Text.{strip}
use bat_ai.Domain.Errors.{Result, ok, raise, Result-cases}
use bat_ai.Domain.Tenancy.{Scope, TenantContext, has, require}
use bat_ai.Domain.Tenancy.Checks.{require-ok_iff}
use bat_ai.Sessions.Store.{Store}
use bat_ai.Sessions.Calls.{Call, create, list, fetch, delete, history, perform, perform-isolated}
use bat_ai.Api.Sessions.{
  Request, Response, scope_of, is_well_formed, owner_filter, handle, endpoint,
}
use bat_ai.Tools.Registry.{Outcome}
use bat_ai.Rag.Chunking.{is_empty}
use bat_ai.Rag.Vectors.{Spaces, Query, knowledge}
use bat_ai.Rag.Pipeline.{retrieve}
use bat_ai.Rag.Isolation.{retrieve-isolated}
use bat_ai.Api.Sessions
use bat_ai.Api.Memory

-- The call of the store that a handler makes.
call_of : ℕ → Request → TenantContext → ℕ → Call
call_of ttl (Sessions.create body) context id = create id context.principal.id body.title (some ttl)
call_of ttl (Sessions.list limit cursor mine_only) context id =
    list (owner_filter context mine_only) limit cursor
call_of ttl (Sessions.fetch session_id) context id = fetch session_id
call_of ttl (Sessions.messages session_id limit) context id = history session_id limit
call_of ttl (Sessions.delete session_id) context id = delete session_id

store-answer : {A B : Type 0} (f : A → B) (x : Result A × Store) → (Sessions.answer f x).1 ≡ x.1
store-answer f (ok a, s) = refl
store-answer f (raise e, s) = refl

handle-perform :
    (ttl : ℕ) (r : Request) (context : TenantContext) (now id : ℕ) (s : Store)
    → (handle ttl r context now id s).1
      ≡ (perform s now context.tenant_id (call_of ttl r context id)).1
unfolding handle perform call_of
handle-perform ttl (Sessions.create body) context now id s = store-answer _ _
handle-perform ttl (Sessions.list limit cursor mine_only) context now id s = store-answer _ _
handle-perform ttl (Sessions.fetch session_id) context now id s = store-answer _ _
handle-perform ttl (Sessions.messages session_id limit) context now id s = store-answer _ _
handle-perform ttl (Sessions.delete session_id) context now id s = store-answer _ _

require_ok :
    (context c : TenantContext) (scope : Scope)
    → require context (scope ∷ []) ≡ ok c
    → (c ≡ context) × (has context.principal scope ≡ true)
unfolding require
require_ok context c scope h = ground (arith, require-ok_iff context (scope ∷ []))

-- The endpoint leaves the store alone, or the caller has the scope and the store is what the handler
-- leaves.
endpoint_gate :
    (ttl : ℕ) (r : Request) (context : TenantContext) (now id : ℕ) (s : Store)
    → ((endpoint ttl r context now id s).1 ≡ s)
      ⊎ ((has context.principal (scope_of r) ≡ true)
          × ((endpoint ttl r context now id s).1
              ≡ (perform s now context.tenant_id (call_of ttl r context id)).1))
unfolding endpoint
endpoint_gate ttl r context now id s = elim (Result-cases (require context (scope_of r ∷ []))) [
  | inr (e, refused) ↦ inl (rw (refused, endpoint) refl)
  | inl (c, allowed) ↦
      let (same, scoped) = require_ok context c (scope_of r) allowed in
      elim (Bool-cases (is_well_formed r)) [
        | inr bad ↦ inl (rw (allowed, endpoint, bad) refl)
        | inl fine ↦
            inr (scoped, rw (allowed, endpoint, fine, same) (handle-perform ttl r context now id s))
      ]
]

-- A request to an endpoint of the sessions changes nothing unless the caller has the scope of the
-- endpoint, and whatever it asks, no other tenant can tell: the answer to any later call of another
-- tenant is the one that it would have been without the request.
pub endpoint-isolated :
    (ttl : ℕ) (r : Request) (context : TenantContext) (now id : ℕ) (s : Store) (other : String)
    (later : ℕ) (d : Call)
    → (context.tenant_id == other) ≡ false
    → (has context.principal (scope_of r) ≡ false → (endpoint ttl r context now id s).1 ≡ s)
      × ((perform (endpoint ttl r context now id s).1 later other d).0
          ≡ (perform s later other d).0)
endpoint-isolated ttl r context now id s other later d foreign =
    elim (endpoint_gate ttl r context now id s) [
      | inl same ↦ ((λ _. same), ap (λ (t : Store). (perform t later other d).0) same)
      | inr (scoped, written) ↦ (
        (λ lacking. absurd (ground (arith, scoped, lacking))),
        ap (λ (t : Store). (perform t later other d).0) written
            ∙ perform-isolated s now context.tenant_id other (call_of ttl r context id) d later
                foreign,
      )
    ]

module _ {V : Type 0} (p : Memory.Pipeline V) where
  memory_gate :
      (r : Memory.Request) (context : TenantContext) (now : String) (spaces : Spaces V)
      → ((Memory.endpoint p r context now spaces).1 ≡ spaces)
        ⊎ ((has context.principal (Memory.scope_of r) ≡ true)
            × ((Memory.endpoint p r context now spaces).1
                ≡ (Memory.handle p r context now spaces).1))
  unfolding Memory.endpoint
  memory_gate r context now spaces =
      elim (Result-cases (require context (Memory.scope_of r ∷ []))) [
        | inr (e, refused) ↦ inl (rw (refused, Memory.endpoint) refl)
        | inl (c, allowed) ↦
            let (same, scoped) = require_ok context c (Memory.scope_of r) allowed in
            elim (Bool-cases (Memory.is_well_formed r)) [
              | inr bad ↦ inl (rw (allowed, Memory.endpoint, bad) refl)
              | inl fine ↦ inr (scoped, rw (allowed, Memory.endpoint, fine, same) refl)
            ]
      ]

  handle-elsewhere :
      (r : Memory.Request) (context : TenantContext) (now : String) (spaces : Spaces V)
      (other : String) (q : Query)
      → (context.tenant_id == other) ≡ false
      → retrieve p.embedding (Memory.handle p r context now spaces).1 other q
        ≡ retrieve p.embedding spaces other q
  unfolding Memory.handle
  handle-elsewhere (Memory.ingest_document body) context now spaces other q foreign =
      if_rule
        (λ (x : Outcome Memory.Response × Spaces V).
          retrieve p.embedding x.1 other q ≡ retrieve p.embedding spaces other q)
        (is_empty (strip body.text)) _ _ refl
        (retrieve-isolated p.embedding p.digest p.chunker now spaces context.tenant_id other
          body.text body.kind body.source body.metadata q foreign).0
  handle-elsewhere (Memory.search_memory text top_k kind) context now spaces other q foreign = refl
  handle-elsewhere (Memory.preview_context text) context now spaces other q foreign = refl
  handle-elsewhere Memory.forget context now spaces other q foreign =
      (retrieve-isolated p.embedding p.digest p.chunker now spaces context.tenant_id other []
        knowledge none [] q foreign).1

  -- A request to an endpoint of the memory changes nothing unless the caller has the scope of the
  -- endpoint, and whatever it stores or erases, any search of another tenant's memory finds what it
  -- would have found without the request.
  pub memory-isolated :
      (r : Memory.Request) (context : TenantContext) (now : String) (spaces : Spaces V)
      (other : String) (q : Query)
      → (context.tenant_id == other) ≡ false
      → (has context.principal (Memory.scope_of r) ≡ false
          → (Memory.endpoint p r context now spaces).1 ≡ spaces)
        × (retrieve p.embedding (Memory.endpoint p r context now spaces).1 other q
            ≡ retrieve p.embedding spaces other q)
  memory-isolated r context now spaces other q foreign = elim (memory_gate r context now spaces) [
    | inl same ↦ ((λ _. same), ap (λ (t : Spaces V). retrieve p.embedding t other q) same)
    | inr (scoped, written) ↦ (
      (λ lacking. absurd (ground (arith, scoped, lacking))),
      ap (λ (t : Spaces V). retrieve p.embedding t other q) written
          ∙ handle-elsewhere r context now spaces other q foreign,
    )
  ]
