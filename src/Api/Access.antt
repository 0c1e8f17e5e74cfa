-- ===== src/Api/Access.antt =====
-- bat/api/security.py and bat/api/deps.py: the context that a request gets. `digest` is SHA-256, and
-- headers are of ASCII; an absent header is `none`.
use bat_ai.Prelude.{
  true, ◌⊎◌, ℕ, ◌≡◌, refl, sym, ◌∙◌, inl, inr, Bool, List, [], ◌∷◌, Option, none, some, String,
  if◌then◌else◌, string_eq, ◌==◌, ==_iff, arith, Option-cases, is_some,
}
use bat_ai.Prelude.Dict.{Dict, get, put, HasDistinctKeys, put-HasDistinctKeys}
use bat_ai.Prelude.Text.{Text, codes, strip}
use bat_ai.Domain.Errors.{BatError, Result, ok, raise, error, authentication, authorization}
use bat_ai.Domain.Tenancy.{Scope, TenantContext, make_context}
use bat_ai.RateLimit.Bucket.{Limiter, acquire}
use bat_ai.Agent.Prompt.{after, is_empty_text}

-- `ApiKeyRecord`, of bat/settings.py
pub record KeyRecord : Type 0 where
  pub key_sha256 : String
  pub tenant_id : String
  pub principal_id : String
  pub scopes : List Scope
  pub label : Option String

pub record Headers : Type 0 where
  pub authorization : Option Text
  pub api_key : Option Text
  pub tenant : Option String

given : Option Text → Option Text
given none = none
given (some s) = if is_empty_text s then none else some s

bearer : Option Text → Option Text
unfolding given
bearer none = none
bearer (some s) = elim (after (codes "bearer ") s) [
  | none ↦ none
  | some key ↦ given (some (strip key))
]

-- `extract_credential`
unfoldable pub extract_credential : Headers → Option Text
unfolding bearer given
extract_credential h = elim (bearer h.authorization) [
  | some key ↦ some key
  | none ↦ elim (given h.api_key) [ none ↦ none | some key ↦ some (strip key) ]
]

-- `_by_digest`: of two records with one digest the later stays.
unfoldable pub by_digest : Dict String KeyRecord → List KeyRecord → Dict String KeyRecord
by_digest d [] = d
by_digest d (r ∷ rs) = by_digest (put d r.key_sha256 r) rs

-- `_lookup`: the scan goes on after a match.
unfoldable pub scan : String → Option KeyRecord → Dict String KeyRecord → Option KeyRecord
scan digest found [] = found
scan digest found ((candidate, r) ∷ rest) =
    scan digest (if candidate == digest then some r else found) rest

-- The tenant header is empty, absent, or that of the record.
unfoldable pub is_asserted : Option String → KeyRecord → Bool
is_asserted none r = true
is_asserted (some tenant) r = if tenant == "" then true else tenant == r.tenant_id

unfoldable pub context_of : Headers → String → ℕ → Option KeyRecord → Result TenantContext
unfolding is_asserted
context_of h request_id now none = raise (error authentication (codes "invalid credential"))
context_of h request_id now (some r) =
    if is_asserted h.tenant r
    then make_context r.tenant_id
        (record {
          id = r.principal_id;
          tenant_id = r.tenant_id;
          scopes = r.scopes;
          display_name = r.label;
        })
        request_id now
    else raise (error authorization (codes "credential is not valid for the requested tenant"))

unfoldable pub authenticate :
    (Text → String) → Dict String KeyRecord → Headers → String → ℕ → Result TenantContext
unfolding extract_credential scan context_of
authenticate digest keys h request_id now = elim (given (extract_credential h)) [
  | none ↦ raise (
      error authentication
        (codes "missing credential; supply an Authorization: Bearer header or X-API-Key"))
  | some key ↦ context_of h request_id now (scan (digest key) none keys)
]

-- `get_context`; a limiter is there when rate limits are enabled. `cost` is one token in the limiter's
-- unit.
unfoldable pub get_context :
    (Text → String)
    → Dict String KeyRecord
    → Headers
    → String
    → ℕ
    → ℕ
    → Option Limiter
    → Result TenantContext × Option Limiter
unfolding authenticate
get_context digest keys h request_id now cost limiter =
    elim (authenticate digest keys h request_id now) [
      | raise e ↦ (raise e, limiter)
      | ok context ↦ elim limiter [
        | none ↦ (ok context, none)
        | some l ↦
            let (admitted, l') = acquire l now context.tenant_id cost in
            (elim admitted [ raise e ↦ raise e | ok _ ↦ ok context ], some l')
      ]
    ]

-- The scan finds what a look-up finds.
scan-get :
    (digest : String) (found : Option KeyRecord) (keys : Dict String KeyRecord)
    → HasDistinctKeys keys
    → scan digest found keys ≡ (if is_some (get keys digest) then get keys digest else found)
unfolding scan get
scan-get digest found [] h = refl
scan-get digest found ((candidate, r) ∷ rest) h =
    scan-get digest (if candidate == digest then some r else found) rest h.1
    ∙ ground (arith, h.0, ==_iff candidate digest)

-- A tenant header that is absent, empty, or the tenant's name.
abbrev pub IsNamed : Option String → String → Type 0
IsNamed none tenant = Unit
IsNamed (some name) tenant = (name ≡ "") ⊎ (name ≡ tenant)

is_asserted-IsNamed :
    (name : Option String) (r : KeyRecord) → is_asserted name r ≡ true → IsNamed name r.tenant_id
unfolding is_asserted
is_asserted-IsNamed none r h = tt
is_asserted-IsNamed (some name) r h = ground (arith, ==_iff name "", ==_iff name r.tenant_id)

-- What a context owes to the record of the key that it was made for.
pub record IsOf (keys : Dict String KeyRecord) (digest : Text → String) (h : Headers)
    (c : TenantContext) : Type 0 where
  pub key : Text
  pub entry : KeyRecord
  pub presented : extract_credential h ≡ some key
  pub recorded : get keys (digest key) ≡ some entry
  pub own_tenant : c.tenant_id ≡ entry.tenant_id
  pub principal_tenant : c.principal.tenant_id ≡ entry.tenant_id
  pub own_scopes : c.principal.scopes ≡ entry.scopes
  pub named : IsNamed h.tenant entry.tenant_id

context_of-ok :
    (h : Headers) (request_id : String) (now : ℕ) (o : Option KeyRecord) {c : TenantContext}
    → context_of h request_id now o ≡ ok c
    → (r : KeyRecord) × (o ≡ some r)
      × (c.tenant_id ≡ r.tenant_id)
      × (c.principal.tenant_id ≡ r.tenant_id)
      × (c.principal.scopes ≡ r.scopes)
      × (is_asserted h.tenant r ≡ true)
unfolding context_of make_context
context_of-ok h request_id now none e = absurd (ground arith)
context_of-ok h request_id now (some r) e =
    (r, refl, ground arith, ground arith, ground arith, ground arith)

given-some : (o : Option Text) (key : Text) → given o ≡ some key → o ≡ some key
unfolding given
given-some none key h = absurd (ground arith)
given-some (some s) key h = ground arith

unpresented :
    (digest : Text → String) (keys : Dict String KeyRecord) (h : Headers) (request_id : String)
    (now : ℕ)
    → given (extract_credential h) ≡ none
    → (e : BatError) × (authenticate digest keys h request_id now ≡ raise e)
unfolding authenticate
unpresented digest keys h request_id now missing = (
  error authentication
      (codes "missing credential; supply an Authorization: Bearer header or X-API-Key"),
  rw (missing, authenticate) refl,
)

presented :
    (digest : Text → String) (keys : Dict String KeyRecord) (h : Headers) (request_id : String)
    (now : ℕ) (key : Text)
    → given (extract_credential h) ≡ some key
    → authenticate digest keys h request_id now
      ≡ context_of h request_id now (scan (digest key) none keys)
unfolding authenticate
presented digest keys h request_id now key there = rw (there, authenticate) refl

by_digest-HasDistinctKeys :
    (d : Dict String KeyRecord) (records : List KeyRecord)
    → HasDistinctKeys d
    → HasDistinctKeys (by_digest d records)
unfolding by_digest
by_digest-HasDistinctKeys d [] h = h
by_digest-HasDistinctKeys d (r ∷ rs) h =
    by_digest-HasDistinctKeys (put d r.key_sha256 r) rs (put-HasDistinctKeys d r.key_sha256 r h)

-- Whatever keys are configured, a request gets a context only by presenting a key whose digest is
-- recorded; the context has the tenant and the scopes of that record, and the request names no other
-- tenant.
pub authenticate-IsOf :
    (digest : Text → String) (records : List KeyRecord) (h : Headers) (request_id : String)
    (now : ℕ) (c : TenantContext)
    → authenticate digest (by_digest [] records) h request_id now ≡ ok c
    → IsOf (by_digest [] records) digest h c
authenticate-IsOf digest records h request_id now c e =
    let keys = by_digest [] records in
    elim (Option-cases (given (extract_credential h))) [
      | inl missing ↦
          absurd (ground (arith, (unpresented digest keys h request_id now missing).1, e))
      | inr (key, there) ↦
          let (r, found, tenant, principal, scopes, asserted) =
            context_of-ok h request_id now (scan (digest key) none keys)
              (sym (presented digest keys h request_id now key there) ∙ e) in
          record {
            key = key;
            entry = r;
            presented = given-some (extract_credential h) key there;
            recorded = ground (
              arith,
              found,
              scan-get (digest key) none keys (by_digest-HasDistinctKeys [] records tt),
            );
            own_tenant = tenant;
            principal_tenant = principal;
            own_scopes = scopes;
            named = is_asserted-IsNamed h.tenant r asserted;
          }
    ]
