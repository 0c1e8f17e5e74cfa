-- ===== src/Application/Health.antt =====
-- bat/api/routers/health.py: what the probes answer. The sweep of the session store may raise, which is
-- `none`.
use bat_ai.Prelude.{
  ◌≡◌, refl, ◌↔◌, ℕ, Bool, true, false, ◌&&◌, not, List, [], ◌∷◌, Option, none, some, String,
  if◌then◌else◌, string_eq, ◌==◌, all, is_some, arith, Bool-cases, inl, inr,
}
use bat_ai.Prelude.Dict.{Dict}
use bat_ai.Prelude.Text.{Text}
use bat_ai.Domain.Tenancy.{TenantContext}
use bat_ai.Tools.Executor.{sorted_names}
use bat_ai.Config.Settings.{Settings, Environment, local, staging, production}
use bat_ai.Config.Fields.{is_memory}
use bat_ai.Model.Client.{Client}

environment_name : Environment → String
environment_name local = "local"
environment_name staging = "staging"
environment_name production = "production"

pub record HealthResponse : Type 0 where
  pub status : String
  pub service : String
  pub version : String
  pub environment : String

-- `healthz`
unfoldable pub healthz : String → Settings → HealthResponse
unfolding environment_name
healthz version s = record {
  status = "ok";
  service = s.service_name;
  version = version;
  environment = environment_name s.environment;
}

-- What a check says: a word, or the depth of the queue.
pub data Check : Type 0 where
  says : String → Check
  depth : ℕ → Check

pub record ReadinessResponse : Type 0 where
  pub status : ℕ
  pub ready : Bool
  pub checks : Dict String Check

is_unavailable : Check → Bool
is_unavailable (says word) = word == "unavailable"
is_unavailable (depth n) = false

model_checks : Option Client → Dict String Check
model_checks none = ("model", says "not_configured") ∷ []
model_checks (some c) =
    if is_some c.llama
    then ("model", says "loaded") ∷ ("inference_queue", depth c.gate.waiters) ∷ []
    else ("model", says "unavailable") ∷ []

store_check : Bool → Check
store_check true = says "ok"
store_check false = says "unavailable"

vector_check : Bool → Check
vector_check true = says "ephemeral"
vector_check false = says "ok"

embeddings_check : Bool → Check
embeddings_check true = says "ok"
embeddings_check false = says "non_semantic_fallback"

-- `readyz`, after the sweep of the session store.
unfoldable pub readyz : Option ℕ → Settings → Option Client → ReadinessResponse
unfolding is_unavailable model_checks store_check vector_check embeddings_check
readyz purged s llm =
    let checks =
      ("session_store", store_check (is_some purged))
      ∷ ("vector_store", vector_check (is_memory s.vector.mode))
      ∷ ("embeddings", embeddings_check (is_some s.embedding.model_path))
      ∷ model_checks llm in
    let ready = all (λ (c : String × Check). not (is_unavailable c.1)) checks in
    record { status = if ready then 200 else 503; ready = ready; checks = checks }

pub record WhoAmIResponse : Type 0 where
  pub tenant_id : String
  pub principal_id : String
  pub display_name : Option String
  pub scopes : List Text

-- `whoami`
unfoldable pub whoami : TenantContext → WhoAmIResponse
whoami context = record {
  tenant_id = context.tenant_id;
  principal_id = context.principal.id;
  display_name = context.principal.display_name;
  scopes = sorted_names context.principal.scopes;
}

-- Whether a model that is configured has its weights in memory.
abbrev pub is_serving : Option Client → Bool
is_serving none = true
is_serving (some c) = is_some c.llama

store_lem : (b : Bool) → is_unavailable (store_check b) ≡ not b
unfolding is_unavailable store_check
store_lem true = refl
store_lem false = refl

vector_lem : (b : Bool) → is_unavailable (vector_check b) ≡ false
unfolding is_unavailable vector_check
vector_lem true = refl
vector_lem false = refl

embeddings_lem : (b : Bool) → is_unavailable (embeddings_check b) ≡ false
unfolding is_unavailable embeddings_check
embeddings_lem true = refl
embeddings_lem false = refl

usable : Dict String Check → Bool
usable checks = all (λ (c : String × Check). not (is_unavailable c.1)) checks

model_lem : (llm : Option Client) → usable (model_checks llm) ≡ is_serving llm
unfolding usable model_checks is_unavailable
model_lem none = refl
model_lem (some c) = elim (Bool-cases (is_some c.llama)) [
  | inl loaded ↦ rw loaded refl
  | inr missing ↦ rw missing refl
]

-- A replica says that it is ready, and answers with 200 rather than 503, exactly when the sweep of the
-- session store did not raise and the model, if one is configured, is loaded; the memory and the
-- embeddings never keep it from being ready.
pub readyz_lem :
    (purged : Option ℕ) (s : Settings) (llm : Option Client)
    → ((readyz purged s llm).ready ≡ is_some purged && is_serving llm)
      × (((readyz purged s llm).status ≡ 200) ↔ ((readyz purged s llm).ready ≡ true))
unfolding readyz usable
readyz_lem purged s llm = (
  rw
      (
        store_lem (is_some purged),
        vector_lem (is_memory s.vector.mode),
        embeddings_lem (is_some s.embedding.model_path),
        model_lem llm,
      )
      (double_not (is_some purged) (is_serving llm)),
  by_ready (readyz purged s llm).ready,
)
  where
    double_not : (a b : Bool) → not (not a) && b ≡ a && b
    double_not true b = refl
    double_not false b = refl

    by_ready : (b : Bool) → (◌≡◌ {A = ℕ} (if b then 200 else 503) 200) ↔ (b ≡ true)
    by_ready b = ground arith
