-- ===== src/Tests/Config.antt =====
-- Tests of the settings: a deployment for production, which is accepted.
use bat_ai.Prelude.{
  false, ◌⊎◌, if◌then◌else◌, ◌↔◌, ◌+◌, ◌≡◌, ◌≢◌, ==_iff, refl, [], String, ◌∷◌, none, some, true,
  is_some, string_eq, arith,
}
use bat_ai.Prelude.Dict.{get, put, remove_all}
use bat_ai.Prelude.Text.{codes, split_on}
use bat_ai.Domain.Tenancy.{agent_invoke, is_tenant_id, is_tenant_char, is_lower_alnum}
use bat_ai.Api.Access.{KeyRecord}
use bat_ai.RateLimit.Redis.{enter, lease_script, reap}
use bat_ai.Config.Settings.{
  Settings, production, is_production, default_settings, default_model, default_embedding,
  default_vector, default_session, default_rate_limit, persistent, postgres, shared,
}
use bat_ai.Config.Fields.{is_memory, is_in_memory, is_per_process}
use bat_ai.Config.Checks.{faults, any_star}
use bat_ai.Rag.Chunking.{is_empty}
use bat_ai.Agent.Prompt.{lower}
use bat_ai.Config.Hardening.{IsSound, IsHardened, faults-nil_iff}
use bat_ai.Application.Build.{
  fails, weights, chroma, native, builds, IsDurable, IsGlobal, build_session_store, build_limiters,
  build_vector_store, build_agent_runner, build_embedder, faults-build,
}
use bat_ai.Config.Slots.{acquired, released, counted, perform_all, run_limiter, faults-keeps_slot}

abbrev key : KeyRecord
key = record {
  key_sha256 = "0123456789abcdef0123456789abcdef0123456789abcdef0123456789abcdef";
  tenant_id = "acme";
  principal_id = "alice";
  scopes = agent_invoke ∷ [];
  label = none;
}

abbrev pub hosted : Settings
hosted = record default_settings {
  environment = production;
  api_keys = key ∷ [];
  model = record default_model { model_path = some (codes "/models/bat.v1.GGUF") };
  embedding = record default_embedding { model_path = some (codes "/models/embed.gguf") };
  vector = record default_vector { mode = persistent; path = some (codes "/data") };
  session = record default_session { backend = postgres; dsn = some (codes "postgres://db") };
  rate_limit = record default_rate_limit { backend = shared; dsn = some (codes "redis://r") };
}

pub hosted-accepted : faults hosted ≡ []
unfolding faults split_on is_empty lower is_production is_tenant_id is_tenant_char is_lower_alnum
    any_star is_memory is_in_memory is_per_process
hosted-accepted = refl

pub hosted-production : is_production hosted.environment ≡ true
unfolding is_production
hosted-production = refl

faults-nil_iff_example :
    (faults hosted ≡ [])
    ↔ (IsSound hosted × (is_production hosted.environment ≡ true → IsHardened hosted))
faults-nil_iff_example = faults-nil_iff hosted

apart : ◌≢◌ {A = String} "run2" "run1"
apart h = absurd (ground (arith, (==_iff {A = String} "run2" "run1").1 h))

faults-keeps_slot_example :
    get
      (perform_all
        (run_limiter hosted)
        (enter (run_limiter hosted) true 1000 "run1" []).1
        (acquired 1500 "run2" ∷ counted 2000 ∷ released true "run2" ∷ []))
      "run1"
    ≡ some (1000 + 300000000)
unfolding enter lease_script reap remove_all put
faults-keeps_slot_example =
    faults-keeps_slot hosted 1000 "run1" []
      (acquired 1500 "run2" ∷ counted 2000 ∷ released true "run2" ∷ []) hosted-accepted
      hosted-production tt refl ((omega arith, apart), (omega arith, (apart, tt)))

faults-build_example :
    IsDurable (build_session_store hosted)
    × ((hosted.rate_limit.enabled ≡ false) ⊎ IsGlobal (build_limiters hosted))
    × (build_vector_store hosted (weights hosted.embedding)
        ≡ chroma hosted.vector (weights hosted.embedding))
    × (build_agent_runner hosted
        ≡ native
            (record { top_k = hosted.vector.default_top_k; min_score = hosted.vector.min_score }))
    × (build_embedder hosted ≡ (
        if is_some hosted.embedding.model_path
        then builds (weights hosted.embedding)
        else fails (codes "embedding.model_path is required in production")))
faults-build_example =
    faults-build hosted (weights hosted.embedding) hosted-accepted hosted-production
