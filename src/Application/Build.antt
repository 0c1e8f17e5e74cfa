-- ===== src/Application/Build.antt =====
-- bat/api/app.py: the parts that `create_app` builds, as a choice with what it is built from; the rest
-- of the factory is wiring of the web framework.
use bat_ai.Prelude.{
  ◌⊎◌, inl, inr, Bool-cases, ◌≡◌, refl, ℕ, ◌*◌, true, false, not, [], none, some, if◌then◌else◌,
  arith, is_some, option_cases, if_cases,
}
use bat_ai.Prelude.Text.{Text, codes}
use bat_ai.Sessions.Store.{Store}
use bat_ai.RateLimit.Redis.{BucketLimiter, RunLimiter}
use bat_ai.Builtin.Tools.{SearchBounds}
use bat_ai.Config.Settings.{
  Settings, is_production, EmbeddingSettings, VectorSettings, in_memory, redis, postgres,
  SessionBackend, LimitBackend, per_process, shared,
}
use bat_ai.Config.Fields.{is_configured, is_memory, is_in_memory, is_per_process}
use bat_ai.Config.Checks.{faults}
use bat_ai.Config.Hardening.{faults-nil_iff}
use bat_ai.RateLimit.Bucket
use bat_ai.RateLimit.Concurrency

-- The part, or the exception that ends the start.
pub data Built (A : Type 0) : Type 0 where
  builds : A → Built A
  fails : Text → Built A

pub data SessionStore : Type 0 where
  in_process : Store → SessionStore
  -- the connection, the time to live, the most sessions of a principal and the size of the pool
  database : Text → ℕ → ℕ → ℕ → SessionStore

pub data Limiters : Type 0 where
  unlimited : Concurrency.Limiter → Limiters
  local : Bucket.Limiter → Concurrency.Limiter → Limiters
  global : Text → BucketLimiter → RunLimiter → Limiters

pub data Embedder : Type 0 where
  weights : EmbeddingSettings → Embedder
  hashing : Embedder

pub data VectorStore : Type 0 where
  volatile : Embedder → VectorStore
  chroma : VectorSettings → Embedder → VectorStore

pub data Runner : Type 0 where
  reference : Runner
  -- the search that its tools are built with
  native : SearchBounds → Runner

session_store_for : SessionBackend → Settings → Built SessionStore
session_store_for in_memory s = builds (
    in_process (record {
      ttl = some (s.session.ttl_seconds * 1000000);
      max_per_principal = s.session.max_sessions_per_principal;
      history_cap = 500;
      sessions = [];
      messages = [];
    }))
session_store_for postgres s = elim s.session.dsn [
  | none ↦ fails (codes "session.dsn is required for the postgres backend")
  | some dsn ↦
      builds
        (database dsn (s.session.ttl_seconds * 1000000) s.session.max_sessions_per_principal 10)
]
session_store_for redis s =
    fails (codes "session backend 'redis' is configured but its adapter is not implemented yet")

-- `build_session_store`; the times are microseconds.
unfoldable pub build_session_store : Settings → Built SessionStore
unfolding session_store_for
build_session_store s = session_store_for s.session.backend s

-- The limiter of the runs of one process.
unfoldable pub local_runs : Settings → Concurrency.Limiter
local_runs s = record { limit = s.rate_limit.max_concurrent_runs; running = [] }

limiters_for : LimitBackend → Settings → Built Limiters
unfolding local_runs
limiters_for per_process s = builds (
    local
      (record {
        rate = s.rate_limit.requests_per_second;
        burst = s.rate_limit.burst * 1000000000;
        buckets = [];
      })
      (local_runs s))
limiters_for shared s = elim s.rate_limit.dsn [
  | none ↦ fails (codes "rate_limit.dsn is required for the redis backend")
  | some dsn ↦ builds (
      global dsn
        (record {
          rate = s.rate_limit.requests_per_second;
          burst = s.rate_limit.burst * 1000000000;
          fail_open = s.rate_limit.fail_open;
        })
        (record {
          limit = s.rate_limit.max_concurrent_runs;
          lease_ttl = s.rate_limit.lease_ttl_s;
          fail_open = s.rate_limit.fail_open;
        }))
]

-- `build_limiters`, when Redis answers. A bucket counts billionths of a token, so that a rate in
-- thousandths for each second is a whole number for each microsecond.
unfoldable pub build_limiters : Settings → Built Limiters
unfolding local_runs limiters_for
build_limiters s =
    if not s.rate_limit.enabled
    then builds (unlimited (local_runs s))
    else limiters_for s.rate_limit.backend s

-- `build_embedder`
unfoldable pub build_embedder : Settings → Built Embedder
build_embedder s =
    if is_some s.embedding.model_path
    then builds (weights s.embedding)
    else if is_production s.environment
    then fails (codes "embedding.model_path is required in production")
    else builds hashing

-- `build_vector_store`
unfoldable pub build_vector_store : Settings → Embedder → VectorStore
build_vector_store s e = if is_memory s.vector.mode then volatile e else chroma s.vector e

-- `build_agent_runner`
unfoldable pub build_agent_runner : Settings → Runner
unfolding is_configured
build_agent_runner s =
    if is_configured s.model
    then native (record { top_k = s.vector.default_top_k; min_score = s.vector.min_score })
    else reference

-- The sessions are in a database, or the start fails.
abbrev pub IsDurable : Built SessionStore → Type 0
IsDurable (builds (in_process s)) = ⊥
IsDurable (builds (database dsn ttl limit pool)) = Unit
IsDurable (fails message) = Unit

-- The limits on requests and on runs are both shared through Redis, or the start fails.
abbrev pub IsGlobal : Built Limiters → Type 0
IsGlobal (builds (local b r)) = ⊥
IsGlobal (builds (unlimited r)) = ⊥
IsGlobal _ = Unit

session_store_for-IsDurable :
    (b : SessionBackend) (s : Settings) → is_in_memory b ≡ false → IsDurable (session_store_for b s)
unfolding session_store_for is_in_memory
session_store_for-IsDurable in_memory s h = absurd (ground arith)
session_store_for-IsDurable redis s h = tt
session_store_for-IsDurable postgres s h =
    option_cases IsDurable s.session.dsn _ _ (λ _. tt) (λ dsn _. tt)

limiters_for-IsGlobal :
    (b : LimitBackend) (s : Settings) → is_per_process b ≡ false → IsGlobal (limiters_for b s)
unfolding limiters_for is_per_process
limiters_for-IsGlobal per_process s h = absurd (ground arith)
limiters_for-IsGlobal shared s h =
    option_cases IsGlobal s.rate_limit.dsn _ _ (λ _. tt) (λ dsn _. tt)

-- In production, a deployment whose settings are accepted is built of parts that may stand there:
-- its sessions are in a database or it does not start, its limits on requests and on runs are
-- shared through Redis, or it does not start, unless limits are disabled, its memory is kept by
-- Chroma, and its runner is the agent with the model. Its embeddings are those of the model that is
-- configured; where none is, which the settings do not check, the start fails and nothing stands in
-- for it.
pub faults-build :
    (s : Settings) (e : Embedder)
    → faults s ≡ []
    → is_production s.environment ≡ true
    → IsDurable (build_session_store s)
      × ((s.rate_limit.enabled ≡ false) ⊎ IsGlobal (build_limiters s))
      × (build_vector_store s e ≡ chroma s.vector e)
      × (build_agent_runner s
          ≡ native (record { top_k = s.vector.default_top_k; min_score = s.vector.min_score }))
      × (build_embedder s ≡ (
          if is_some s.embedding.model_path
          then builds (weights s.embedding)
          else fails (codes "embedding.model_path is required in production")))
unfolding build_session_store build_limiters build_vector_store build_agent_runner build_embedder
    is_configured
faults-build s e accepted p =
    let h = ((faults-nil_iff s).0 accepted).1 p in
    (
      session_store_for-IsDurable s.session.backend s h.durable_sessions,
      elim (Bool-cases s.rate_limit.enabled) [
        | inr off ↦ inl off
        | inl on ↦ inr (
            if_cases IsGlobal (not s.rate_limit.enabled) _ _
              (λ off. absurd (ground (arith, off, on)))
              (λ _.
                limiters_for-IsGlobal s.rate_limit.backend s (ground (arith, h.global_limits, on))))
      ],
      rw h.durable_memory refl,
      rw h.configured refl,
      rw p refl,
    )
