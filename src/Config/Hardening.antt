-- ===== src/Config/Hardening.antt =====
-- What settings that bat/settings.py accepts give to the parts that read them.
use bat_ai.Prelude.{
  ◌↔◌, inl, inr, ◌≡◌, refl, ◌<◌, ◌≤◌, true, false, ◌&&◌, List, [], ◌∷◌, ◌++◌, some, arith, is_some,
  contains, string_eq, Bool-cases,
}
use bat_ai.Prelude.Dict.{get}
use bat_ai.Tools.Policy.{host, subprocess, reach, containment, ToolInvocation}
use bat_ai.Tools.Registry.{Tool, Registry}
use bat_ai.Tools.Executor.{Python, execute, AuditRecord}
use bat_ai.Tools.Safety.{IsRefusal, execute_host}
use bat_ai.Rag.Chunking.{is_empty, make, Chunker, default_separators}
use bat_ai.Api.Turn.{policy_for}
use bat_ai.Config.Settings.{Settings, is_production, VectorSettings}
use bat_ai.Config.Fields.{
  then_rules, failing, is_memory, is_in_memory, is_per_process, is_configured, vector_faults,
  check_mode, Fault, all_key_faults, model_faults, embedding_faults, session_faults,
  rate_limit_faults, agent_faults, log_levels,
}
use bat_ai.Config.Checks.{faults, harden, conditions, problems, any_star}
use bat_ai.Api.Turn

-- What production asks of a deployment.
pub record IsHardened (s : Settings) : Type 0 where
  pub keyed : is_empty s.api_keys ≡ false
  pub configured : is_some s.model.model_path ≡ true
  pub closed : any_star s.cors_origins ≡ false
  pub durable_memory : is_memory s.vector.mode ≡ false
  pub durable_sessions : is_in_memory s.session.backend ≡ false
  pub global_limits : s.rate_limit.enabled && is_per_process s.rate_limit.backend ≡ false
  pub outlives : s.agent.deadline_s < s.rate_limit.lease_ttl_s
  pub off_host : reach s.agent.max_tool_authority < reach host
  pub isolated : containment subprocess ≤ containment s.agent.min_code_isolation

harden-nil_iff :
    (s : Settings) → is_production s.environment ≡ true → (harden s ≡ []) ↔ IsHardened s
unfolding harden conditions problems is_configured is_empty
harden-nil_iff s p = (
  λ h. record {
    keyed = ground arith;
    configured = ground arith;
    closed = ground arith;
    durable_memory = ground arith;
    durable_sessions = ground arith;
    global_limits = ground arith;
    outlives = ground arith;
    off_host = ground arith;
    isolated = ground arith;
  },
  λ h. ground (
    arith, h.keyed, h.configured, h.closed, h.durable_memory, h.durable_sessions, h.global_limits,
    h.outlives, h.off_host, h.isolated,
  ),
)

append-nil : {A : Type 0} (xs ys : List A) → xs ++ ys ≡ [] → (xs ≡ []) × (ys ≡ [])
append-nil [] ys h = (refl, h)
append-nil (x ∷ xs) ys h = absurd (ground arith)

then_rules-nil : (fs rules : List Fault) → then_rules fs rules ≡ [] → (fs ≡ []) × (rules ≡ [])
unfolding then_rules
then_rules-nil [] rules h = (refl, h)
then_rules-nil (f ∷ fs) rules h = absurd (ground arith)

-- Every part of the settings passes its own constraints and its own validator.
pub record IsSound (s : Settings) : Type 0 where
  pub logged : failing (("log_level", contains s.log_level log_levels) ∷ []) ≡ []
  pub keys : all_key_faults s.api_keys ≡ []
  pub model : model_faults s.model ≡ []
  pub embedding : embedding_faults s.embedding ≡ []
  pub vector : vector_faults s.vector ≡ []
  pub session : session_faults s.session ≡ []
  pub rate_limit : rate_limit_faults s.rate_limit ≡ []
  pub agent : agent_faults s.agent ≡ []

faults-nil : (s : Settings) → faults s ≡ [] → IsSound s × (harden s ≡ [])
unfolding faults
faults-nil s h =
    let (fields, hardened) = then_rules-nil _ (harden s) h in
    let (logged, f1) = append-nil _ _ fields in
    let (keys, f2) = append-nil _ _ f1 in
    let (model, f3) = append-nil _ _ f2 in
    let (embedding, f4) = append-nil _ _ f3 in
    let (vector, f5) = append-nil _ _ f4 in
    let (session, f6) = append-nil _ _ f5 in
    let (rate_limit, agent) = append-nil _ _ f6 in
    (
      record {
        logged = logged;
        keys = keys;
        model = model;
        embedding = embedding;
        vector = vector;
        session = session;
        rate_limit = rate_limit;
        agent = agent;
      },
      hardened,
    )

IsSound-faults : (s : Settings) → IsSound s → harden s ≡ [] → faults s ≡ []
unfolding faults then_rules
IsSound-faults s h k =
    rw (h.logged, h.keys, h.model, h.embedding, h.vector, h.session, h.rate_limit, h.agent, k) refl

harden_development : (s : Settings) → is_production s.environment ≡ false → harden s ≡ []
unfolding harden
harden_development s h = ground arith

-- Settings are accepted exactly when every part passes its own checks and, in production, the whole
-- is hardened: keys and a model are configured, no origin is the wildcard, memory and sessions are
-- durable, limits are global, a lease outlives the longest run, no tool reaches the host, and
-- a caller's code runs in a process of its own at least.
pub faults-nil_iff :
    (s : Settings)
    → (faults s ≡ []) ↔ (IsSound s × (is_production s.environment ≡ true → IsHardened s))
faults-nil_iff s = (
  λ h. let (sound, hardened) = faults-nil s h in (sound, λ p. (harden-nil_iff s p).0 hardened),
  λ h. elim (Bool-cases (is_production s.environment)) [
    | inl p ↦ IsSound-faults s h.0 ((harden-nil_iff s p).1 (h.1 p))
    | inr d ↦ IsSound-faults s h.0 (harden_development s d)
  ],
)

-- The part of the settings that a turn reads.
abbrev pub turn_settings : Settings → Turn.Settings
turn_settings s = record {
  history_window = s.session.history_window;
  enabled_tools = s.agent.enabled_tools;
  max_tool_authority = s.agent.max_tool_authority;
  min_code_isolation = s.agent.min_code_isolation;
  max_tool_calls_per_run = s.agent.max_tool_calls_per_run;
  max_steps = s.agent.max_steps;
  tool_rounds_per_turn = s.agent.tool_rounds_per_turn;
  deadline_s = s.agent.deadline_s;
}

-- In production, whatever settings are accepted and whatever tools they enable, a call of a tool
-- with the authority of the host is refused under the policy of a turn: the world is untouched and
-- the answer is an error.
pub faults-execute_host :
    {W : Type 0} (py : Python W) (s : Settings) (tools : Registry W) (i : ToolInvocation)
    (log : List AuditRecord) (w : W) (t : Tool W)
    → faults s ≡ []
    → is_production s.environment ≡ true
    → get tools i.name ≡ some t
    → t.definition.authority ≡ host
    → IsRefusal i w (execute py tools i (policy_for (turn_settings s)) log w)
unfolding policy_for
faults-execute_host py s tools i log w t accepted p there is_host =
    let hardened = ((faults-nil_iff s).0 accepted).1 p in
    execute_host py tools i (policy_for (turn_settings s)) log w t there is_host hardened.off_host

check_mode-nil : (s : VectorSettings) → check_mode s ≡ [] → s.chunk_overlap < s.chunk_size
unfolding check_mode
check_mode-nil s h = ground arith

-- Accepted settings give a chunker of their chunk size and overlap: the constructor that refuses bad
-- numbers does not refuse theirs.
pub faults-make :
    (s : Settings)
    → faults s ≡ []
    → (c : Chunker) × (make s.vector.chunk_size s.vector.chunk_overlap ≡ some c)
      × (c.chunk_size ≡ s.vector.chunk_size)
      × (c.chunk_overlap ≡ s.vector.chunk_overlap)
unfolding make vector_faults
faults-make s accepted =
    let sound = ((faults-nil_iff s).0 accepted).0 in
    let (_, mode) = then_rules-nil _ (check_mode s.vector) sound.vector in
    let smaller = check_mode-nil s.vector mode in
    (
      record {
        chunk_size = s.vector.chunk_size;
        chunk_overlap = s.vector.chunk_overlap;
        separators = default_separators;
      },
      ground arith,
      refl,
      refl,
    )
