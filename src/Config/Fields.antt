-- ===== src/Config/Fields.antt =====
-- bat/settings.py: what a section has to pass. Its fields are checked one by one and then, when none is
-- at fault, its validator says of them together what it says.
use mathlib.Core.List.{reverse}
use bat_ai.Prelude.{
  ℕ, Bool, true, false, ◌&&◌, ◌||◌, not, List, [], ◌∷◌, ◌++◌, Option, none, some, String,
  if◌then◌else◌, string_eq, ltb, leb, nat_beq, length, all, map, is_some,
}
use bat_ai.Prelude.Text.{Text, codes, split_on, text_beq}
use bat_ai.Domain.Tenancy.{is_tenant_id}
use bat_ai.Api.Access.{KeyRecord}
use bat_ai.Rag.Chunking.{is_empty}
use bat_ai.Agent.Prompt.{lower}
use bat_ai.Config.Settings.{
  ModelSettings, EmbeddingSettings, VectorMode, persistent, http, memory, VectorSettings,
  SessionBackend, in_memory, SessionSettings, LimitBackend, per_process, shared, RateLimitSettings,
  AgentSettings,
}

-- A field that its constraint refuses, or the message of a validator's `ValueError`, without the value
-- that it quotes.
pub data Fault : Type 0 where
  field : String → Fault
  rule : Text → Fault

-- The faults of the constraints that do not hold.
unfoldable pub failing : List (String × Bool) → List Fault
failing [] = []
failing ((name, holds) ∷ fields) =
    let rest = failing fields in if holds then rest else field name ∷ rest

-- The fields come first; a validator of the whole runs on fields without fault.
unfoldable pub then_rules : List Fault → List Fault → List Fault
then_rules [] rules = rules
then_rules (f ∷ fs) rules = f ∷ fs

abbrev positive : Option ℕ → Bool
positive none = true
positive (some n) = ltb 0 n

-- The extension of a name that is read from its end: from its last point on, unless that starts or ends
-- the name.
suffix_before : Text → Text → Text
suffix_before seen [] = []
suffix_before seen (c ∷ before) =
    let rest = suffix_before (c ∷ seen) before in
    if nat_beq c b'.' then (if is_empty seen || is_empty before then [] else c ∷ seen) else rest

is_dot : Text → Bool
is_dot [] = false
is_dot (c ∷ rest) = nat_beq c b'.' && is_empty rest

-- The last component of a path; empty ones and single points are none.
last_name : Text → List Text → Text
unfolding is_dot
last_name name [] = name
last_name name (p ∷ ps) = last_name (if is_empty p || is_dot p then name else p) ps

-- `Path(path).suffix.lower()`
unfoldable pub suffix : Text → Text
unfolding suffix_before last_name
suffix path = map lower (suffix_before [] (reverse (last_name [] (split_on b'/' path))))

unfoldable pub is_gguf : Option Text → Bool
unfolding suffix
is_gguf none = true
is_gguf (some path) = text_beq (suffix path) (codes ".gguf")

unfoldable pub is_configured : ModelSettings → Bool
is_configured s = is_some s.model_path

rule_unless : String → Bool → List Fault
rule_unless message holds = if holds then [] else rule (codes message) ∷ []

unfoldable pub model_faults : ModelSettings → List Fault
unfolding failing then_rules is_gguf rule_unless
model_faults s =
    then_rules
      (failing (
        ("n_ctx", ltb 0 s.n_ctx)
        ∷ ("n_threads", positive s.n_threads)
        ∷ ("n_batch", ltb 0 s.n_batch)
        ∷ ("temperature", leb s.temperature 2000)
        ∷ ("top_p", ltb 0 s.top_p && leb s.top_p 1000)
        ∷ ("max_tokens", ltb 0 s.max_tokens)
        ∷ ("repeat_penalty", ltb 0 s.repeat_penalty)
        ∷ ("request_timeout_s", ltb 0 s.request_timeout_s)
        ∷ ("max_queue_depth", ltb 0 s.max_queue_depth)
        ∷ []))
      (rule_unless "model_path must be a .gguf file" (is_gguf s.model_path))

unfoldable pub embedding_faults : EmbeddingSettings → List Fault
unfolding failing then_rules is_gguf rule_unless
embedding_faults s =
    then_rules
      (failing (
        ("n_ctx", ltb 0 s.n_ctx)
        ∷ ("n_threads", positive s.n_threads)
        ∷ ("n_batch", ltb 0 s.n_batch)
        ∷ ("batch_size", ltb 0 s.batch_size)
        ∷ []))
      (rule_unless "embedding model_path must be a .gguf file" (is_gguf s.model_path))

is_persistent : VectorMode → Bool
is_persistent persistent = true
is_persistent _ = false

is_http : VectorMode → Bool
is_http http = true
is_http _ = false

unfoldable pub is_memory : VectorMode → Bool
is_memory memory = true
is_memory _ = false

is_filled : Option Text → Bool
is_filled none = false
is_filled (some s) = not (is_empty s)

-- `_check_mode`, which raises for the first rule that is broken.
unfoldable pub check_mode : VectorSettings → List Fault
unfolding is_persistent is_http is_filled
check_mode s =
    if is_persistent s.mode && not (is_some s.path)
    then rule (codes "vector.path is required when vector.mode='persistent'") ∷ []
    else if is_http s.mode && not (is_filled s.host)
    then rule (codes "vector.host is required when vector.mode='http'") ∷ []
    else if leb s.chunk_size s.chunk_overlap
    then rule (codes "chunk_overlap must be smaller than chunk_size") ∷ []
    else []

unfoldable pub vector_faults : VectorSettings → List Fault
unfolding failing then_rules check_mode
vector_faults s =
    then_rules
      (failing (
        ("chunk_size", ltb 0 s.chunk_size)
        ∷ ("default_top_k", ltb 0 s.default_top_k)
        ∷ ("context_token_budget", ltb 0 s.context_token_budget)
        ∷ ("min_score", leb s.min_score 1000)
        ∷ []))
      (check_mode s)

unfoldable pub is_in_memory : SessionBackend → Bool
is_in_memory in_memory = true
is_in_memory _ = false

unfoldable pub session_faults : SessionSettings → List Fault
unfolding failing then_rules rule_unless is_in_memory
session_faults s =
    then_rules
      (failing (
        ("ttl_seconds", ltb 0 s.ttl_seconds)
        ∷ ("max_sessions_per_principal", ltb 0 s.max_sessions_per_principal)
        ∷ ("history_window", ltb 0 s.history_window)
        ∷ ("max_message_chars", ltb 0 s.max_message_chars)
        ∷ []))
      (rule_unless "session.dsn is required for the backend"
        (is_in_memory s.backend || is_some s.dsn))

unfoldable pub is_per_process : LimitBackend → Bool
is_per_process per_process = true
is_per_process shared = false

unfoldable pub rate_limit_faults : RateLimitSettings → List Fault
unfolding failing then_rules rule_unless is_per_process
rate_limit_faults s =
    then_rules
      (failing (
        ("lease_ttl_s", ltb 0 s.lease_ttl_s)
        ∷ ("requests_per_second", ltb 0 s.requests_per_second)
        ∷ ("burst", ltb 0 s.burst)
        ∷ ("max_concurrent_runs", ltb 0 s.max_concurrent_runs)
        ∷ []))
      (rule_unless "rate_limit.dsn is required for backend='redis'"
        (is_per_process s.backend || is_some s.dsn))

unfoldable pub agent_faults : AgentSettings → List Fault
unfolding failing
agent_faults s = failing (
    ("max_steps", ltb 0 s.max_steps && leb s.max_steps 32)
    ∷ ("deadline_s", ltb 0 s.deadline_s)
    ∷ ("max_tool_calls_per_run", ltb 0 s.max_tool_calls_per_run)
    ∷ ("tool_rounds_per_turn", ltb 0 s.tool_rounds_per_turn)
    ∷ [])

is_hex_digit : ℕ → Bool
is_hex_digit c = (leb b'0' c && leb c b'9') || (leb b'a' c && leb c b'f')

-- A credential: the pattern of its digest and the check of its tenant.
unfoldable pub key_faults : KeyRecord → List Fault
unfolding failing is_hex_digit is_tenant_id
key_faults r = failing (
    (
      "key_sha256",
      all is_hex_digit (codes r.key_sha256) && nat_beq (length (codes r.key_sha256)) 64,
    )
    ∷ ("tenant_id", is_tenant_id (codes r.tenant_id))
    ∷ [])

unfoldable pub all_key_faults : List KeyRecord → List Fault
unfolding key_faults
all_key_faults [] = []
all_key_faults (r ∷ rs) = key_faults r ++ all_key_faults rs

abbrev pub log_levels : List String
log_levels = "DEBUG" ∷ "INFO" ∷ "WARNING" ∷ "ERROR" ∷ "CRITICAL" ∷ []
