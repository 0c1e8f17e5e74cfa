-- ===== src/Config/Settings.antt =====
-- bat/settings.py: the settings, one record for each class. Paths, hosts and secrets are texts.
-- Fractions are in thousandths, times in microseconds but for `ttl_seconds`. The defaults that a
-- deployment has to leave for production are `default_settings`.
use bat_ai.Prelude.{ℕ, Bool, true, false, List, [], Option, none, some, String}
use bat_ai.Prelude.Text.{Text}
use bat_ai.Tools.Policy.{Authority, Isolation, network, subprocess}
use bat_ai.Api.Access.{KeyRecord}

pub data Environment : Type 0 where
  local staging production : Environment

unfoldable pub is_production : Environment → Bool
is_production production = true
is_production _ = false

-- The layers that go to the GPU: all of them for −1.
pub data Layers : Type 0 where
  every_layer : Layers
  layers : ℕ → Layers

pub record ModelSettings : Type 0 where
  pub model_path : Option Text
  pub name : String
  pub n_ctx : ℕ
  pub n_gpu_layers : Layers
  pub n_threads : Option ℕ
  pub n_batch : ℕ
  pub chat_format : Option String
  pub tool_chat_format : Option String
  pub seed : Option ℕ
  pub use_mmap : Bool
  pub use_mlock : Bool
  pub verbose : Bool
  pub temperature : ℕ
  pub top_p : ℕ
  pub max_tokens : ℕ
  pub repeat_penalty : ℕ
  pub request_timeout_s : ℕ
  pub max_queue_depth : ℕ
  pub preload : Bool

pub record EmbeddingSettings : Type 0 where
  pub model_path : Option Text
  pub n_ctx : ℕ
  pub n_gpu_layers : Layers
  pub n_threads : Option ℕ
  pub n_batch : ℕ
  pub batch_size : ℕ
  pub normalize : Bool
  pub verbose : Bool

pub data VectorMode : Type 0 where
  persistent http memory : VectorMode

pub record VectorSettings : Type 0 where
  pub mode : VectorMode
  pub path : Option Text
  pub host : Option Text
  pub port : ℕ
  pub ssl : Bool
  pub chunk_size : ℕ
  pub chunk_overlap : ℕ
  pub default_top_k : ℕ
  pub context_token_budget : ℕ
  pub min_score : ℕ

pub data SessionBackend : Type 0 where
  in_memory redis postgres : SessionBackend

pub record SessionSettings : Type 0 where
  pub backend : SessionBackend
  pub dsn : Option Text
  pub ttl_seconds : ℕ
  pub max_sessions_per_principal : ℕ
  pub history_window : ℕ
  pub max_message_chars : ℕ

pub data LimitBackend : Type 0 where
  per_process shared : LimitBackend

pub record RateLimitSettings : Type 0 where
  pub enabled : Bool
  pub backend : LimitBackend
  pub dsn : Option Text
  pub fail_open : Bool
  pub lease_ttl_s : ℕ
  pub requests_per_second : ℕ
  pub burst : ℕ
  pub max_concurrent_runs : ℕ

pub record AgentSettings : Type 0 where
  pub max_steps : ℕ
  pub deadline_s : ℕ
  pub max_tool_calls_per_run : ℕ
  pub tool_rounds_per_turn : ℕ
  pub max_tool_authority : Authority
  pub min_code_isolation : Isolation
  pub enabled_tools : List String

pub record Settings : Type 0 where
  pub environment : Environment
  pub service_name : String
  pub log_level : String
  pub json_logs : Bool
  pub docs_enabled : Bool
  pub cors_origins : List Text
  pub trusted_proxy_hops : ℕ
  pub api_keys : List KeyRecord
  pub model : ModelSettings
  pub embedding : EmbeddingSettings
  pub vector : VectorSettings
  pub session : SessionSettings
  pub rate_limit : RateLimitSettings
  pub agent : AgentSettings

abbrev pub default_model : ModelSettings
default_model = record {
  model_path = none;
  name = "bat-engine";
  n_ctx = 8192;
  n_gpu_layers = layers 0;
  n_threads = none;
  n_batch = 512;
  chat_format = none;
  tool_chat_format = some "chatml-function-calling";
  seed = none;
  use_mmap = true;
  use_mlock = false;
  verbose = false;
  temperature = 200;
  top_p = 950;
  max_tokens = 2048;
  repeat_penalty = 1100;
  request_timeout_s = 180000000;
  max_queue_depth = 8;
  preload = true;
}

abbrev pub default_embedding : EmbeddingSettings
default_embedding = record {
  model_path = none;
  n_ctx = 2048;
  n_gpu_layers = layers 0;
  n_threads = none;
  n_batch = 512;
  batch_size = 16;
  normalize = true;
  verbose = false;
}

abbrev pub default_vector : VectorSettings
default_vector = record {
  mode = memory;
  path = none;
  host = none;
  port = 8000;
  ssl = false;
  chunk_size = 1000;
  chunk_overlap = 150;
  default_top_k = 5;
  context_token_budget = 1500;
  min_score = 250;
}

abbrev pub default_session : SessionSettings
default_session = record {
  backend = in_memory;
  dsn = none;
  ttl_seconds = 86400;
  max_sessions_per_principal = 200;
  history_window = 20;
  max_message_chars = 32000;
}

abbrev pub default_rate_limit : RateLimitSettings
default_rate_limit = record {
  enabled = true;
  backend = per_process;
  dsn = none;
  fail_open = true;
  lease_ttl_s = 300000000;
  requests_per_second = 5000;
  burst = 20;
  max_concurrent_runs = 4;
}

abbrev pub default_agent : AgentSettings
default_agent = record {
  max_steps = 6;
  deadline_s = 120000000;
  max_tool_calls_per_run = 8;
  tool_rounds_per_turn = 1;
  max_tool_authority = network;
  min_code_isolation = subprocess;
  enabled_tools = [];
}

abbrev pub default_settings : Settings
default_settings = record {
  environment = local;
  service_name = "bat-api";
  log_level = "INFO";
  json_logs = true;
  docs_enabled = true;
  cors_origins = [];
  trusted_proxy_hops = 0;
  api_keys = [];
  model = default_model;
  embedding = default_embedding;
  vector = default_vector;
  session = default_session;
  rate_limit = default_rate_limit;
  agent = default_agent;
}
