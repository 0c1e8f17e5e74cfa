-- ===== src/Config/Checks.antt =====
-- bat/settings.py: what the settings as a whole have to pass, the faults of their sections and the
-- conditions of production. Python's JSON is a parameter.
use bat_ai.Prelude.{
  Bool, false, ◌&&◌, ◌||◌, not, List, [], ◌∷◌, ◌++◌, Option, some, String, if◌then◌else◌, string_eq,
  ltb, leb, nat_beq, keep, map, contains,
}
use bat_ai.Prelude.Text.{Text, codes, strip, join, split_on, text_beq}
use bat_ai.Tools.Policy.{host, subprocess, reach, containment}
use bat_ai.Api.Access.{KeyRecord}
use bat_ai.Rag.Chunking.{is_empty}
use bat_ai.Config.Settings.{is_production, Settings}
use bat_ai.Config.Fields.{
  Fault, agent_faults, all_key_faults, embedding_faults, failing, is_configured, is_in_memory,
  is_memory, is_per_process, log_levels, model_faults, rate_limit_faults, rule, session_faults,
  then_rules, vector_faults,
}

-- What the environment gives for a list: a text, or the list itself.
pub data Raw (A : Type 0) : Type 0 where
  as_text : Text → Raw A
  as_list : List A → Raw A

-- `_parse_api_keys`; `json` is `none` for its errors.
unfoldable pub parse_api_keys :
    (Text → Option (List KeyRecord)) → Raw KeyRecord → Option (List KeyRecord)
parse_api_keys json (as_text s) = json s
parse_api_keys json (as_list keys) = some keys

-- `_parse_origins`: a JSON array, or names between commas.
unfoldable pub parse_origins : (Text → Option (List Text)) → Raw Text → Option (List Text)
unfolding split_on strip
parse_origins json (as_list origins) = some origins
parse_origins json (as_text s) =
    let v = strip s in
    if starts_bracket v
    then json v
    else some (keep (λ o. not (is_empty o)) (map strip (split_on b',' v)))
  where
    starts_bracket : Text → Bool
    starts_bracket [] = false
    starts_bracket (c ∷ rest) = nat_beq c b'['

text_is_star : Text → Bool
text_is_star s = text_beq s (codes "*")

unfoldable pub any_star : List Text → Bool
unfolding text_is_star
any_star [] = false
any_star (o ∷ os) = text_is_star o || any_star os

-- The conditions of production, each with the problem that is named when it does not hold.
unfoldable pub conditions : Settings → List (String × Bool)
unfolding is_configured
conditions s =
    ("no api_keys configured; the API would reject every request", not (is_empty s.api_keys))
    ∷ ("model.model_path is unset; the API cannot serve a single agent turn", is_configured s.model)
    ∷ ("cors_origins may not be '*' in production", not (any_star s.cors_origins))
    ∷ ("vector.mode='memory' loses all tenant memory on restart", not (is_memory s.vector.mode))
    ∷ (
      "session.backend='memory' is per-process; sessions would be lost on restart and inconsistent across replicas",
      not (is_in_memory s.session.backend),
    )
    ∷ (
      "rate_limit.backend='memory' is per-process; the effective limit becomes replicas x configured and moves when the cluster scales",
      not (s.rate_limit.enabled && is_per_process s.rate_limit.backend),
    )
    ∷ (
      "rate_limit.lease_ttl_s must exceed agent.deadline_s, or a live run's slot is released while it is still running",
      ltb s.agent.deadline_s s.rate_limit.lease_ttl_s,
    )
    ∷ (
      "agent.max_tool_authority must be below HOST in production; a tool that can reach the host gives a tenant control of shared infrastructure through prompt injection",
      ltb (reach s.agent.max_tool_authority) (reach host),
    )
    ∷ (
      "agent.min_code_isolation must be SUBPROCESS or stronger in production; running caller-supplied code in the API process is arbitrary code execution",
      leb (containment subprocess) (containment s.agent.min_code_isolation),
    )
    ∷ []

-- The problems that `_harden` collects.
unfoldable pub problems : List (String × Bool) → List Text
problems [] = []
problems ((problem, holds) ∷ rest) =
    let others = problems rest in if holds then others else codes problem ∷ others

-- `_harden`
unfoldable pub harden : Settings → List Fault
unfolding conditions problems
harden s =
    let found = problems (conditions s) in
    if not (is_production s.environment)
    then []
    else if is_empty found
    then []
    else rule (codes "unsafe production configuration:\n  - " ++ join (codes "\n  - ") found) ∷ []

-- The faults of the whole; settings are constructed exactly when there are none.
unfoldable pub faults : Settings → List Fault
unfolding model_faults embedding_faults vector_faults session_faults rate_limit_faults agent_faults
    all_key_faults failing then_rules harden
faults s =
    then_rules
      (failing (("log_level", contains s.log_level log_levels) ∷ [])
        ++ (all_key_faults s.api_keys
            ++ (model_faults s.model
                ++ (embedding_faults s.embedding
                    ++ (vector_faults s.vector
                        ++ (session_faults s.session
                            ++ (rate_limit_faults s.rate_limit ++ agent_faults s.agent)))))))
      (harden s)
