-- ===== src/Desktop/Brain.antt =====
-- core/brain.py: `CognitiveBrain`, a thin wrapper of the agent. A turn takes the events of a run one by
-- one. The ids of the messages and the readings of the clock are an input of the turn.
use bat_ai.Prelude.{
  ℕ, Bool, true, false, List, [], ◌∷◌, ◌++◌, Option, none, some, String, ◌⊎◌, inl, inr,
  if◌then◌else◌, nat_beq,
}
use bat_ai.Prelude.Text.{Text, codes, concat}
use bat_ai.Sessions.Store.{last}
use bat_ai.Domain.Tenancy.{
  Scope, sessions_read, sessions_write, agent_invoke, memory_read, memory_write, tools_execute,
  admin, TenantContext,
}
use bat_ai.Domain.Conversation.{Role, user, assistant, Message, create_message, Session, create}
use bat_ai.Tools.Policy.{ToolPolicy, desktop_policy}
use bat_ai.Agent.Events.{RunRequest, Event, token, final, failed}
use bat_ai.Agent.Prompt.{Runner}
use bat_ai.Agent.Loop.{Trace, run}
use bat_ai.Config.Settings.{Settings}

abbrev pub local_tenant : String
local_tenant = "local"

abbrev pub local_principal : String
local_principal = "owner"

abbrev every_scope : List Scope
every_scope =
    sessions_read ∷ sessions_write ∷ agent_invoke ∷ memory_read ∷ memory_write ∷ tools_execute
    ∷ admin ∷ []

-- `_local_context`
unfoldable pub local_context : ℕ → TenantContext
local_context now = record {
  tenant_id = local_tenant;
  principal = record {
    id = local_principal;
    tenant_id = local_tenant;
    scopes = every_scope;
    display_name = some "Local user";
  };
  request_id = "cli";
  started_at = now;
}

pub record Brain : Type 0 where
  pub settings : Settings
  pub context : TenantContext
  pub session : Session
  pub history : List Message
  pub policy : ToolPolicy

unfoldable pub policy_or : Option ToolPolicy → Settings → ToolPolicy
policy_or (some p) s = p
policy_or none s = record {
  allowed = s.agent.enabled_tools;
  max_authority = desktop_policy.max_authority;
  min_code_isolation = desktop_policy.min_code_isolation;
  allowed_side_effects = desktop_policy.allowed_side_effects;
  max_calls_per_run = s.agent.max_tool_calls_per_run;
}

-- `__init__`, as far as the turns look at it.
unfoldable pub make : Settings → Option ToolPolicy → ℕ → ℕ → Brain
unfolding local_context policy_or create
make settings tool_policy id now = record {
  settings = settings;
  context = local_context now;
  session = create id now local_tenant local_principal (some "cli") none;
  history = [];
  policy = policy_or tool_policy settings;
}

-- `history[-n:]`, which is the whole of it for 0.
unfoldable pub window : ℕ → List Message → List Message
window n history = if nat_beq n 0 then history else last n history

unfoldable pub request_of : Brain → Text → Bool → RunRequest
unfolding window
request_of b user_input stream_tokens = record {
  context = b.context;
  session = b.session;
  user_input = user_input;
  history = window b.settings.session.history_window b.history;
  policy = b.policy;
  max_steps = b.settings.agent.max_steps;
  tool_rounds_per_turn = b.settings.agent.tool_rounds_per_turn;
  deadline_s = b.settings.agent.deadline_s;
  stream_tokens = stream_tokens;
}

-- What `new_id` draws and the clock reads for the two messages of a turn.
pub record Draws : Type 0 where
  pub user_id : String
  pub asked_at : ℕ
  pub assistant_id : String
  pub answered_at : ℕ

-- `_record`
unfoldable pub record_message : String → ℕ → Role → Text → Brain → Brain
record_message id now role content b = record b {
  history = b.history ++ create_message id now b.session.id local_tenant role content ∷ [];
}

unfoldable pub record_turn : Draws → Text → Text → Brain → Brain
unfolding record_message
record_turn d user_input answer b =
    record_message d.assistant_id d.answered_at assistant answer
      (record_message d.user_id d.asked_at user user_input b)

abbrev pub error_line : String → Text → Text
error_line code message = codes "[" ++ (codes code ++ (codes "] " ++ message))

-- The loop of `ask`: the error that it returns at once, or the answer at the end.
unfoldable pub answer_of : Text → List Event → Text ⊎ Text
answer_of answer [] = inr answer
answer_of answer (final f ∷ es) = answer_of f.content es
answer_of answer (failed code message ∷ es) = inl (error_line code message)
answer_of answer (_ ∷ es) = answer_of answer es

-- The loop of `stream`: what it yields, and what it collects.
unfoldable pub shown_of : List Event → List Text
shown_of [] = []
shown_of (token t ∷ es) = t ∷ shown_of es
shown_of (failed code message ∷ es) = (codes "\n" ++ error_line code message) ∷ shown_of es
shown_of (_ ∷ es) = shown_of es

unfoldable pub collected_of : List Event → List Text
collected_of [] = []
collected_of (token t ∷ es) = t ∷ collected_of es
collected_of (_ ∷ es) = collected_of es

-- What a turn leaves; no reply when the exception of the run goes on to the caller.
pub record Turn (W A : Type 0) : Type 0 where
  pub reply : Option A
  pub brain : Brain
  pub world : W

module _ {W : Type 0} where
  unfoldable pub finish_ask : Draws → Text → Brain → Trace W → Turn W Text
  unfolding answer_of record_turn
  finish_ask d user_input b t = elim (answer_of [] t.events) [
    | inl line ↦ record { reply = some line; brain = b; world = t.world }
    | inr answer ↦ elim t.failure [
      | none ↦ record {
        reply = some answer;
        brain = record_turn d user_input answer b;
        world = t.world;
      }
      | some f ↦ record { reply = none; brain = b; world = t.world }
    ]
  ]

  -- `ask`
  unfoldable pub ask : Runner W → Draws → Text → Brain → W → Turn W Text
  unfolding finish_ask request_of run
  ask r d user_input b w = finish_ask d user_input b (run r (request_of b user_input false) w)

  -- What the caller gets of a stream before an exception is not shown here.
  unfoldable pub finish_stream : Draws → Text → Brain → Trace W → Turn W (List Text)
  unfolding shown_of collected_of record_turn
  finish_stream d user_input b t = elim t.failure [
    | none ↦ record {
      reply = some (shown_of t.events);
      brain = record_turn d user_input (concat (collected_of t.events)) b;
      world = t.world;
    }
    | some f ↦ record { reply = none; brain = b; world = t.world }
  ]

  -- `stream`, when its caller takes all that it yields.
  unfoldable pub stream : Runner W → Draws → Text → Brain → W → Turn W (List Text)
  unfolding finish_stream request_of run
  stream r d user_input b w = finish_stream d user_input b (run r (request_of b user_input true) w)
