-- ===== src/Api/Turn.antt =====
-- bat/api/routers/messages.py: one turn, answered at once or streamed as server-sent events. The
-- request is the only task here: its store, limiter and world are passed on. Each call of the store
-- reads the clock, and each message draws an id.
use bat_ai.Prelude.{ℕ, true, false, List, [], ◌∷◌, none, some, String}
use bat_ai.Prelude.Text.{Text}
use bat_ai.Domain.Errors.{Result, ok, raise, error, upstream}
use bat_ai.Domain.Tenancy.{TenantContext}
use bat_ai.Domain.Conversation.{Message, Session, create_message, user, assistant}
use bat_ai.Tools.Policy.{Authority, Isolation, ToolPolicy, read_only}
use bat_ai.Tools.Registry.{Outcome, returns, raises, crashes, cancelled}
use bat_ai.Sessions.Store.{Store, get_session, get_history, append_message}
use bat_ai.RateLimit.Concurrency.{Limiter, enter, leave}
use bat_ai.Agent.Events.{RunRequest, final, failed, FinalEvent, StopReason, Terminal, collect}
use bat_ai.Agent.Observe.{Failure, bat, crashed, gone}
use bat_ai.Agent.Loop.{Trace}

-- The settings that a turn reads.
pub record Settings : Type 0 where
  pub history_window : ℕ
  pub enabled_tools : List String
  pub max_tool_authority : Authority
  pub min_code_isolation : Isolation
  pub max_tool_calls_per_run : ℕ
  pub max_steps : ℕ
  pub tool_rounds_per_turn : ℕ
  pub deadline_s : ℕ

-- `_policy_for`; the side effects are the policy's default.
unfoldable pub policy_for : Settings → ToolPolicy
policy_for settings = record {
  allowed = settings.enabled_tools;
  max_authority = settings.max_tool_authority;
  min_code_isolation = settings.min_code_isolation;
  allowed_side_effects = read_only ∷ [];
  max_calls_per_run = settings.max_tool_calls_per_run;
}

-- The clock's readings and the ids that a request draws.
pub record Draws : Type 0 where
  pub loaded_at : ℕ
  pub read_at : ℕ
  pub asked_at : ℕ
  pub answered_at : ℕ
  pub user_id : String
  pub assistant_id : String

pub record Request : Type 0 where
  pub context : TenantContext
  pub session_id : ℕ
  pub content : Text
  pub settings : Settings
  pub draws : Draws

-- A call of the store, and what is done with its result.
unfoldable pub await_store :
    {A B : Type 0} → Result A × Store → (A → Store → Result B × Store) → Result B × Store
await_store (raise e, s) next = (raise e, s)
await_store (ok a, s) next = next a s

unfoldable pub user_message : Request → Message
user_message r =
    create_message r.draws.user_id r.draws.asked_at r.session_id r.context.tenant_id user r.content

unfoldable pub run_request : Request → Session → List Message → RunRequest
unfolding policy_for
run_request r session history = record {
  context = r.context;
  session = session;
  user_input = r.content;
  history = history;
  policy = policy_for r.settings;
  max_steps = r.settings.max_steps;
  tool_rounds_per_turn = r.settings.tool_rounds_per_turn;
  deadline_s = r.settings.deadline_s;
  stream_tokens = true;
}

-- `_prepare`
unfoldable pub prepare : Request → Store → Result (Message × RunRequest) × Store
unfolding await_store user_message run_request
prepare r s =
    await_store (get_session s r.draws.loaded_at r.context.tenant_id r.session_id) λ session s1.
      await_store
        (get_history s1 r.draws.read_at r.context.tenant_id r.session_id r.settings.history_window)
        λ history s2.
          await_store
            (append_message s2 r.draws.asked_at r.context.tenant_id r.session_id (user_message r))
            λ message s3. (ok (message, run_request r session history), s3)

-- `_persist_reply`
unfoldable pub persist_reply : Request → Text → Store → Result Message × Store
persist_reply r content s = append_message s r.draws.answered_at r.context.tenant_id r.session_id (
    create_message r.draws.assistant_id r.draws.answered_at r.session_id r.context.tenant_id
      assistant content)

pub record TurnResponse : Type 0 where
  pub user_message : Message
  pub assistant_message : Message
  pub stop_reason : StopReason
  pub steps : ℕ
  pub prompt_tokens : ℕ
  pub completion_tokens : ℕ

-- What a request acts on.
pub record Backend (W : Type 0) : Type 0 where
  pub store : Store
  pub limiter : Limiter
  pub world : W

unfoldable pub respond : Message → FinalEvent → Result Message → Outcome TurnResponse
respond asked f (raise e) = raises e
respond asked f (ok answered) = returns (record {
  user_message = asked;
  assistant_message = answered;
  stop_reason = f.stop_reason;
  steps = f.steps;
  prompt_tokens = f.prompt_tokens;
  completion_tokens = f.completion_tokens;
})

-- The outcome that an exception of the run leaves.
unfoldable pub outcome_of : {A : Type 0} → Failure → Outcome A
outcome_of (bat e) = raises e
outcome_of crashed = crashes
outcome_of gone = cancelled

-- The answer to the terminal event.
unfoldable pub conclude : Request → Message → Terminal → Store → Outcome TurnResponse × Store
unfolding respond persist_reply
conclude r asked (failed code message) s = (raises (error upstream message), s)
conclude r asked (final f) s =
    let (answered, s') = persist_reply r f.content s in (respond asked f answered, s')

module _ {W : Type 0} (run : RunRequest → W → Trace W) where
  abbrev settle : Request → Message → Trace W → Store → Outcome TurnResponse × Store
  settle r asked t s = elim t.failure [
    | some failure ↦ (outcome_of failure, s)
    | none ↦ conclude r asked (collect t.events) s
  ]

  -- The turn in its slot, which is left whatever happens, and then the reply.
  unfoldable pub in_slot :
      Request → Message → RunRequest → Backend W → Outcome TurnResponse × Backend W
  unfolding conclude outcome_of
  in_slot r asked q b =
      let (admitted, taken) = enter b.limiter r.context.tenant_id in
      elim admitted [
        | raise e ↦ (raises e, record b { limiter = taken })
        | ok _ ↦
            let t = run (record q { stream_tokens = false }) b.world in
            let (outcome, s) = settle r asked t b.store in
            (
              outcome,
              record { store = s; limiter = leave taken r.context.tenant_id; world = t.world },
            )
      ]

  -- `send_message`
  unfoldable pub send_message : Request → Backend W → Outcome TurnResponse × Backend W
  unfolding prepare in_slot
  send_message r b =
      let (prepared, s) = prepare r b.store in
      elim prepared [
        | raise e ↦ (raises e, record b { store = s })
        | ok asked ↦ in_slot r asked.0 asked.1 (record b { store = s })
      ]
