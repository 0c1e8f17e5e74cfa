-- ===== src/Tests/Api.antt =====
-- Tests of a turn: a streamed answer, and a run that is answered at once.
use bat_ai.Prelude.Dict.{put, get}
use bat_ai.Prelude.{◌⊎◌, string_eq, none, some, ℕ, ◌≡◌, refl, true, false, Option, List, [], ◌∷◌}
use bat_ai.Prelude.Text.{lstrip, strip, codes}
use bat_ai.Api.Access.{
  by_digest, is_asserted, context_of, scan, extract_credential, authenticate-IsOf, authenticate,
  IsOf, Headers, KeyRecord,
}
use bat_ai.Agent.Prompt.{is_empty_text, lower, after}
use bat_ai.Domain.Tenancy.{make_context, agent_invoke, TenantContext, has}
use bat_ai.Domain.Conversation.{Message, user}
use bat_ai.Tools.Policy.{tenant, subprocess}
use bat_ai.Sessions.Store.{Store}
use bat_ai.RateLimit.Concurrency.{in_flight}
use bat_ai.Agent.Events.{
  Event, token, final, completed, collect, collect_from, complete_final, is_blank,
}
use bat_ai.Domain.Errors.{upstream, bat_error, error}
use bat_ai.Api.Problems.{bat_error_handler, unhandled_exception_handler, withheld}
use bat_ai.Api.Disclosure.{is_internal, bat_error_handler-withholds}
use bat_ai.Api.Sessions.{scope_of, endpoint}
use bat_ai.Api.Boundary.{endpoint-isolated}
use bat_ai.Sessions.Calls.{Call, perform}
use bat_ai.Tests.Tools.{acme}
use bat_ai.Api.Turn.{Settings, Request, Backend, conclude, send_message}
use bat_ai.Api.Stream.{Tick, quiet, arrives, stream_loop}
use bat_ai.Api.Reply.{events_of, stream_loop-conclude, send_message-released}
use bat_ai.Api.Sessions

abbrev settings : Settings
settings = record {
  history_window = 20;
  enabled_tools = [];
  max_tool_authority = tenant;
  min_code_isolation = subprocess;
  max_tool_calls_per_run = 4;
  max_steps = 4;
  tool_rounds_per_turn = 1;
  deadline_s = 1000;
}

abbrev request : Request
request = record {
  context = acme;
  session_id = 7;
  content = codes "hello";
  settings = settings;
  draws = record {
    loaded_at = 110;
    read_at = 111;
    asked_at = 112;
    answered_at = 113;
    user_id = "m1";
    assistant_id = "m2";
  };
}

abbrev asked : Message
asked = record {
  id = "m1";
  session_id = 7;
  tenant_id = "acme";
  role = user;
  content = codes "hello";
  created_at = 112;
  tool_calls = [];
  tool_result = none;
}

abbrev store : Store
store = record { ttl = none; max_per_principal = 2; history_cap = 9; sessions = []; messages = [] }

abbrev ending : Event
ending = final (record {
  content = codes "hi there";
  stop_reason = completed;
  steps = 1;
  prompt_tokens = 3;
  completion_tokens = 2;
})

abbrev ticks : List Tick
ticks =
    arrives true (token (codes "hi "))
    ∷ quiet
    ∷ arrives true (token (codes "there"))
    ∷ arrives true ending
    ∷ []

stream_loop-conclude_example :
    (stream_loop request [] ticks store).store
    ≡ (conclude request asked (collect (events_of ticks)) store).1
unfolding collect collect_from complete_final is_blank
stream_loop-conclude_example =
    stream_loop-conclude request asked ticks store (refl, (refl, (refl, tt))) refl

abbrev backend : Backend ℕ
backend = record {
  store = store;
  limiter = record { limit = 2; running = ("acme", 1) ∷ [] };
  world = 0;
}

send_message-released_example :
    in_flight
      (send_message
        (λ q w. record { events = ending ∷ []; failure = none; world = w })
        request
        backend).1.limiter
      "acme"
    ≡ in_flight backend.limiter "acme"
send_message-released_example =
    send_message-released (λ q w. record { events = ending ∷ []; failure = none; world = w })
      request backend "acme"

abbrev entry : KeyRecord
entry = record {
  key_sha256 = "d1";
  tenant_id = "acme";
  principal_id = "alice";
  scopes = agent_invoke ∷ [];
  label = none;
}

abbrev headers : Headers
headers = record { authorization = some (codes "Bearer k"); api_key = none; tenant = some "acme" }

abbrev context : TenantContext
context = record {
  tenant_id = "acme";
  principal = record {
    id = "alice";
    tenant_id = "acme";
    scopes = agent_invoke ∷ [];
    display_name = none;
  };
  request_id = "r1";
  started_at = 5;
}

authenticate-IsOf_example : IsOf (by_digest [] (entry ∷ [])) (λ t. "d1") headers context
unfolding authenticate extract_credential after lower strip lstrip is_empty_text scan context_of
    is_asserted make_context get put by_digest
authenticate-IsOf_example = authenticate-IsOf (λ t. "d1") (entry ∷ []) headers "r1" 5 context refl

abbrev details : Option ℕ
details = some 5

bat_error_handler-withholds_example :
    ((is_internal upstream ≡ false)
      ⊎ (bat_error_handler
            (some (codes "r1"))
            (error upstream (codes "postgres://u:secret@db"))
            details
          ≡ bat_error_handler (some (codes "r1")) (error upstream []) none))
    × ((bat_error_handler
          (some (codes "r1"))
          (error upstream (codes "postgres://u:secret@db"))
          details).detail
        ≡ withheld)
    × ((bat_error_handler
          (some (codes "r1"))
          (error upstream (codes "postgres://u:secret@db"))
          details).errors
        ≡ none)
    × (bat_error_handler
          (some (codes "r1"))
          (error bat_error (codes "postgres://u:secret@db"))
          details
        ≡ unhandled_exception_handler (some (codes "r1")))
bat_error_handler-withholds_example =
    bat_error_handler-withholds (some (codes "r1")) upstream (codes "postgres://u:secret@db") []
      details none

endpoint-isolated_example :
    (has context.principal (scope_of (Sessions.delete 7)) ≡ false
      → (endpoint 60 (Sessions.delete 7) context 100 8 store).1 ≡ store)
    × ((perform
          (endpoint 60 (Sessions.delete 7) context 100 8 store).1
          110
          "other"
          (Call.fetch 7)).0
        ≡ (perform store 110 "other" (Call.fetch 7)).0)
endpoint-isolated_example =
    endpoint-isolated 60 (Sessions.delete 7) context 100 8 store "other" 110 (Call.fetch 7) refl
