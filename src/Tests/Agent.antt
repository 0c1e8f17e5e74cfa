-- ===== src/Tests/Agent.antt =====
-- Tests of the agent: a model that asks for the same calculation twice and then answers.
use bat_ai.Prelude.{
  ◌++◌, ℕ, ◌+◌, ◌≤◌, ◌≡◌, arith, refl, true, false, [], ◌∷◌, none, some, string_eq, pair_eq, All,
}
use bat_ai.Prelude.Dict.{get, put}
use bat_ai.Prelude.Text.{codes}
use bat_ai.Domain.Conversation.{Session, ToolCall, ToolResult, text}
use bat_ai.Tools.Policy.{ToolInvocation, effect_eq, permits, to_spec}
use bat_ai.Tools.Registry.{returns, specs_for}
use bat_ai.Domain.Tenancy.{has}
use bat_ai.Tests.Tools.{acme, tools, policy}
use bat_ai.Agent.Events.{RunRequest, Terminal, collect}
use bat_ai.Agent.Prompt.{Runner, advertise, retrieve, prompt_of, may_offer}
use bat_ai.Agent.Observe.{
  repeat_notice, is_cacheable, recall, invoke, remember, invoke_deduplicated, run_calls, after_call,
  failure_of,
}
use bat_ai.Agent.Loop.{
  run, close, started, initial, loop, turn, next_step, remaining, completed_turn, count_tokens,
  tool_turn, within_budget, after_round, continue_round, stream_end,
}
use bat_ai.Agent.Terminal.{Ending, run-Ending, Collected, run-Collected}
use bat_ai.Agent.Bounds.{count_calls, run-budget}
use bat_ai.Agent.Replay.{run_calls-replays}
use bat_ai.Config.Settings.{default_settings}
use bat_ai.Desktop.Brain.{Brain, Draws}
use bat_ai.Desktop.Turns.{Asked, Streamed, turn_lem}
use bat_ai.Agent.Offer.{IsRunnable, advertise-Runnable}
use bat_ai.Desktop.Brain
use bat_ai.Agent.Reference

abbrev chat : Session
chat = record {
  id = 7;
  tenant_id = "acme";
  principal_id = "alice";
  created_at = 0;
  updated_at = 0;
  expires_at = none;
  title = none;
  message_count = 0;
}

abbrev request : RunRequest
request = record {
  context = acme;
  session = chat;
  user_input = codes "what is 2 + 2?";
  history = [];
  policy = policy;
  max_steps = 3;
  tool_rounds_per_turn = 2;
  deadline_s = 60;
  stream_tokens = true;
}

abbrev ask : ToolCall
ask = record {
  id = "c1";
  name = "calculator";
  arguments = ("expression", text (codes "2 + 2")) ∷ [];
}

abbrev ask_again : ToolCall
ask_again = record ask { id = "c2" }

abbrev answer : ToolInvocation → ToolResult
answer i = record {
  call_id = i.call_id;
  name = i.name;
  content = codes "4";
  is_error = false;
  duration_ms = 1;
}

-- A world is the number of actions so far, and the time.
abbrev runner : Runner ℕ
runner = record {
  model_name = codes "BAT";
  clock = λ w. w;
  complete = λ messages specs t w. (
    returns (record {
      content = [];
      tool_calls = ask ∷ ask_again ∷ [];
      finish_reason = codes "tool_calls";
      prompt_tokens = 5;
      completion_tokens = 2;
    }),
    w + 1,
  );
  stream = λ messages t w. (codes "It is " ∷ codes "4." ∷ [], returns tt, w + 1);
  memory = none;
  context_token_budget = 1000;
  registry = some tools;
  execute = λ i p w. (returns (answer i), w + 1);
  canonical = λ arguments. "{expression: 2 + 2}";
}

run-Ending_example : Ending request (run runner request 0)
run-Ending_example = run-Ending runner request 0

run-budget_example : count_calls (run runner request 0).events ≤ 2
run-budget_example = run-budget runner request 0

-- The two calls, the second of them replayed, and then the streamed answer.
not_cancelled : (run runner request 0).failure ≡ none
unfolding run close started retrieve prompt_of advertise may_offer specs_for permits has get initial
    loop turn next_step remaining completed_turn count_tokens tool_turn within_budget run_calls
    after_call invoke_deduplicated recall is_cacheable invoke remember put after_round
    continue_round stream_end failure_of to_spec
not_cancelled = refl

run-Collected_example : Collected (run runner request 0)
run-Collected_example = run-Collected runner request 0 not_cancelled

run_calls-replays_example :
    invoke_deduplicated runner request ask_again
      (run_calls runner request [] (invoke_deduplicated runner request ask [] 0).1 1).observed
      2
    ≡ (
      returns (record {
        call_id = ask_again.id;
        name = "calculator";
        content =
            repeat_notice
            ++ (answer (record {
              call_id = "c1";
              name = "calculator";
              arguments = ask.arguments;
              context = acme;
              session_id = 7;
            })).content;
        is_error = false;
        duration_ms = 0;
      }),
      (run_calls runner request [] (invoke_deduplicated runner request ask [] 0).1 1).observed,
      2,
    )
unfolding is_cacheable recall invoke_deduplicated get invoke
run_calls-replays_example =
    run_calls-replays runner request ask ask_again [] [] 0 1 2 _ refl refl refl refl refl

advertise-Runnable_example :
    All (λ spec. IsRunnable request tools spec.name) (advertise runner request)
unfolding get
advertise-Runnable_example =
    advertise-Runnable runner request tools refl (refl, (refl, tt)) (refl, (refl, tt))

run-whole_example :
    collect (Reference.run (codes "BAT") request 0 (λ n. 0))
    ≡ Terminal.final (Reference.whole_reply (codes "BAT") request)
run-whole_example = Reference.run-whole (codes "BAT") request 0 (λ n. 0) (λ n. omega arith)

abbrev draws : Draws
draws = record { user_id = "m1"; asked_at = 5; assistant_id = "m2"; answered_at = 9 }

abbrev brain : Brain
brain = record {
  settings = default_settings;
  context = acme;
  session = chat;
  history = [];
  policy = policy;
}

turn_lem_example :
    Asked brain draws
      (codes "what is 2 + 2?")
      (run runner (Brain.request_of brain (codes "what is 2 + 2?") false) 0)
      (Brain.ask runner draws (codes "what is 2 + 2?") brain 0)
    × Streamed brain draws
        (codes "what is 2 + 2?")
        (run runner (Brain.request_of brain (codes "what is 2 + 2?") true) 0)
        (Brain.stream runner draws (codes "what is 2 + 2?") brain 0)
turn_lem_example = turn_lem runner draws (codes "what is 2 + 2?") brain 0
