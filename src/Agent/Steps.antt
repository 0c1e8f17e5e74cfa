-- ===== src/Agent/Steps.antt =====
-- The steps that a run of bat/services/agent/loop.py reports.
use bat_ai.Prelude.{
  option_cases, ℕ, ◌+◌, ◌≤◌, max, ◌≡◌, refl, List, [], ◌∷◌, ◌++◌, arith, if_rule, map,
}
use bat_ai.Prelude.Text.{Text}
use bat_ai.Domain.Conversation.{ToolCall, ToolResult}
use bat_ai.Tools.Registry.{Outcome, returns, raises, times_out, crashes, cancelled}
use bat_ai.Agent.Events.{RunRequest, Event, token, tool_call, tool_result, final, failed}
use bat_ai.Agent.Prompt.{Runner, retrieve}
use bat_ai.Agent.Observe.{
  Failure, bat, crashed, gone, Observed, Calls, after_call, run_calls, invoke_deduplicated,
  result_event,
}
use bat_ai.Agent.Loop.{
  State, Trace, final_of, stream_end, stream_events, answer, started, close, error_event, run,
  next_step, initial, count_tokens, after_round, withdraw_tools,
}
use bat_ai.Agent.Rule.{IsClosed, loop_rule, counted, called, ran}

-- The most steps that a final event of a stream reports.
unfoldable pub most_steps : List Event → ℕ
most_steps [] = 0
most_steps (final f ∷ es) = max f.steps (most_steps es)
most_steps (_ ∷ es) = most_steps es

most_steps-append :
    (xs ys : List Event) → most_steps (xs ++ ys) ≡ max (most_steps xs) (most_steps ys)
unfolding most_steps
most_steps-append [] ys = omega arith
most_steps-append (token t ∷ es) ys = most_steps-append es ys
most_steps-append (tool_call a b c ∷ es) ys = most_steps-append es ys
most_steps-append (tool_result a b c d e ∷ es) ys = most_steps-append es ys
most_steps-append (final f ∷ es) ys = omega (arith, most_steps-append es ys)
most_steps-append (failed a b ∷ es) ys = most_steps-append es ys

most_steps-tokens : (ts : List Text) → most_steps (map token ts) ≡ 0
unfolding most_steps
most_steps-tokens [] = refl
most_steps-tokens (t ∷ ts) = most_steps-tokens ts

most_steps-stream : (q : RunRequest) (ts : List Text) → most_steps (stream_events q ts) ≡ 0
unfolding stream_events most_steps
most_steps-stream q ts =
    if_rule (λ (es : List Event). most_steps es ≡ 0) q.stream_tokens _ _ (most_steps-tokens ts) refl

most_steps-error : (f : Failure) → most_steps (error_event f) ≡ 0
unfolding error_event most_steps
most_steps-error (bat e) = refl
most_steps-error crashed = refl
most_steps-error gone = refl

module _ {W : Type 0} (q : RunRequest) where
  most_steps-answer :
      (s : State) (content : Text) (w : W) → most_steps (answer q s content w).events ≡ s.steps
  unfolding answer most_steps final_of
  most_steps-answer s content w = ground arith

  most_steps-stream_end :
      (s : State) (x : List Text × Outcome (Unit {0}) × W)
      → most_steps (stream_end q s x).events ≤ s.steps
  unfolding stream_end most_steps final_of
  most_steps-stream_end s (ts, returns _, w) =
      omega (arith, most_steps-append (stream_events q ts) _, most_steps-stream q ts)
  most_steps-stream_end s (ts, raises e, w) = omega (arith, most_steps-stream q ts)
  most_steps-stream_end s (ts, times_out, w) = omega (arith, most_steps-stream q ts)
  most_steps-stream_end s (ts, crashes, w) = omega (arith, most_steps-stream q ts)
  most_steps-stream_end s (ts, cancelled, w) = omega (arith, most_steps-stream q ts)

module _ {W : Type 0} where
  most_steps-close : (t : Trace W) → most_steps (close t).events ≡ most_steps t.events
  unfolding close
  most_steps-close t =
      option_cases (λ (u : Trace W). most_steps u.events ≡ most_steps t.events) t.failure t (λ f. _)
        (λ h. refl)
        (λ f h. omega (arith, most_steps-append t.events (error_event f), most_steps-error f))

module _ {W : Type 0} (r : Runner W) (q : RunRequest) where
  most_steps-after_call :
      (call : ToolCall) (x : Outcome ToolResult × Observed × W) (rest : Observed → W → Calls W)
      → ((o : Observed) (w : W) → most_steps (rest o w).events ≡ 0)
      → most_steps (after_call r call x rest).events ≡ 0
  unfolding after_call most_steps result_event
  most_steps-after_call call (returns result, o, w) rest h = h o w
  most_steps-after_call call (raises e, o, w) rest h = refl
  most_steps-after_call call (times_out, o, w) rest h = refl
  most_steps-after_call call (crashes, o, w) rest h = refl
  most_steps-after_call call (cancelled, o, w) rest h = refl

  most_steps-run_calls :
      (calls : List ToolCall) (o : Observed) (w : W)
      → most_steps (run_calls r q calls o w).events ≡ 0
  unfolding run_calls most_steps
  most_steps-run_calls [] o w = refl
  most_steps-run_calls (call ∷ calls) o w =
      most_steps-after_call call (invoke_deduplicated r q call o w) _ (most_steps-run_calls calls)

  abbrev IsWithinSteps : ℕ → State → Trace W → Type 0
  IsWithinSteps n s t = most_steps t.events ≤ s.steps + n

  steps_closed : IsClosed r q IsWithinSteps
  unfolding most_steps after_round withdraw_tools count_tokens next_step final_of
  steps_closed = record {
    at_limit = λ n s content w. omega arith;
    at_failure = λ n s f w. omega arith;
    at_stream = λ n s x h. omega (arith, most_steps-stream_end q (next_step s) x);
    at_answer = λ n s c w. omega (arith, most_steps-answer q (counted r q s c) c.content w);
    at_retry = λ n s c t h. omega (arith, h);
    at_break = λ n s c w f h.
        omega (arith, most_steps-run_calls (called r q s c) (counted r q s c).observed w);
    at_round = λ n s c w t h k. omega (
      arith,
      k,
      most_steps-append (ran r q s c w).events t.events,
      most_steps-run_calls (called r q s c) (counted r q s c).observed w,
    );
  }

  started-steps :
      (expires : ℕ) (x : Outcome Text × W) → most_steps (started r q expires x).events ≤ q.max_steps
  unfolding started most_steps initial
  started-steps expires (returns context, w) =
      omega (arith, loop_rule r q IsWithinSteps steps_closed q.max_steps expires _ w)
  started-steps expires (raises e, w) = omega arith
  started-steps expires (times_out, w) = omega arith
  started-steps expires (crashes, w) = omega arith
  started-steps expires (cancelled, w) = omega arith

  -- Every final event of a run reports at most as many steps as the request allows.
  pub run-steps : (w : W) → most_steps (run r q w).events ≤ q.max_steps
  unfolding run
  run-steps w = omega (
    arith,
    most_steps-close (started r q (r.clock w + q.deadline_s) (retrieve r q w)),
    started-steps (r.clock w + q.deadline_s) (retrieve r q w),
  )
