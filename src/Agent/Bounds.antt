-- ===== src/Agent/Bounds.antt =====
-- The bounds of a run of bat/services/agent/loop.py: its tool calls and its steps.
use bat_ai.Prelude.{
  option_cases, ℕ, suc, ◌+◌, ◌≤◌, ◌≡◌, refl, List, [], ◌∷◌, ◌++◌, arith, if_rule, length,
  length-take, map,
}
use bat_ai.Prelude.Text.{Text}
use bat_ai.Domain.Conversation.{ToolCall, ToolResult}
use bat_ai.Tools.Registry.{Outcome, returns, raises, times_out, crashes, cancelled}
use bat_ai.Agent.Events.{
  RunRequest, Event, token, tool_call, tool_result, final, failed, Completion,
}
use bat_ai.Agent.Prompt.{Runner, retrieve}
use bat_ai.Agent.Observe.{
  Failure, bat, crashed, gone, Observed, Calls, after_call, run_calls, invoke_deduplicated,
  result_event,
}
use bat_ai.Agent.Loop.{
  State, Trace, stream_end, stream_events, answer, started, close, error_event, run, next_step,
  initial, count_tokens, within_budget, after_round, withdraw_tools,
}
use bat_ai.Agent.Rule.{IsClosed, loop_rule, counted, called, ran}

-- The number of tool calls that a stream announces.
unfoldable pub count_calls : List Event → ℕ
count_calls [] = 0
count_calls (tool_call a b c ∷ es) = suc (count_calls es)
count_calls (_ ∷ es) = count_calls es

count_calls-append : (xs ys : List Event) → count_calls (xs ++ ys) ≡ count_calls xs + count_calls ys
unfolding count_calls
count_calls-append [] ys = omega arith
count_calls-append (token t ∷ es) ys = count_calls-append es ys
count_calls-append (tool_call a b c ∷ es) ys = omega (arith, count_calls-append es ys)
count_calls-append (tool_result a b c d e ∷ es) ys = count_calls-append es ys
count_calls-append (final f ∷ es) ys = count_calls-append es ys
count_calls-append (failed a b ∷ es) ys = count_calls-append es ys

count_calls-tokens : (ts : List Text) → count_calls (map token ts) ≡ 0
unfolding count_calls
count_calls-tokens [] = refl
count_calls-tokens (t ∷ ts) = count_calls-tokens ts

count_calls-stream : (q : RunRequest) (ts : List Text) → count_calls (stream_events q ts) ≡ 0
unfolding stream_events count_calls
count_calls-stream q ts =
    if_rule (λ (es : List Event). count_calls es ≡ 0) q.stream_tokens _ _ (count_calls-tokens ts)
      refl

count_calls-error : (f : Failure) → count_calls (error_event f) ≡ 0
unfolding error_event count_calls
count_calls-error (bat e) = refl
count_calls-error crashed = refl
count_calls-error gone = refl

module _ {W : Type 0} (q : RunRequest) where
  count_calls-answer :
      (s : State) (content : Text) (w : W) → count_calls (answer q s content w).events ≡ 0
  unfolding answer count_calls
  count_calls-answer s content w = ground arith

  count_calls-stream_end :
      (s : State) (x : List Text × Outcome (Unit {0}) × W)
      → count_calls (stream_end q s x).events ≡ 0
  unfolding stream_end count_calls
  count_calls-stream_end s (ts, returns _, w) =
      omega (arith, count_calls-append (stream_events q ts) _, count_calls-stream q ts)
  count_calls-stream_end s (ts, raises e, w) = count_calls-stream q ts
  count_calls-stream_end s (ts, times_out, w) = count_calls-stream q ts
  count_calls-stream_end s (ts, crashes, w) = count_calls-stream q ts
  count_calls-stream_end s (ts, cancelled, w) = count_calls-stream q ts

module _ {W : Type 0} where
  count_calls-close : (t : Trace W) → count_calls (close t).events ≡ count_calls t.events
  unfolding close
  count_calls-close t =
      option_cases (λ (u : Trace W). count_calls u.events ≡ count_calls t.events) t.failure t
        (λ f. _) (λ h. refl)
        (λ f h. omega (arith, count_calls-append t.events (error_event f), count_calls-error f))

module _ {W : Type 0} (r : Runner W) (q : RunRequest) where
  count_calls-after_call :
      (call : ToolCall) (x : Outcome ToolResult × Observed × W) (rest : Observed → W → Calls W)
      (n : ℕ)
      → ((o : Observed) (w : W) → count_calls (rest o w).events ≤ n)
      → count_calls (after_call r call x rest).events ≤ suc n
  unfolding after_call count_calls result_event
  count_calls-after_call call (returns result, o, w) rest n h = omega (arith, h o w)
  count_calls-after_call call (raises e, o, w) rest n h = omega arith
  count_calls-after_call call (times_out, o, w) rest n h = omega arith
  count_calls-after_call call (crashes, o, w) rest n h = omega arith
  count_calls-after_call call (cancelled, o, w) rest n h = omega arith

  count_calls-run_calls :
      (calls : List ToolCall) (o : Observed) (w : W)
      → count_calls (run_calls r q calls o w).events ≤ length calls
  unfolding run_calls count_calls
  count_calls-run_calls [] o w = omega arith
  count_calls-run_calls (call ∷ calls) o w =
      count_calls-after_call call (invoke_deduplicated r q call o w) _ (length calls)
        (count_calls-run_calls calls)

  called-le : (s : State) (c : Completion) → length (called r q s c) ≤ s.budget
  unfolding within_budget count_tokens next_step
  called-le s c = omega (arith, length-take s.budget c.tool_calls)

  abbrev IsWithinBudget : ℕ → State → Trace W → Type 0
  IsWithinBudget n s t = count_calls t.events ≤ s.budget

  budget_closed : IsClosed r q IsWithinBudget
  unfolding count_calls after_round withdraw_tools count_tokens next_step
  budget_closed = record {
    at_limit = λ n s content w. omega arith;
    at_failure = λ n s f w. omega arith;
    at_stream = λ n s x h. omega (arith, count_calls-stream_end q (next_step s) x);
    at_answer = λ n s c w. omega (arith, count_calls-answer q (counted r q s c) c.content w);
    at_retry = λ n s c t h. h;
    at_break = λ n s c w f h.
        omega (
          arith,
          count_calls-run_calls (called r q s c) (counted r q s c).observed w,
          called-le s c,
        );
    at_round = λ n s c w t h k. omega (
      arith,
      k,
      count_calls-append (ran r q s c w).events t.events,
      count_calls-run_calls (called r q s c) (counted r q s c).observed w,
      called-le s c,
    );
  }

  started-budget :
      (expires : ℕ) (x : Outcome Text × W)
      → count_calls (started r q expires x).events ≤ q.policy.max_calls_per_run
  unfolding started count_calls initial
  started-budget expires (returns context, w) =
      loop_rule r q IsWithinBudget budget_closed q.max_steps expires _ w
  started-budget expires (raises e, w) = omega arith
  started-budget expires (times_out, w) = omega arith
  started-budget expires (crashes, w) = omega arith
  started-budget expires (cancelled, w) = omega arith

  -- However many calls the model asks for and over however many turns, a run announces at most as
  -- many tool calls as its policy allows.
  pub run-budget : (w : W) → count_calls (run r q w).events ≤ q.policy.max_calls_per_run
  unfolding run
  run-budget w = omega (
    arith,
    count_calls-close (started r q (r.clock w + q.deadline_s) (retrieve r q w)),
    started-budget (r.clock w + q.deadline_s) (retrieve r q w),
  )
