-- ===== src/Agent/Shape.antt =====
-- The events of a run of bat/services/agent/loop.py, before its `except` clauses.
use mathlib.Core.List.{append-nil, append_assoc}
use bat_ai.Prelude.{
  if◌then◌else◌, ℕ, ◌≡◌, refl, sym, ap, ◌∙◌, true, false, List, [], ◌∷◌, ◌++◌, none, some, if_rule,
  All, All-append, map, arith, ◌&&◌, not,
}
use bat_ai.Prelude.Text.{Text, concat}
use bat_ai.Agent.Events.{
  max_steps, RunRequest, Event, token, tool_call, tool_result, final, failed, FinalEvent,
  is_terminal, completed,
}
use bat_ai.Domain.Conversation.{ToolCall, ToolResult}
use bat_ai.Tools.Registry.{Outcome, returns, raises, times_out, crashes, cancelled}
use bat_ai.Agent.Prompt.{Runner, is_empty_text}
use bat_ai.Agent.Observe.{
  Failure, failure_of, Observed, Calls, after_call, run_calls, invoke_deduplicated, result_event,
}
use bat_ai.Agent.Loop.{
  State, Trace, final_of, emit, prepend, stream_end, stream_events, answer, started, next_step,
}
use bat_ai.Agent.Rule.{IsClosed, loop_rule, counted}

abbrev pub IsQuiet : Event → Type 0
IsQuiet e = is_terminal e ≡ false

-- The texts of the token events.
unfoldable pub tokens : List Event → List Text
tokens [] = []
tokens (token t ∷ es) = t ∷ tokens es
tokens (_ ∷ es) = tokens es

-- A completed answer that is streamed is what the tokens before it spell.
abbrev pub IsSpoken : RunRequest → List Event → FinalEvent → Type 0
IsSpoken q body f =
    q.stream_tokens ≡ true → f.stop_reason ≡ completed → concat (tokens body) ≡ f.content

-- A trace before the `except` clauses: an exception stopped it and nothing in it ends the turn, or
-- its last event, and no other, is the final one.
pub data Shape {W : Type 0} (q : RunRequest) (t : Trace W) : Type 0 where
  broken : (f : Failure) → t.failure ≡ some f → All IsQuiet t.events → Shape q t
  ended :
      (body : List Event) (f : FinalEvent)
      → t.failure ≡ none
      → t.events ≡ body ++ final f ∷ []
      → All IsQuiet body
      → IsSpoken q body f
      → Shape q t

tokens-IsQuiet : (ts : List Text) → All IsQuiet (map token ts)
unfolding is_terminal
tokens-IsQuiet [] = tt
tokens-IsQuiet (t ∷ ts) = (refl, tokens-IsQuiet ts)

stream-IsQuiet : (q : RunRequest) (ts : List Text) → All IsQuiet (stream_events q ts)
unfolding stream_events
stream-IsQuiet q ts = if_rule (All IsQuiet) q.stream_tokens (map token ts) [] (tokens-IsQuiet ts) tt

tokens-append : (xs ys : List Event) → tokens (xs ++ ys) ≡ tokens xs ++ tokens ys
unfolding tokens
tokens-append [] ys = refl
tokens-append (token t ∷ es) ys = ap (λ rest. t ∷ rest) (tokens-append es ys)
tokens-append (tool_call a b c ∷ es) ys = tokens-append es ys
tokens-append (tool_result a b c d e ∷ es) ys = tokens-append es ys
tokens-append (final f ∷ es) ys = tokens-append es ys
tokens-append (failed a b ∷ es) ys = tokens-append es ys

tokens-map : (ts : List Text) → tokens (map token ts) ≡ ts
unfolding tokens
tokens-map [] = refl
tokens-map (t ∷ ts) = ap (λ rest. t ∷ rest) (tokens-map ts)

answer_tokens : RunRequest → Text → List Event
answer_tokens q content =
    if q.stream_tokens && not (is_empty_text content) then token content ∷ [] else []

answer-spoken :
    (q : RunRequest) (content : Text)
    → q.stream_tokens ≡ true
    → concat (tokens (answer_tokens q content)) ≡ content
unfolding answer_tokens tokens concat is_empty_text
answer-spoken q [] h = ground arith
answer-spoken q (c ∷ s) h = rw h (append-nil (c ∷ s))

stream-spoken :
    (q : RunRequest) (ts : List Text)
    → q.stream_tokens ≡ true
    → concat (tokens (stream_events q ts)) ≡ concat ts
unfolding stream_events
stream-spoken q ts h = rw h (ap concat (tokens-map ts))

module _ {W : Type 0} (q : RunRequest) where
  prepend-Shape :
      (es : List Event) (t : Trace W)
      → All IsQuiet es
      → tokens es ≡ []
      → Shape q t
      → Shape q (prepend es t)
  prepend-Shape es t quiet silent (broken f fails body) =
      broken f fails (All-append IsQuiet es t.events quiet body)
  prepend-Shape es t quiet silent (ended body f fine events all_quiet spoken) =
      ended (es ++ body) f fine
        (ap (λ rest. es ++ rest) events ∙ sym (append_assoc es body (final f ∷ [])))
        (All-append IsQuiet es body quiet all_quiet)
        (λ streamed done.
          ap concat (tokens-append es body ∙ ap (λ ts. ts ++ tokens body) silent)
          ∙ spoken streamed done)

  answer-Shape : (s : State) (content : Text) (w : W) → Shape q (answer q s content w)
  unfolding answer is_terminal final_of answer_tokens
  answer-Shape s content w =
      ended (answer_tokens q content) _ refl refl
        (if_rule (All IsQuiet) (q.stream_tokens && not (is_empty_text content)) (token content ∷ [])
          [] (refl, tt) tt)
        (λ streamed done. answer-spoken q content streamed)

  stream_end-Shape :
      (s : State) (x : List Text × Outcome (Unit {0}) × W) → Shape q (stream_end q s x)
  unfolding stream_end failure_of final_of
  stream_end-Shape s (ts, returns _, w) =
      ended (stream_events q ts) _ refl refl (stream-IsQuiet q ts)
        (λ streamed done. stream-spoken q ts streamed)
  stream_end-Shape s (ts, raises e, w) = broken _ refl (stream-IsQuiet q ts)
  stream_end-Shape s (ts, times_out, w) = broken _ refl (stream-IsQuiet q ts)
  stream_end-Shape s (ts, crashes, w) = broken _ refl (stream-IsQuiet q ts)
  stream_end-Shape s (ts, cancelled, w) = broken _ refl (stream-IsQuiet q ts)

module _ {W : Type 0} (r : Runner W) (q : RunRequest) where
  limit-Shape :
      (s : State) (content : Text) (w : W)
      → Shape q (emit (final (final_of s content max_steps s.completion_tokens) ∷ []) w)
  unfolding final_of
  limit-Shape s content w = ended [] _ refl refl tt (λ streamed done. ground arith)

  after_call-IsQuiet :
      (call : ToolCall) (x : Outcome ToolResult × Observed × W) (rest : Observed → W → Calls W)
      → ((o : Observed) (w : W) → All IsQuiet (rest o w).events)
      → All IsQuiet (after_call r call x rest).events
  unfolding after_call is_terminal result_event
  after_call-IsQuiet call (returns result, o, w) rest h = (refl, (refl, h o w))
  after_call-IsQuiet call (raises e, o, w) rest h = (refl, tt)
  after_call-IsQuiet call (times_out, o, w) rest h = (refl, tt)
  after_call-IsQuiet call (crashes, o, w) rest h = (refl, tt)
  after_call-IsQuiet call (cancelled, o, w) rest h = (refl, tt)

  run_calls-IsQuiet :
      (calls : List ToolCall) (o : Observed) (w : W) → All IsQuiet (run_calls r q calls o w).events
  unfolding run_calls
  run_calls-IsQuiet [] o w = tt
  run_calls-IsQuiet (call ∷ calls) o w =
      after_call-IsQuiet call (invoke_deduplicated r q call o w) _ (run_calls-IsQuiet calls)

  after_call-silent :
      (call : ToolCall) (x : Outcome ToolResult × Observed × W) (rest : Observed → W → Calls W)
      → ((o : Observed) (w : W) → tokens (rest o w).events ≡ [])
      → tokens (after_call r call x rest).events ≡ []
  unfolding after_call tokens result_event
  after_call-silent call (returns result, o, w) rest h = h o w
  after_call-silent call (raises e, o, w) rest h = refl
  after_call-silent call (times_out, o, w) rest h = refl
  after_call-silent call (crashes, o, w) rest h = refl
  after_call-silent call (cancelled, o, w) rest h = refl

  run_calls-silent :
      (calls : List ToolCall) (o : Observed) (w : W) → tokens (run_calls r q calls o w).events ≡ []
  unfolding run_calls tokens
  run_calls-silent [] o w = refl
  run_calls-silent (call ∷ calls) o w =
      after_call-silent call (invoke_deduplicated r q call o w) _ (run_calls-silent calls)

  Shape-IsClosed : IsClosed r q (λ n s t. Shape q t)
  Shape-IsClosed = record {
    at_limit = λ n s content w. limit-Shape s content w;
    at_failure = λ n s f w. broken f refl tt;
    at_stream = λ n s x h. stream_end-Shape q (next_step s) x;
    at_answer = λ n s c w. answer-Shape q (counted r q s c) c.content w;
    at_retry = λ n s c t h. h;
    at_break = λ n s c w f h. broken f refl (run_calls-IsQuiet _ _ w);
    at_round =
        λ n s c w t h k. prepend-Shape q _ t (run_calls-IsQuiet _ _ w) (run_calls-silent _ _ w) k;
  }

  pub started-Shape : (expires : ℕ) (x : Outcome Text × W) → Shape q (started r q expires x)
  unfolding started failure_of
  started-Shape expires (returns context, w) =
      loop_rule r q (λ n s t. Shape q t) Shape-IsClosed q.max_steps expires _ w
  started-Shape expires (raises e, w) = broken _ refl tt
  started-Shape expires (times_out, w) = broken _ refl tt
  started-Shape expires (crashes, w) = broken _ refl tt
  started-Shape expires (cancelled, w) = broken _ refl tt
