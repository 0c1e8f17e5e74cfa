-- ===== src/Agent/Replay.antt =====
-- The turn's cache of tool results in bat/services/agent/loop.py: what it holds, and the calls that it
-- answers.
use bat_ai.Prelude.{
  ◌++◌, option_cases, ◌≡◌, refl, ap, ◌∙◌, true, false, ◌&&◌, not, List, [], ◌∷◌, none, some, String,
  string_eq, pair_eq, ==_iff, ==_refl, arith, if_cases,
}
use bat_ai.Prelude.Dict.{get, get-put, Entries, put-Entries}
use bat_ai.Domain.Conversation.{ToolCall, ToolResult}
use bat_ai.Tools.Registry.{Outcome, returns, raises, times_out, crashes, cancelled}
use bat_ai.Agent.Events.{RunRequest}
use bat_ai.Agent.Prompt.{Runner}
use bat_ai.Agent.Observe.{
  repeat_notice, Observed, Calls, replay, call_key, is_cacheable, invoke, remember, recall,
  invoke_deduplicated, after_call, run_calls,
}

module _ {W : Type 0} (r : Runner W) where
  -- Every entry is a result without error, of a tool whose calls may be replayed.
  abbrev pub IsClean : Observed → Type 0
  IsClean =
      Entries (λ (key : String × String) result.
        (is_cacheable r key.0 ≡ true) × (result.is_error ≡ false))

  remember-IsClean :
      (call : ToolCall) (x : Outcome ToolResult) (o : Observed)
      → IsClean o
      → IsClean (remember r call x o)
  unfolding remember
  remember-IsClean call (returns result) o h =
      if_cases IsClean (is_cacheable r call.name && not result.is_error) _ _
        (λ kept. put-Entries _ o (call_key r call) result (ground arith) h) (λ lost. h)
  remember-IsClean call (raises e) o h = h
  remember-IsClean call times_out o h = h
  remember-IsClean call crashes o h = h
  remember-IsClean call cancelled o h = h

  remember-keeps :
      (call : ToolCall) (x : Outcome ToolResult) (o : Observed) (key : String × String)
      (v : ToolResult)
      → recall r call o ≡ none
      → get o key ≡ some v
      → get (remember r call x o) key ≡ some v
  unfolding remember recall
  remember-keeps call (returns result) o key v fresh h =
      ground (arith, get-put o (call_key r call) key result, ==_iff (call_key r call) key)
  remember-keeps call (raises e) o key v fresh h = h
  remember-keeps call times_out o key v fresh h = h
  remember-keeps call crashes o key v fresh h = h
  remember-keeps call cancelled o key v fresh h = h

module _ {W : Type 0} (r : Runner W) (q : RunRequest) where
  invoke-IsClean :
      (call : ToolCall) (o : Observed) (w : W)
      → IsClean r o
      → IsClean r (invoke_deduplicated r q call o w).1
  unfolding invoke_deduplicated
  invoke-IsClean call o w h =
      option_cases (λ (x : Outcome ToolResult × Observed × W). IsClean r x.1) (recall r call o) _
        (λ p. _) (λ fresh. remember-IsClean r call (invoke r q call w).0 o h) (λ p seen. h)

  invoke-keeps :
      (call : ToolCall) (o : Observed) (w : W) (key : String × String) (v : ToolResult)
      → get o key ≡ some v
      → get (invoke_deduplicated r q call o w).1 key ≡ some v
  unfolding invoke_deduplicated
  invoke-keeps call o w key v h =
      option_cases (λ (x : Outcome ToolResult × Observed × W). get x.1 key ≡ some v)
        (recall r call o) _ (λ p. _)
        (λ fresh. remember-keeps r call (invoke r q call w).0 o key v fresh h) (λ p seen. h)

  -- What holds of the cache before a call and passes to the one after it holds after all the calls.
  after_call_rule {κ} :
      (P : Observed → Type κ) (call : ToolCall) (x : Outcome ToolResult × Observed × W)
      (rest : Observed → W → Calls W)
      → P x.1
      → ((o : Observed) (w : W) → P o → P (rest o w).observed)
      → P (after_call r call x rest).observed
  unfolding after_call
  after_call_rule P call (returns result, o, w) rest h k = k o w h
  after_call_rule P call (raises e, o, w) rest h k = h
  after_call_rule P call (times_out, o, w) rest h k = h
  after_call_rule P call (crashes, o, w) rest h k = h
  after_call_rule P call (cancelled, o, w) rest h k = h

  run_calls_rule {κ} :
      (P : Observed → Type κ)
      → ((call : ToolCall) (o : Observed) (w : W) → P o → P (invoke_deduplicated r q call o w).1)
      → (calls : List ToolCall) (o : Observed) (w : W) → P o
      → P (run_calls r q calls o w).observed
  unfolding run_calls
  run_calls_rule P step [] o w h = h
  run_calls_rule P step (call ∷ calls) o w h =
      after_call_rule P call (invoke_deduplicated r q call o w) _ (step call o w h)
        (run_calls_rule P step calls)

  -- Whatever calls a reply makes and however they end, a cache that holds only results without
  -- error, and only of tools that are deterministic and read only, still does after them.
  pub run_calls-IsClean :
      (calls : List ToolCall) (o : Observed) (w : W)
      → IsClean r o
      → IsClean r (run_calls r q calls o w).observed
  run_calls-IsClean = run_calls_rule (IsClean r) invoke-IsClean

  fresh-observed :
      (call : ToolCall) (o : Observed) (w : W) (result : ToolResult)
      → is_cacheable r call.name ≡ true
      → recall r call o ≡ none
      → (invoke_deduplicated r q call o w).0 ≡ returns result
      → result.is_error ≡ false
      → get (invoke_deduplicated r q call o w).1 (call_key r call) ≡ some result
  unfolding invoke_deduplicated remember
  fresh-observed call o w result pure fresh there fine =
      ground
        (arith, get-put o (call_key r call) (call_key r call) result, ==_refl (call_key r call))

  recalled :
      (call : ToolCall) (o : Observed) (previous : ToolResult)
      → is_cacheable r call.name ≡ true
      → get o (call_key r call) ≡ some previous
      → recall r call o ≡ some previous
  unfolding recall
  recalled call o previous pure there = ground (arith, pure, there)

  replayed :
      (call : ToolCall) (o : Observed) (w : W) (previous : ToolResult)
      → is_cacheable r call.name ≡ true
      → get o (call_key r call) ≡ some previous
      → invoke_deduplicated r q call o w ≡ (returns (replay call previous), o, w)
  unfolding invoke_deduplicated
  replayed call o w previous pure there =
      rw (recalled call o previous pure there, invoke_deduplicated) refl

  -- Once a tool that may be replayed has run for a call without error, the same call (of the same
  -- name and arguments) is answered after any further calls by that result's own content, behind a
  -- notice that it is repeated, under the id of the new call and without an error: the tool does not
  -- run again, and the world and the cache stay as they are.
  pub run_calls-replays :
      (call again : ToolCall) (between : List ToolCall) (o : Observed) (w w' w'' : W)
      (result : ToolResult)
      → is_cacheable r call.name ≡ true
      → recall r call o ≡ none
      → (invoke_deduplicated r q call o w).0 ≡ returns result
      → result.is_error ≡ false
      → call_key r again ≡ call_key r call
      → invoke_deduplicated r q again
          (run_calls r q between (invoke_deduplicated r q call o w).1 w').observed
          w''
        ≡ (
          returns (record {
            call_id = again.id;
            name = result.name;
            content = repeat_notice ++ result.content;
            is_error = false;
            duration_ms = 0;
          }),
          (run_calls r q between (invoke_deduplicated r q call o w).1 w').observed,
          w'',
        )
  run_calls-replays call again between o w w' w'' result pure fresh there fine same =
      let there_still =
        run_calls_rule (λ (x : Observed). get x (call_key r call) ≡ some result)
          (λ c x v h. invoke-keeps c x v (call_key r call) result h) between
          (invoke_deduplicated r q call o w).1 w'
          (fresh-observed call o w result pure fresh there fine) in
      replayed again _ w'' result (ap (λ (k : String × String). is_cacheable r k.0) same ∙ pure) (
        ap
          (λ (k : String × String).
            get (run_calls r q between (invoke_deduplicated r q call o w).1 w').observed k)
          same
        ∙ there_still)
      ∙ ap
          (λ b. (
            returns (record {
              call_id = again.id;
              name = result.name;
              content = repeat_notice ++ result.content;
              is_error = b;
              duration_ms = 0;
            }),
            (run_calls r q between (invoke_deduplicated r q call o w).1 w').observed,
            w'',
          ))
          fine
