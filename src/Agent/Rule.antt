-- ===== src/Agent/Rule.antt =====
-- A rule for the loop of bat/services/agent/loop.py: what holds of every way that a turn can go, and
-- passes from a turn to the one before it, holds of the loop.
use bat_ai.Prelude.{option_cases, ℕ, zero, suc, ◌≡◌, refl, List, [], ◌∷◌, none, some, if_cases, leb}
use bat_ai.Prelude.Text.{Text}
use bat_ai.Domain.Conversation.{ToolCall}
use bat_ai.Tools.Registry.{Outcome, returns, raises, times_out, crashes, cancelled}
use bat_ai.Agent.Events.{RunRequest, final, max_steps, Completion}
use bat_ai.Agent.Prompt.{Runner, is_unusable}
use bat_ai.Agent.Observe.{Failure, Calls, run_calls, failure_of}
use bat_ai.Agent.Loop.{
  State, Trace, final_of, emit, stopped, prepend, stream_end, answer, count_tokens, withdraw_tools,
  within_budget, after_round, continue_round, tool_turn, completed_turn, next_step, turn, loop,
  remaining,
}

elim_cases {ℓ κ μ} :
    {A : Type ℓ} {B : Type κ} (P : B → Type μ) (xs : List A) (b : B) (f : A → List A → B)
    → (xs ≡ [] → P b)
    → ((y : A) (ys : List A) → xs ≡ y ∷ ys → P (f y ys))
    → P (elim xs [ [] ↦ b | y ∷ ys ↦ f y ys ])
elim_cases P [] b f h k = h refl
elim_cases P (y ∷ ys) b f h k = k y ys refl

module _ {W : Type 0} (r : Runner W) (q : RunRequest) where
  -- The state in which a completion is looked at.
  abbrev pub counted : State → Completion → State
  counted s c = count_tokens (next_step s) c

  -- The calls of a completion, as far as the budget lets them through, and what they leave.
  abbrev pub called : State → Completion → List ToolCall
  called s c = within_budget (counted s c) c

  abbrev pub ran : State → Completion → W → Calls W
  ran s c w = run_calls r q (called s c) (counted s c).observed w

  -- What a property `P n s t` of the steps left, the state and the trace has to satisfy.
  pub record IsClosed {κ} (P : ℕ → State → Trace W → Type κ) : Type κ where
    pub at_limit :
        (n : ℕ) (s : State) (content : Text) (w : W)
        → P n s (emit (final (final_of s content max_steps s.completion_tokens) ∷ []) w)
    pub at_failure : (n : ℕ) (s : State) (f : Failure) (w : W) → P n s (stopped (some f) w)
    pub at_stream :
        (n : ℕ) (s : State) (x : List Text × Outcome (Unit {0}) × W)
        → s.specs ≡ []
        → P (suc n) s (stream_end q (next_step s) x)
    pub at_answer :
        (n : ℕ) (s : State) (c : Completion) (w : W)
        → P (suc n) s (answer q (counted s c) c.content w)
    pub at_retry :
        (n : ℕ) (s : State) (c : Completion) (t : Trace W)
        → P n (withdraw_tools (counted s c)) t
        → P (suc n) s t
    pub at_break :
        (n : ℕ) (s : State) (c : Completion) (w : W) (f : Failure)
        → (ran s c w).failure ≡ some f
        → P
            (suc n)
            s
            (record { events = (ran s c w).events; failure = some f; world = (ran s c w).world })
    pub at_round :
        (n : ℕ) (s : State) (c : Completion) (w : W) (t : Trace W)
        → (ran s c w).failure ≡ none
        → P n (after_round (counted s c) c (called s c) (ran s c w)) t
        → P (suc n) s (prepend (ran s c w).events t)

  module _ {κ} (P : ℕ → State → Trace W → Type κ) (closed : IsClosed P) where
    called_rule :
        (n expires : ℕ) (s : State) (c : Completion) (w : W)
        → ((s' : State) (w' : W) → P n s' (loop r q expires n s' w'))
        → P (suc n) s (
            continue_round
              (loop r q expires n)
              (after_round (counted s c) c (called s c) (ran s c w))
              (ran s c w))
    unfolding continue_round
    called_rule n expires s c w next =
        option_cases (λ (t : Trace W). P (suc n) s t) (ran s c w).failure _ (λ f. _)
          (λ fine. closed.at_round n s c w _ fine (next _ (ran s c w).world))
          (λ f broken. closed.at_break n s c w f broken)

    round_rule :
        (n expires : ℕ) (s : State) (c : Completion) (w : W)
        → ((s' : State) (w' : W) → P n s' (loop r q expires n s' w'))
        → P (suc n) s (tool_turn r q (loop r q expires n) (counted s c) c w)
    unfolding tool_turn
    round_rule n expires s c w next =
        elim_cases (λ (t : Trace W). P (suc n) s t) c.tool_calls _ (λ y ys. _)
          (λ no_calls.
            if_cases (λ (t : Trace W). P (suc n) s t) (is_unusable c.content) _ _
              (λ noise. closed.at_retry n s c _ (next _ w)) (λ prose. closed.at_answer n s c w))
          (λ y ys calls. called_rule n expires s c w next)

    completed_rule :
        (n expires : ℕ) (s : State) (x : Outcome Completion × W)
        → ((s' : State) (w' : W) → P n s' (loop r q expires n s' w'))
        → P (suc n) s (completed_turn r q (loop r q expires n) (next_step s) x)
    unfolding completed_turn failure_of
    completed_rule n expires s (returns c, w) next = round_rule n expires s c w next
    completed_rule n expires s (raises e, w) next = closed.at_failure (suc n) s _ w
    completed_rule n expires s (times_out, w) next = closed.at_failure (suc n) s _ w
    completed_rule n expires s (crashes, w) next = closed.at_failure (suc n) s _ w
    completed_rule n expires s (cancelled, w) next = closed.at_failure (suc n) s _ w

    turn_rule :
        (n expires : ℕ) (s : State) (w : W)
        → ((s' : State) (w' : W) → P n s' (loop r q expires n s' w'))
        → P (suc n) s (turn r q expires (loop r q expires n) s w)
    unfolding turn
    turn_rule n expires s w next =
        if_cases (λ (t : Trace W). P (suc n) s t) (leb expires (r.clock w)) _ _
          (λ late. closed.at_limit (suc n) s _ w)
          (λ in_time.
            elim_cases (λ (t : Trace W). P (suc n) s t) s.specs _ (λ y ys. _)
              (λ none_left. closed.at_stream n s _ none_left)
              (λ y ys some_left.
                completed_rule n expires s
                  (r.complete s.messages s.specs (remaining expires (r.clock w)) w) next))

    pub loop_rule : (n expires : ℕ) (s : State) (w : W) → P n s (loop r q expires n s w)
    unfolding loop
    loop_rule zero expires s w = closed.at_limit zero s _ w
    loop_rule (suc n) expires s w = turn_rule n expires s w (loop_rule n expires)
