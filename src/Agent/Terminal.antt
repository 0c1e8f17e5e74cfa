-- ===== src/Agent/Terminal.antt =====
-- How a run of bat/services/agent/loop.py ends, and what `collect` of bat/ports/agent.py makes of it.
use mathlib.Core.List.{append-nil, append_assoc}
use bat_ai.Prelude.{
  Bool-cases, inl, inr, if◌then◌else◌, ◌≡◌, refl, sym, ap, ◌∙◌, List, [], ◌∷◌, ◌++◌, none, some,
  String, All, All-append, arith,
}
use bat_ai.Prelude.Text.{concat, Text}
use bat_ai.Agent.Events.{
  Terminal, is_blank, RunRequest, Event, token, tool_call, tool_result, final, failed, FinalEvent,
  is_terminal, collect, collect_from, complete_final,
}
use bat_ai.Agent.Prompt.{Runner, retrieve}
use bat_ai.Agent.Observe.{Failure, bat, crashed, gone}
use bat_ai.Agent.Loop.{Trace, close, error_event, run}
use bat_ai.Agent.Shape.{IsQuiet, IsSpoken, tokens, Shape, broken, ended, started-Shape}

-- What a client sees of a run: it was cancelled and nothing ended it, or its last event and no other
-- is the final one, or the error.
pub data Ending {W : Type 0} (q : RunRequest) (t : Trace W) : Type 0 where
  hung_up : t.failure ≡ some gone → All IsQuiet t.events → Ending q t
  answered :
      (body : List Event) (f : FinalEvent)
      → t.failure ≡ none
      → t.events ≡ body ++ final f ∷ []
      → All IsQuiet body
      → IsSpoken q body f
      → Ending q t
  erred :
      (body : List Event) (code : String) (message : Text)
      → t.failure ≡ none
      → t.events ≡ body ++ failed code message ∷ []
      → All IsQuiet body
      → Ending q t

module _ {W : Type 0} (q : RunRequest) where
  close_broken :
      (t : Trace W) (f : Failure) → t.failure ≡ some f → All IsQuiet t.events → Ending q (close t)
  unfolding close error_event
  close_broken t (bat e) h quiet = rw h (erred t.events _ _ refl refl quiet)
  close_broken t crashed h quiet = rw h (erred t.events _ _ refl refl quiet)
  close_broken t gone h quiet = rw h (hung_up refl (All-append IsQuiet t.events [] quiet tt))

  close-Ending : (t : Trace W) → Shape q t → Ending q (close t)
  unfolding close
  close-Ending t (broken f fails quiet) = close_broken t f fails quiet
  close-Ending t (ended body f fine events quiet spoken) =
      rw fine (answered body f refl events quiet spoken)

module _ {W : Type 0} (r : Runner W) (q : RunRequest) where
  -- Whatever the model, memory and tools do, a run that is not cancelled emits exactly one terminal
  -- event, after all the others, and a cancelled run emits none. When the request streams tokens, a
  -- completed answer is what the tokens before it spell.
  pub run-Ending : (w : W) → Ending q (run r q w)
  unfolding run
  run-Ending w = close-Ending q _ (started-Shape r q _ (retrieve r q w))

collect_from-body :
    (buffer : List Text) (body rest : List Event)
    → All IsQuiet body
    → collect_from buffer (body ++ rest) ≡ collect_from (buffer ++ tokens body) rest
unfolding collect_from tokens is_terminal
collect_from-body buffer [] rest h = ap (λ b. collect_from b rest) (sym (append-nil buffer))
collect_from-body buffer (token t ∷ es) rest h =
    collect_from-body (buffer ++ t ∷ []) es rest h.1
    ∙ ap (λ b. collect_from b rest) (append_assoc buffer (t ∷ []) (tokens es))
collect_from-body buffer (tool_call a b c ∷ es) rest h = collect_from-body buffer es rest h.1
collect_from-body buffer (tool_result a b c d e ∷ es) rest h = collect_from-body buffer es rest h.1
collect_from-body buffer (final f ∷ es) rest h = absurd (ground (arith, h.0))
collect_from-body buffer (failed a b ∷ es) rest h = absurd (ground (arith, h.0))

-- What `collect` makes of a run that ends: the run's own final event, or its own error.
pub data Collected {W : Type 0} (t : Trace W) : Type 0 where
  answered :
      (body : List Event) (f : FinalEvent)
      → t.events ≡ body ++ final f ∷ []
      → collect t.events
        ≡ final
            (record f { content = if is_blank f.content then concat (tokens body) else f.content })
      → Collected t
  erred :
      (body : List Event) (code : String) (message : Text)
      → t.events ≡ body ++ failed code message ∷ []
      → collect t.events ≡ failed code message
      → Collected t

complete_final-content :
    (buffer : List Text) (f : FinalEvent)
    → complete_final buffer f
      ≡ record f { content = if is_blank f.content then concat buffer else f.content }
unfolding complete_final
complete_final-content buffer f = elim (Bool-cases (is_blank f.content)) [
  | inl blank ↦ simp blank refl
  | inr filled ↦ simp filled refl
]

Ending-Collected :
    {W : Type 0} (q : RunRequest) (t : Trace W) → t.failure ≡ none → Ending q t → Collected t
unfolding collect collect_from
Ending-Collected q t h (hung_up gone_there quiet) = absurd (ground (arith, h, gone_there))
Ending-Collected q t h (answered body f fine events quiet spoken) = answered body f events (
    ap collect events
    ∙ collect_from-body [] body _ quiet
    ∙ ap Terminal.final (complete_final-content (tokens body) f))
Ending-Collected q t h (erred body code message fine events quiet) =
    erred body code message events (ap collect events ∙ collect_from-body [] body _ quiet)

-- `collect` of a run that was not cancelled is the final event that the run itself emitted last,
-- completed by the streamed tokens when it has no content, or the error that it emitted last.
pub run-Collected :
    {W : Type 0} (r : Runner W) (q : RunRequest) (w : W)
    → (run r q w).failure ≡ none
    → Collected (run r q w)
run-Collected r q w h = Ending-Collected q (run r q w) h (run-Ending r q w)
