-- ===== src/Desktop/Turns.antt =====
-- core/brain.py: what a turn answers and keeps, by how the run of the agent ends.
use mathlib.Core.List.{append-nil, append_assoc}
use bat_ai.Prelude.{
  ◌≡◌, refl, sym, ap, ◌∙◌, true, false, List, [], ◌∷◌, ◌++◌, none, some, String, All, arith,
}
use bat_ai.Prelude.Text.{Text, codes, concat}
use bat_ai.Domain.Conversation.{Message, user, assistant, create_message}
use bat_ai.Agent.Events.{
  RunRequest, Event, token, tool_call, tool_result, final, failed, FinalEvent, is_terminal,
  completed,
}
use bat_ai.Agent.Prompt.{Runner}
use bat_ai.Agent.Observe.{gone}
use bat_ai.Agent.Loop.{Trace, run}
use bat_ai.Agent.Shape.{IsQuiet, tokens}
use bat_ai.Agent.Terminal.{Ending, hung_up, answered, erred, run-Ending}
use bat_ai.Desktop.Brain.{
  Brain, Draws, Turn, local_tenant, error_line, answer_of, shown_of, collected_of, request_of,
  record_message, record_turn, finish_ask, finish_stream, ask, stream,
}

-- The two messages of a turn.
abbrev pub pair_of : Draws → Brain → Text → Text → List Message
pair_of d b user_input answer =
    create_message d.user_id d.asked_at b.session.id local_tenant user user_input
    ∷ create_message d.assistant_id d.answered_at b.session.id local_tenant assistant answer
    ∷ []

-- What `ask` makes of a run: nothing when it is cancelled, its final event's content, which it keeps
-- with the question, or its error, of which it keeps nothing.
pub data Asked {W : Type 0} (b : Brain) (d : Draws) (user_input : Text) (t : Trace W)
    (r : Turn W Text) : Type 0 where
  lost : t.failure ≡ some gone → r.reply ≡ none → r.brain ≡ b → Asked b d user_input t r
  replied :
      (body : List Event) (f : FinalEvent)
      → t.events ≡ body ++ final f ∷ []
      → r.reply ≡ some f.content
      → r.brain ≡ record b { history = b.history ++ pair_of d b user_input f.content }
      → Asked b d user_input t r
  complained :
      (body : List Event) (code : String) (message : Text)
      → t.events ≡ body ++ failed code message ∷ []
      → r.reply ≡ some (error_line code message)
      → r.brain ≡ b
      → Asked b d user_input t r

-- What `stream` makes of a run: nothing when it is cancelled; the tokens, which it keeps with the
-- question and which spell the answer if the run completed; or the tokens and the error's line, and
-- the tokens are kept.
pub data Streamed {W : Type 0} (b : Brain) (d : Draws) (user_input : Text) (t : Trace W)
    (r : Turn W (List Text)) : Type 0 where
  lost : t.failure ≡ some gone → r.reply ≡ none → r.brain ≡ b → Streamed b d user_input t r
  replied :
      (body : List Event) (f : FinalEvent)
      → t.events ≡ body ++ final f ∷ []
      → r.reply ≡ some (tokens body)
      → (f.stop_reason ≡ completed → concat (tokens body) ≡ f.content)
      → r.brain ≡ record b { history = b.history ++ pair_of d b user_input (concat (tokens body)) }
      → Streamed b d user_input t r
  complained :
      (body : List Event) (code : String) (message : Text)
      → t.events ≡ body ++ failed code message ∷ []
      → r.reply ≡ some (tokens body ++ (codes "\n" ++ error_line code message) ∷ [])
      → r.brain ≡ record b { history = b.history ++ pair_of d b user_input (concat (tokens body)) }
      → Streamed b d user_input t r

-- The loops pass over what does not end a run.
answer_of-body :
    (answer : Text) (body rest : List Event)
    → All IsQuiet body
    → answer_of answer (body ++ rest) ≡ answer_of answer rest
unfolding answer_of is_terminal
answer_of-body answer [] rest h = refl
answer_of-body answer (token t ∷ es) rest h = answer_of-body answer es rest h.1
answer_of-body answer (tool_call a b c ∷ es) rest h = answer_of-body answer es rest h.1
answer_of-body answer (tool_result a b c d e ∷ es) rest h = answer_of-body answer es rest h.1
answer_of-body answer (final f ∷ es) rest h = absurd (ground (arith, h.0))
answer_of-body answer (failed a b ∷ es) rest h = absurd (ground (arith, h.0))

shown_of-body :
    (body rest : List Event)
    → All IsQuiet body
    → (shown_of (body ++ rest) ≡ tokens body ++ shown_of rest)
      × (collected_of (body ++ rest) ≡ tokens body ++ collected_of rest)
unfolding shown_of collected_of tokens is_terminal
shown_of-body [] rest h = (refl, refl)
shown_of-body (token t ∷ es) rest h =
    let (shown, collected) = shown_of-body es rest h.1 in
    (ap (λ x. t ∷ x) shown, ap (λ x. t ∷ x) collected)
shown_of-body (tool_call a b c ∷ es) rest h = shown_of-body es rest h.1
shown_of-body (tool_result a b c d e ∷ es) rest h = shown_of-body es rest h.1
shown_of-body (final f ∷ es) rest h = absurd (ground (arith, h.0))
shown_of-body (failed a b ∷ es) rest h = absurd (ground (arith, h.0))

record_turn_lem :
    (d : Draws) (user_input answer : Text) (b : Brain)
    → record_turn d user_input answer b
      ≡ record b { history = b.history ++ pair_of d b user_input answer }
unfolding record_turn record_message
record_turn_lem d user_input answer b =
    ap (λ h. record b { history = h })
      (append_assoc b.history
        (create_message d.user_id d.asked_at b.session.id local_tenant user user_input ∷ []) _)

module _ {W : Type 0} (d : Draws) (user_input : Text) (b : Brain) where
  finish_ask-Asked :
      (q : RunRequest) (t : Trace W)
      → Ending q t
      → Asked b d user_input t (finish_ask d user_input b t)
  unfolding finish_ask answer_of
  finish_ask-Asked q t (hung_up fails quiet) =
      let read =
        ap (λ es. answer_of [] es) (sym (append-nil t.events))
        ∙ answer_of-body [] t.events [] quiet in
      lost fails (rw (read, fails, finish_ask) refl) (rw (read, fails, finish_ask) refl)
  finish_ask-Asked q t (answered body f fine events quiet spoken) =
      let read = ap (λ es. answer_of [] es) events ∙ answer_of-body [] body (final f ∷ []) quiet in
      replied body f events (rw (read, fine, finish_ask) refl)
        (rw (read, fine, finish_ask) (record_turn_lem d user_input f.content b))
  finish_ask-Asked q t (erred body code message fine events quiet) =
      let read =
        ap (λ es. answer_of [] es) events
        ∙ answer_of-body [] body (failed code message ∷ []) quiet in
      complained body code message events (rw (read, finish_ask) refl) (rw (read, finish_ask) refl)

  finish_stream-Streamed :
      (q : RunRequest) (t : Trace W)
      → q.stream_tokens ≡ true
      → Ending q t
      → Streamed b d user_input t (finish_stream d user_input b t)
  unfolding finish_stream shown_of collected_of
  finish_stream-Streamed q t on (hung_up fails quiet) = lost fails (rw fails refl) (rw fails refl)
  finish_stream-Streamed q t on (answered body f fine events quiet spoken) =
      let (shown, collected) = shown_of-body body (final f ∷ []) quiet in
      replied body f events
        (rw fine (ap some (ap shown_of events ∙ shown ∙ append-nil (tokens body))))
        (λ done. spoken on done)
        (rw fine (
          ap (λ es. record_turn d user_input (concat (collected_of es)) b) events
          ∙ ap (λ ts. record_turn d user_input (concat ts) b) (collected ∙ append-nil (tokens body))
          ∙ record_turn_lem d user_input (concat (tokens body)) b))
  finish_stream-Streamed q t on (erred body code message fine events quiet) =
      let (shown, collected) = shown_of-body body (failed code message ∷ []) quiet in
      complained body code message events (rw fine (ap some (ap shown_of events ∙ shown))) (
        rw fine (
          ap (λ es. record_turn d user_input (concat (collected_of es)) b) events
          ∙ ap (λ ts. record_turn d user_input (concat ts) b) (collected ∙ append-nil (tokens body))
          ∙ record_turn_lem d user_input (concat (tokens body)) b))

-- On the desktop, whatever the model, memory and tools do, a question that is asked gets the content
-- of the run's last event and both are kept, or the run's error and nothing is kept; a question whose
-- answer is streamed gets the tokens, which spell the answer if the run completed, and they are kept
-- with it, even when an error follows them; and of a run that is cancelled nothing is kept.
pub turn_lem :
    {W : Type 0} (r : Runner W) (d : Draws) (user_input : Text) (b : Brain) (w : W)
    → Asked b d user_input (run r (request_of b user_input false) w) (ask r d user_input b w)
      × Streamed b d user_input (run r (request_of b user_input true) w) (stream r d user_input b w)
unfolding ask stream request_of
turn_lem r d user_input b w = (
  finish_ask-Asked d user_input b _ _ (run-Ending r (request_of b user_input false) w),
  finish_stream-Streamed d user_input b _ _ refl (run-Ending r (request_of b user_input true) w),
)
