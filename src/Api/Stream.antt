-- ===== src/Api/Stream.antt =====
-- bat/api/routers/messages.py: `_sse_stream`. A tick is what `_with_keepalive` yields: silence, or an
-- event, with whether the client is still connected when it comes.
use bat_ai.Prelude.{Bool, List, [], ◌∷◌, ◌++◌, Option, none, some, if◌then◌else◌}
use bat_ai.Prelude.Text.{Text, concat}
use bat_ai.Domain.Errors.{BatError, Result, ok, raise}
use bat_ai.Sessions.Store.{Store}
use bat_ai.Domain.Conversation.{Message}
use bat_ai.Agent.Events.{Event, token, tool_call, tool_result, final, failed, FinalEvent, is_blank}
use bat_ai.RateLimit.Concurrency.{Limiter, enter, leave}
use bat_ai.Api.Turn.{Request, persist_reply}

pub data Tick : Type 0 where
  quiet : Tick
  arrives : Bool → Event → Tick

pub data Frame : Type 0 where
  keepalive : Frame
  event : Event → Frame
  -- the error frame of a stream that failed, with the text of the exception
  stream_failed : Text → Frame
  done : Frame

-- `event.content or "".join(buffered)`
unfoldable pub reply_text : List Text → FinalEvent → Text
reply_text buffer f = if is_blank f.content then concat buffer else f.content

-- The frames of a stream, the exception that stopped it, and the store.
pub record Streamed : Type 0 where
  pub frames : List Frame
  pub failure : Option BatError
  pub store : Store

abbrev pub before : Frame → Streamed → Streamed
before frame rest = record rest { frames = frame ∷ rest.frames }

abbrev pub over : Store → Streamed
over s = record { frames = []; failure = none; store = s }

abbrev failure_of : Result Message → Option BatError
failure_of (ok m) = none
failure_of (raise e) = some e

-- What is kept of a final event.
unfoldable pub keep_reply : Request → Text → Store → Streamed
unfolding persist_reply
keep_reply r content s =
    if is_blank content
    then over s
    else (let (kept, s') = persist_reply r content s in
        record { frames = []; failure = failure_of kept; store = s' })

-- The body of the loop, for an event that the client gets.
unfoldable pub forward : Request → List Text → Event → Store → (List Text → Streamed) → Streamed
unfolding keep_reply reply_text
forward r buffer (token t) s rest = before (event (token t)) (rest (buffer ++ t ∷ []))
forward r buffer (tool_call a b c) s rest = before (event (tool_call a b c)) (rest buffer)
forward r buffer (tool_result a b c d e) s rest =
    before (event (tool_result a b c d e)) (rest buffer)
forward r buffer (final f) s rest = before (event (final f)) (keep_reply r (reply_text buffer f) s)
forward r buffer (failed code message) s rest = before (event (failed code message)) (over s)

-- The loop over the events.
unfoldable pub stream_loop : Request → List Text → List Tick → Store → Streamed
unfolding forward
stream_loop r buffer [] s = over s
stream_loop r buffer (quiet ∷ ticks) s = before keepalive (stream_loop r buffer ticks s)
stream_loop r buffer (arrives connected e ∷ ticks) s =
    let continued = forward r buffer e s (λ buffer'. stream_loop r buffer' ticks s) in
    if connected then continued else over s

-- The `except` clause and the `finally`.
unfoldable pub end_stream : Streamed → Streamed
end_stream x = elim x.failure [
  | none ↦ record x { frames = x.frames ++ done ∷ [] }
  | some e ↦ record {
    frames = x.frames ++ stream_failed e.message ∷ done ∷ [];
    failure = none;
    store = x.store;
  }
]

-- The whole stream, in its slot; a slot that is refused is reported in the stream.
unfoldable pub sse_stream : Request → List Tick → Store → Limiter → Streamed × Limiter
unfolding stream_loop end_stream
sse_stream r ticks s l =
    let (admitted, taken) = enter l r.context.tenant_id in
    elim admitted [
      | raise e ↦ (end_stream (record { frames = []; failure = some e; store = s }), taken)
      | ok _ ↦ (end_stream (stream_loop r [] ticks s), leave taken r.context.tenant_id)
    ]
