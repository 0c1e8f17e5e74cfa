-- ===== src/Api/Reply.antt =====
-- The two ways to answer a turn in bat/api/routers/messages.py, against each other, and the slot.
use bat_ai.Prelude.{
  ◌+◌, ◌≡◌, refl, ap, sym, ◌∙◌, true, false, List, [], ◌∷◌, ◌++◌, String, arith, if◌then◌else◌,
  if_cases, string_eq, ==_refl, ==_iff,
}
use bat_ai.Prelude.Dict.{get_or, get-put}
use bat_ai.Prelude.Text.{Text, concat}
use bat_ai.Agent.Loop.{Trace}
use bat_ai.Tools.Registry.{Outcome}
use bat_ai.Domain.Errors.{BatError, Result, ok, raise}
use bat_ai.Domain.Conversation.{Message}
use bat_ai.Sessions.Store.{Store}
use bat_ai.RateLimit.Concurrency.{Limiter, enter, leave, in_flight, in_flight-leave}
use bat_ai.Agent.Events.{
  RunRequest, Event, token, tool_call, tool_result, final, failed, FinalEvent, Terminal, collect,
  collect_from, complete_final, is_blank,
}
use bat_ai.Api.Turn.{
  Request, Backend, TurnResponse, prepare, in_slot, send_message, conclude, persist_reply,
}
use bat_ai.Api.Stream.{Tick, quiet, arrives, keep_reply, reply_text, forward, stream_loop}

-- The client stays, and these are the events that it gets.
abbrev pub events_of : List Tick → List Event
events_of [] = []
events_of (quiet ∷ ticks) = events_of ticks
events_of (arrives connected e ∷ ticks) = e ∷ events_of ticks

abbrev pub IsConnected : List Tick → Type 0
IsConnected [] = Unit
IsConnected (quiet ∷ ticks) = IsConnected ticks
IsConnected (arrives connected e ∷ ticks) = (connected ≡ true) × IsConnected ticks

-- The store after a terminal event is answered, if a reply without content is not kept.
unfoldable pub kept_store : Request → Terminal → Store → Store
kept_store r (final f) s = if is_blank f.content then s else (persist_reply r f.content s).1
kept_store r (failed code message) s = s

content-complete_final :
    (buffer : List Text) (f : FinalEvent) → (complete_final buffer f).content ≡ reply_text buffer f
unfolding complete_final reply_text
content-complete_final buffer f =
    if_cases
      (λ (g : FinalEvent). g.content ≡ (if is_blank f.content then concat buffer else f.content))
      (is_blank f.content) _ _ (λ blank. rw blank refl) (λ full. rw full refl)

keep_reply-kept :
    (r : Request) (content : Text) (s : Store)
    → (keep_reply r content s).store
      ≡ (if is_blank content then s else (persist_reply r content s).1)
unfolding keep_reply
keep_reply-kept r content s = ground arith

-- Where the client stays connected, the stream keeps what `collect` makes of its events.
pub stream_loop-kept :
    (r : Request) (buffer : List Text) (ticks : List Tick) (s : Store)
    → IsConnected ticks
    → (stream_loop r buffer ticks s).store ≡ kept_store r (collect_from buffer (events_of ticks)) s
unfolding stream_loop forward kept_store collect_from
stream_loop-kept r buffer [] s h = refl
stream_loop-kept r buffer (quiet ∷ ticks) s h = stream_loop-kept r buffer ticks s h
stream_loop-kept r buffer (arrives c (token t) ∷ ticks) s h =
    rw h.0 (stream_loop-kept r (buffer ++ t ∷ []) ticks s h.1)
stream_loop-kept r buffer (arrives c (tool_call x y z) ∷ ticks) s h =
    rw h.0 (stream_loop-kept r buffer ticks s h.1)
stream_loop-kept r buffer (arrives c (tool_result x y z u v) ∷ ticks) s h =
    rw h.0 (stream_loop-kept r buffer ticks s h.1)
stream_loop-kept r buffer (arrives c (final f) ∷ ticks) s h = rw h.0 (
    keep_reply-kept r (reply_text buffer f) s
    ∙ ap (λ (content : Text). if is_blank content then s else (persist_reply r content s).1)
        (sym (content-complete_final buffer f)))
stream_loop-kept r buffer (arrives c (failed code message) ∷ ticks) s h = rw h.0 refl

-- An error, or an answer that says something.
abbrev pub HasContent : Terminal → Type 0
HasContent (final f) = is_blank f.content ≡ false
HasContent (failed code message) = Unit

conclude-kept :
    (r : Request) (asked : Message) (x : Terminal) (s : Store)
    → HasContent x
    → (conclude r asked x s).1 ≡ kept_store r x s
unfolding conclude kept_store
conclude-kept r asked (final f) s h = rw h refl
conclude-kept r asked (failed code message) s h = refl

-- From the same events, a streamed turn whose client stays leaves the same store as a turn that is
-- answered at once, unless the answer has no content, which only the latter keeps.
pub stream_loop-conclude :
    (r : Request) (asked : Message) (ticks : List Tick) (s : Store)
    → IsConnected ticks
    → HasContent (collect (events_of ticks))
    → (stream_loop r [] ticks s).store ≡ (conclude r asked (collect (events_of ticks)) s).1
unfolding collect
stream_loop-conclude r asked ticks s h content =
    stream_loop-kept r [] ticks s h
    ∙ sym (conclude-kept r asked (collect (events_of ticks)) s content)

result_cases :
    {A B : Type 0} (P : B → Type 0) (x : Result A) (f : BatError → B) (g : A → B)
    → ((e : BatError) → x ≡ raise e → P (f e))
    → ((a : A) → x ≡ ok a → P (g a))
    → P (elim x [ raise e ↦ f e | ok a ↦ g a ])
result_cases P (raise e) f g h k = h e refl
result_cases P (ok a) f g h k = k a refl

entered-left :
    (l : Limiter) (key other : String) {a : Unit {0}}
    → (enter l key).0 ≡ ok a
    → in_flight (leave (enter l key).1 key) other ≡ in_flight l other
unfolding enter in_flight get_or
entered-left l key other h = ground (
  arith,
  in_flight-leave (enter l key).1 key other,
  get-put l.running key other (in_flight l key + 1),
  get-put l.running key key (in_flight l key + 1),
  ==_iff key other,
  ==_refl key,
)

refused-same :
    (l : Limiter) (key other : String) {e : BatError}
    → (enter l key).0 ≡ raise e
    → in_flight (enter l key).1 other ≡ in_flight l other
unfolding enter
refused-same l key other h = ground arith

module _ {W : Type 0} (run : RunRequest → W → Trace W) where
  in_slot-released :
      (r : Request) (asked : Message) (q : RunRequest) (b : Backend W) (key : String)
      → in_flight (in_slot run r asked q b).1.limiter key ≡ in_flight b.limiter key
  unfolding in_slot
  in_slot-released r asked q b key =
      result_cases
        (λ (x : Outcome TurnResponse × Backend W).
          in_flight x.1.limiter key ≡ in_flight b.limiter key)
        (enter b.limiter r.context.tenant_id).0 _ (λ a. _)
        (λ e refused. refused-same b.limiter r.context.tenant_id key refused)
        (λ a admitted. entered-left b.limiter r.context.tenant_id key admitted)

  -- However a turn ends, by an answer, an error, a crash or a cancellation, it leaves every counter
  -- of runs as it found it: no slot is lost and none is given back twice.
  pub send_message-released :
      (r : Request) (b : Backend W) (key : String)
      → in_flight (send_message run r b).1.limiter key ≡ in_flight b.limiter key
  unfolding send_message
  send_message-released r b key =
      result_cases
        (λ (x : Outcome TurnResponse × Backend W).
          in_flight x.1.limiter key ≡ in_flight b.limiter key)
        (prepare r b.store).0 _ (λ a. _) (λ e refused. refl)
        (λ asked loaded.
          in_slot-released r asked.0 asked.1 (record b { store = (prepare r b.store).1 }) key)
