-- ===== src/Model/Restore.antt =====
-- bat/adapters/llama_cpp_client.py: what a call leaves of the client.
use bat_ai.Prelude.{
  true, false, ◌++◌, Bool-cases, Option-cases, if◌then◌else◌, ◌≡◌, refl, sym, ap, ◌∙◌, ℕ, ◌+◌, ◌-◌,
  ◌⊎◌, inl, inr, List, Option, none, some, String, arith, string_eq,
}
use bat_ai.Prelude.Text.{Text, codes}
use bat_ai.Domain.Errors.{BatError, ok, raise, error, upstream_timeout, Result-cases}
use bat_ai.Tools.Policy.{ToolSpec}
use bat_ai.Tools.Registry.{Outcome, returns, raises, times_out, crashes, cancelled}
use bat_ai.Agent.Events.{ChatMessage}
use bat_ai.Model.Queue.{Gate, enter_queue, leave_queue}
use bat_ai.Model.Wire.{Json, Response}
use bat_ai.Model.Loading.{load-loaded}
use bat_ai.Model.Client.{
  Handle, Client, Engine, with_chat_format, with_model, after_load, in_slot, run, complete,
  timeout_or, is_given_up, settle, Called, call_on, in_time, parsed, Wait, begins, late, withdrawn,
}

-- A call that was not given up has put the template back.
with_chat_format-restores :
    {A W : Type 0} (format : Option String) (call : Option String → W → Outcome A × W) (h : Handle)
    (w : W)
    → is_given_up (with_chat_format format call h w).0 ≡ false
    → (with_chat_format format call h w).1 ≡ h
unfolding with_chat_format
with_chat_format-restores none call h w ended = refl
with_chat_format-restores {A} {W} (some format) call h w ended = ground (arith, ended)

entered_left : (g : Gate) → (enter_queue g).0 ≡ ok tt → leave_queue (enter_queue g).1 ≡ g
unfolding enter_queue leave_queue
entered_left g e =
    let counted : (enter_queue g).1 ≡ record g { waiters = g.waiters + 1 } = ground arith in
    ap leave_queue counted
    ∙ ap (λ n. record g { waiters = n })
        (let one : g.waiters + 1 - 1 ≡ g.waiters = omega arith in one)

refused : (g : Gate) (e : BatError) → (enter_queue g).0 ≡ raise e → (enter_queue g).1 ≡ g
unfolding enter_queue
refused g e h = ground arith

settled_idle :
    (c : Client) (h : Handle)
    → c.llama ≡ some h
    → c.unfinished ≡ none
    → settle c ≡ record c { llama = some h; unfinished = none }
unfolding settle
settled_idle c h there idle =
    ap (λ u. settle (record c { unfinished = u })) idle
    ∙ ap (λ l. record c { llama = l; unfinished = none }) there

settled_busy :
    (c : Client) (h : Handle) (previous : Option String)
    → c.llama ≡ some h
    → c.unfinished ≡ some previous
    → settle c ≡ record c { llama = some (record h { chat_format = previous }); unfinished = none }
unfolding settle
settled_busy c h previous there busy =
    ap (λ u. settle (record c { unfinished = u })) busy
    ∙ ap (λ l. settle (record c { llama = l; unfinished = some previous })) there

abbrev before : Option String → Option (Option String) → Option String
before format none = format
before format (some previous) = previous

-- The client with its weights under the template that was in force before any call that was given up.
abbrev pub restored : Client → Handle → Client
restored c h = record c {
  llama = some (record h { chat_format = before h.chat_format c.unfinished });
  unfinished = none;
}

settle-restored : (c : Client) (h : Handle) → c.llama ≡ some h → settle c ≡ restored c h
settle-restored c h there =
    let under : Option (Option String) → Client = λ u. record c {
      llama = some (record h { chat_format = before h.chat_format u });
      unfinished = none;
    } in
    elim (Option-cases c.unfinished) [
      | inl idle ↦ settled_idle c h there idle ∙ sym (ap under idle)
      | inr (previous, busy) ↦ settled_busy c h previous there busy ∙ sym (ap under busy)
    ]

-- The client after it has left the queue.
abbrev leave : Client → Client
leave c = record c { gate = leave_queue c.gate }

settle-leave : (c : Client) → settle (leave c) ≡ leave (settle c)
unfolding settle
settle-leave c = elim (Option-cases c.unfinished) [
  | inl idle ↦
      ap (λ u. settle (record c { gate = leave_queue c.gate; unfinished = u })) idle
      ∙ sym (ap (λ u. leave (settle (record c { unfinished = u }))) idle)
  | inr (previous, busy) ↦
      ap (λ u. settle (record c { gate = leave_queue c.gate; unfinished = u })) busy
      ∙ sym (ap (λ u. leave (settle (record c { unfinished = u }))) busy)
]

module _ {W : Type 0} (engine : Engine W) where
  module _ (json : Json) (shown : ℕ → Text) where
    -- The wait for the call ran out, or the call was cancelled.
    abbrev pub WasGivenUp : {A : Type 0} → ℕ → Outcome A → Type 0
    WasGivenUp timeout o =
        (o ≡ cancelled)
        ⊎ (o
            ≡ raises (
                error upstream_timeout
                  (codes "generation exceeded " ++ (shown timeout ++ codes "s"))))

    -- The client is as it was, as soon as the thread is done with what was given up; and unless this
    -- call was given up, it is so already, or the thread is done with what was given up before.
    abbrev Settles : {A : Type 0} → ℕ → Client → Called A W → Type 0
    Settles timeout c r =
        (settle r.client ≡ settle c)
        × (WasGivenUp timeout r.outcome ⊎ ((r.client ≡ c) ⊎ (r.client ≡ settle c)))

    module _ {A : Type 0} (fn : Handle → W → Outcome A × Handle × W) (timeout : ℕ)
        (restores : (h : Handle) (w : W) → is_given_up (fn h w).0 ≡ false → (fn h w).1 ≡ h) where
      in_time-WasGivenUp :
          (o : Outcome A)
          → is_given_up o ≡ true
          → WasGivenUp timeout (in_time engine json shown timeout o)
      unfolding is_given_up in_time
      in_time-WasGivenUp (returns a) h = absurd (ground (arith, h))
      in_time-WasGivenUp (raises e) h = absurd (ground (arith, h))
      in_time-WasGivenUp times_out h = inr refl
      in_time-WasGivenUp crashes h = absurd (ground (arith, h))
      in_time-WasGivenUp cancelled h = inl refl

      call_on-Settles :
          (c : Client) (h : Handle) (w : W)
          → settle c ≡ record c { llama = some h; unfinished = none }
          → Settles timeout c (call_on engine json shown fn timeout c h w)
      unfolding call_on
      call_on-Settles c h w settled = elim (Bool-cases (is_given_up (fn h w).0)) [
        | inl given ↦
            let left : (call_on engine json shown fn timeout c h w).client
                ≡ record c { llama = some (fn h w).1; unfinished = some h.chat_format } =
              ap
                (λ b. record c {
                  llama = some (fn h w).1;
                  unfinished = if b then some h.chat_format else none;
                })
                given in
            (
              ap settle left ∙ unfold settle in sym settled,
              inl (in_time-WasGivenUp (fn h w).0 given),
            )
        | inr ended ↦
            let left : (call_on engine json shown fn timeout c h w).client
                ≡ record c { llama = some h; unfinished = none } =
              ap
                (λ b. record c {
                  llama = some (fn h w).1;
                  unfinished = if b then some h.chat_format else none;
                })
                ended
              ∙ ap (λ x. record c { llama = some x; unfinished = none }) (restores h w ended) in
            (ap settle left ∙ unfold settle in sym settled, inr (inr (left ∙ sym settled)))
      ]

      -- A call that is withdrawn, or not begun, leaves the client alone.
      untouched :
          (c : Client) (o : Outcome A) (w : W)
          → WasGivenUp timeout o
          → Settles timeout c (record { outcome = o; client = c; world = w })
      untouched c o w given = (refl, inl given)

      -- A call that waits behind one that was given up.
      waited-Settles :
          (c : Client) (h : Handle) (previous : Option String) (w : W) (x : Wait)
          → settle c
            ≡ record c { llama = some (record h { chat_format = previous }); unfinished = none }
          → Settles timeout c (elim x [
            | begins ↦
                call_on engine json shown fn timeout c (record h { chat_format = previous }) w
            | late ↦ record {
              outcome = in_time engine json shown timeout times_out;
              client = c;
              world = w;
            }
            | withdrawn ↦ record { outcome = cancelled; client = c; world = w }
          ])
      waited-Settles c h previous w begins settled =
          call_on-Settles c (record h { chat_format = previous }) w settled
      waited-Settles c h previous w late settled =
          untouched c _ w (in_time-WasGivenUp times_out (unfold is_given_up in refl))
      waited-Settles c h previous w withdrawn settled = untouched c cancelled w (inl refl)

      with_model-Settles :
          (c : Client) (w : W) (h : Handle)
          → c.llama ≡ some h
          → Settles timeout c (with_model engine json shown fn timeout c w)
      unfolding with_model
      with_model-Settles c w h there = elim (Option-cases c.unfinished) [
        | inl idle ↦
            simp (there, with_model, idle) (call_on-Settles c h w (settled_idle c h there idle))
        | inr (previous, busy) ↦
            simp (there, with_model, busy)
              (waited-Settles c h previous w (engine.behind w)
                (settled_busy c h previous there busy))
      ]

      in_slot-Settles :
          (c : Client) (w : W) (h : Handle)
          → c.llama ≡ some h
          → Settles timeout c (in_slot engine json shown fn timeout c w)
      unfolding in_slot after_load
      in_slot-Settles c w h there =
          rw (load-loaded engine c w h there) (with_model-Settles c w h there)

      -- What holds of the call in its place in the queue holds after it has left the queue.
      leave-Settles :
          (c d : Client) (r : Called A W)
          → leave d ≡ c
          → Settles timeout d r
          → Settles timeout c (record r { client = leave r.client })
      leave-Settles c d r back h =
          let done : leave (settle d) ≡ settle c = sym (settle-leave d) ∙ ap settle back in
          (
            settle-leave r.client ∙ ap leave h.0 ∙ done,
            elim h.1 [
              | inl given ↦ inl given
              | inr (inl same) ↦ inr (inl (ap leave same ∙ back))
              | inr (inr settled) ↦ inr (inr (ap leave settled ∙ done))
            ],
          )

      run-Settles :
          (c : Client) (w : W) (h : Handle)
          → c.llama ≡ some h
          → Settles timeout c (run engine json shown fn timeout c w)
      unfolding run
      run-Settles c w h there = elim (Result-cases (enter_queue c.gate).0) [
        | inr (e, full) ↦
            let same = ap (λ g. record c { gate = g }) (refused c.gate e full) in
            rw (full, run) (ap settle same, inr (inl same))
        | inl (_, admitted) ↦
            let gate = (enter_queue c.gate).1 in
            rw (admitted, run)
              (leave-Settles c (record c { gate = gate })
                (in_slot engine json shown fn timeout (record c { gate = gate }) w)
                (ap (λ g. record c { gate = g }) (entered_left c.gate admitted))
                (in_slot-Settles (record c { gate = gate }) w h there))
      ]

    parsed-WasGivenUp :
        (timeout : ℕ) (o : Outcome Response)
        → WasGivenUp timeout o
        → WasGivenUp timeout (parsed engine json shown o)
    unfolding parsed
    parsed-WasGivenUp timeout o (inl h) = inl (ap (parsed engine json shown) h)
    parsed-WasGivenUp timeout o (inr h) = inr (ap (parsed engine json shown) h)

    -- A call gives the client back as it found it, as soon as the inference thread is done: once
    -- the model is loaded, whatever a completion comes to, an answer, a refusal at the queue, a
    -- timeout or any exception, the client is as it was, its weights loaded and the queue's counter
    -- as before, and the chat template is the one that was in force, or, where an earlier call that
    -- was given up still ran, the one from before that call. Unless the call itself was cancelled
    -- or timed out, so that it may still run, this holds at once, or the client has not been
    -- touched at all.
    pub complete-restores :
        (messages : List ChatMessage) (tools : List ToolSpec)
        (temperature max_tokens timeout : Option ℕ) (c : Client) (w : W) (h : Handle)
        → c.llama ≡ some h
        → let r = complete engine json shown messages tools temperature max_tokens timeout c w in
          (settle r.client ≡ restored c h)
          × (WasGivenUp (timeout_or timeout c.settings.request_timeout_s) r.outcome
              ⊎ ((r.client ≡ c) ⊎ (r.client ≡ restored c h)))
    unfolding complete
    complete-restores messages tools temperature max_tokens timeout c w h there =
        let both =
          run-Settles _ (timeout_or timeout c.settings.request_timeout_s)
            (λ g v. with_chat_format-restores _ _ g v) c w h there in
        let back = settle-restored c h there in
        (
          both.0 ∙ back,
          elim both.1 [
            | inl given ↦ inl (parsed-WasGivenUp _ _ given)
            | inr (inl same) ↦ inr (inl same)
            | inr (inr settled) ↦ inr (inr (settled ∙ back))
          ],
        )
