-- ===== src/Model/Client.antt =====
-- bat/adapters/llama_cpp_client.py: loading the weights and one call of the model. The file system, the
-- import of llama.cpp and what it does are a parameter on a world of its own. Seconds are microseconds
-- here, and their print is a parameter.
use bat_ai.Prelude.{
  true, ℕ, Bool, false, List, ◌++◌, Option, none, some, String, if◌then◌else◌, string_eq, ◌==◌,
  nat_beq, map,
}
use bat_ai.Prelude.Text.{Text, codes}
use bat_ai.Domain.Errors.{BatError, Result, ok, raise, error, model_unavailable, upstream_timeout}
use bat_ai.Tools.Policy.{ToolSpec}
use bat_ai.Tools.Registry.{Outcome, returns, raises, times_out, crashes, cancelled}
use bat_ai.Rag.Chunking.{is_empty}
use bat_ai.Agent.Events.{ChatMessage, Completion}
use bat_ai.Config.Settings.{ModelSettings}
use bat_ai.Model.Queue.{Gate, enter_queue, leave_queue}
use bat_ai.Model.Wire.{
  Json, WireMessage, WireTool, Response, to_wire, tool_to_wire, parse_completion,
}

-- The `Llama` object, as far as this code looks into it.
pub record Handle : Type 0 where
  pub chat_format : Option String

pub record Client : Type 0 where
  pub settings : ModelSettings
  pub llama : Option Handle
  -- Where a call was given up, the template that the inference thread puts back when it is done.
  pub unfinished : Option (Option String)
  pub load_error : Option Text
  pub gate : Gate

-- `_generation_kwargs`; fractions in thousandths.
pub record Kwargs : Type 0 where
  pub temperature : ℕ
  pub max_tokens : ℕ
  pub top_p : ℕ
  pub repeat_penalty : ℕ

unfoldable pub given_or : Option ℕ → ℕ → ℕ
given_or none default = default
given_or (some n) default = n

unfoldable pub generation_kwargs : ModelSettings → Option ℕ → Option ℕ → Kwargs
unfolding given_or
generation_kwargs cfg temperature max_tokens = record {
  temperature = given_or temperature cfg.temperature;
  max_tokens = given_or max_tokens cfg.max_tokens;
  top_p = cfg.top_p;
  repeat_penalty = cfg.repeat_penalty;
}

-- The constructor of `Llama`: an object, or the message of its exception.
pub data Built : Type 0 where
  built : Handle → Built
  broken : Text → Built

-- What becomes of a call that waits behind one that was given up: the thread gets to it in time, or
-- it is withdrawn before it begins.
pub data Wait : Type 0 where
  begins late withdrawn : Wait

pub record Engine (W : Type 0) : Type 0 where
  pub is_file : Text → W → Bool
  -- The message of the `ModelUnavailableError` of an import that fails.
  pub import_llama : W → Option Text
  pub construct : ModelSettings → W → Built × W
  pub behind : W → Wait
  -- `create_chat_completion`, under the template in force; a call whose wait runs out, or is cancelled,
  -- still runs.
  pub create : Option String → List WireMessage → Kwargs → List WireTool → W → Outcome Response × W

-- The exception that a call leaves, or its result, and what it leaves behind.
pub record Called (A W : Type 0) : Type 0 where
  pub outcome : Outcome A
  pub client : Client
  pub world : W

-- The wait for a call has ended, and the call has not.
unfoldable pub is_given_up : {A : Type 0} → Outcome A → Bool
is_given_up times_out = true
is_given_up cancelled = true
is_given_up o = false

-- The inference thread is done with the call that was given up.
unfoldable pub settle : Client → Client
settle c = elim c.unfinished [
  | none ↦ c
  | some previous ↦ record c {
    llama = elim c.llama [ none ↦ none | some h ↦ some (record h { chat_format = previous }) ];
    unfinished = none;
  }
]

-- `_with_chat_format`: the template is in force for the call, and put back when the call ends; that
-- of a call that was given up is still in force.
unfoldable pub with_chat_format :
    {A W : Type 0}
    → Option String
    → (Option String → W → Outcome A × W)
    → Handle
    → W
    → Outcome A × Handle × W
unfolding is_given_up
with_chat_format none call h w = let (o, w') = call h.chat_format w in (o, h, w')
with_chat_format (some format) call h w =
    let previous = h.chat_format in
    if is_format previous format
    then (let (o, w') = call previous w in (o, h, w'))
    else (let swapped = record h { chat_format = some format } in
        let (o, w') = call swapped.chat_format w in
        (o, (if is_given_up o then swapped else record swapped { chat_format = previous }), w'))
  where
    is_format : Option String → String → Bool
    is_format none format = false
    is_format (some f) format = f == format

unfoldable pub unavailable : Text → BatError
unavailable message = error model_unavailable message

-- `timeout_s or request_timeout_s`
unfoldable pub timeout_or : Option ℕ → ℕ → ℕ
timeout_or none default = default
timeout_or (some t) default = if nat_beq t 0 then default else t

module _ {W : Type 0} (engine : Engine W) where
  -- The construction of the model, once its file and the library are there.
  unfoldable pub construct_model : Client → W → Result (Unit {0}) × Client × W
  unfolding unavailable
  construct_model c w =
      let (outcome, w') = engine.construct c.settings w in
      elim outcome [
        | built h ↦ (ok tt, record c { llama = some h }, w')
        | broken reason ↦ (
          raise (unavailable (codes "failed to load model weights: " ++ reason)),
          record c { load_error = some reason },
          w',
        )
      ]

  -- `_load_blocking`
  unfoldable pub load_blocking : Client → W → Result (Unit {0}) × Client × W
  unfolding construct_model unavailable
  load_blocking c w = elim c.llama [
    | some h ↦ (ok tt, c, w)
    | none ↦ elim c.settings.model_path [
      | none ↦ (
        raise (
            unavailable (
              codes
                "model.model_path is not configured; set BAT_MODEL__MODEL_PATH to a .gguf file")),
        c,
        w,
      )
      | some path ↦
          if engine.is_file path w
          then elim (engine.import_llama w) [
            | some message ↦ (raise (unavailable message), c, w)
            | none ↦ construct_model c w
          ]
          else (raise (unavailable (codes "model weights not found at " ++ path)), c, w)
    ]
  ]

  -- `load`, and `_ensure_loaded`, which calls it.
  unfoldable pub load : Client → W → Result (Unit {0}) × Client × W
  unfolding load_blocking
  load c w = elim c.llama [ some h ↦ (ok tt, c, w) | none ↦ load_blocking c w ]

  -- `close`, once the thread is done: the weights are released, whatever their own `close` does.
  unfoldable pub close : Client → Client
  close c = record c { llama = none; unfinished = none }

  module _ (json : Json) (shown : ℕ → Text) where
    -- What becomes of a call whose wait ran out.
    unfoldable pub in_time : {A : Type 0} → ℕ → Outcome A → Outcome A
    in_time timeout times_out =
        raises
          (error upstream_timeout (codes "generation exceeded " ++ (shown timeout ++ codes "s")))
    in_time timeout o = o

    -- The call on the inference thread, which has nothing else to do.
    unfoldable pub call_on :
        {A : Type 0} → (Handle → W → Outcome A × Handle × W) → ℕ → Client → Handle → W → Called A W
    unfolding in_time is_given_up
    call_on fn timeout c h w =
        let (o, h', w') = fn h w in
        record {
          outcome = in_time timeout o;
          client = record c {
            llama = some h';
            unfinished = if is_given_up o then some h.chat_format else none;
          };
          world = w';
        }

    -- The call with the model that is loaded; it waits for one that was given up and still runs.
    unfoldable pub with_model :
        {A : Type 0} → (Handle → W → Outcome A × Handle × W) → ℕ → Client → W → Called A W
    unfolding in_time call_on
    with_model fn timeout c w = elim c.llama [
      | none ↦ record {
        outcome = raises (unavailable (codes "model failed to load"));
        client = c;
        world = w;
      }
      | some h ↦ elim c.unfinished [
        | none ↦ call_on fn timeout c h w
        | some previous ↦ elim (engine.behind w) [
          | begins ↦ call_on fn timeout c (record h { chat_format = previous }) w
          | late ↦ record { outcome = in_time timeout times_out; client = c; world = w }
          | withdrawn ↦ record { outcome = cancelled; client = c; world = w }
        ]
      ]
    ]

    unfoldable pub after_load :
        {A : Type 0}
        → (Handle → W → Outcome A × Handle × W)
        → ℕ
        → Result (Unit {0}) × Client × W
        → Called A W
    unfolding with_model
    after_load fn timeout (raise e, c, w) = record { outcome = raises e; client = c; world = w }
    after_load fn timeout (ok _, c, w) = with_model fn timeout c w

    -- The body of `_run` in the slot.
    unfoldable pub in_slot :
        {A : Type 0} → (Handle → W → Outcome A × Handle × W) → ℕ → Client → W → Called A W
    unfolding load after_load
    in_slot fn timeout c w = after_load fn timeout (load c w)

    -- `_run`
    unfoldable pub run :
        {A : Type 0} → (Handle → W → Outcome A × Handle × W) → ℕ → Client → W → Called A W
    unfolding in_slot enter_queue leave_queue
    run fn timeout c w =
        let (admitted, gate) = enter_queue c.gate in
        elim admitted [
          | raise e ↦ record { outcome = raises e; client = record c { gate = gate }; world = w }
          | ok _ ↦
              let called = in_slot fn timeout (record c { gate = gate }) w in
              record called {
                client = record called.client { gate = leave_queue called.client.gate };
              }
        ]

    unfoldable pub parsed : Outcome Response → Outcome Completion
    parsed (returns r) = returns (parse_completion json r)
    parsed (raises e) = raises e
    parsed times_out = times_out
    parsed crashes = crashes
    parsed cancelled = cancelled

    -- `complete`
    unfoldable pub complete :
        List ChatMessage
        → List ToolSpec
        → Option ℕ
        → Option ℕ
        → Option ℕ
        → Client
        → W
        → Called Completion W
    unfolding generation_kwargs run with_chat_format parsed timeout_or to_wire tool_to_wire
    complete messages tools temperature max_tokens timeout c w =
        let cfg = c.settings in
        let format = if is_empty tools then cfg.chat_format else cfg.tool_chat_format in
        let kwargs = generation_kwargs cfg temperature max_tokens in
        let ask = λ (f : Option String) (v : W).
          engine.create f (to_wire json messages) kwargs (map tool_to_wire tools) v in
        let called =
          run (with_chat_format format ask) (timeout_or timeout cfg.request_timeout_s) c w in
        record { outcome = parsed called.outcome; client = called.client; world = called.world }
