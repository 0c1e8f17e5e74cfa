-- ===== src/Model/Stream.antt =====
-- bat/adapters/llama_cpp_client.py: `stream`. The inference thread puts what it generates into a queue,
-- and the event loop takes it out until a deadline. What the clock reads at each turn of the loop, and
-- whether an item arrives within the rest of the time, are an input.
use bat_ai.Prelude.{ℕ, ◌+◌, Bool, List, [], ◌∷◌, ◌++◌, Option, none, some, if◌then◌else◌, leb}
use bat_ai.Prelude.Text.{Text, codes}
use bat_ai.Domain.Errors.{BatError, Result, ok, raise, error, upstream, upstream_timeout}
use bat_ai.Rag.Chunking.{is_empty}
use bat_ai.Model.Queue.{enter_queue, leave_queue}
use bat_ai.Model.Wire.{Chunk, extract_delta}
use bat_ai.Model.Client.{Client, Engine, load, timeout_or}

-- An item of the queue: text, an exception with its print, or the end.
pub data Item : Type 0 where
  delta : Text → Item
  broke : Text → Item
  done : Item

-- A chunk that llama.cpp yields, with the state of the `cancel` event before it is looked at.
pub record Piece : Type 0 where
  pub is_cancelled : Bool
  pub chunk : Chunk

-- `produce`: the chunks, and the exception that ends them if one does.
unfoldable pub produce : List Piece → Option Text → List Item
unfolding extract_delta
produce [] none = done ∷ []
produce [] (some message) = broke message ∷ done ∷ []
produce (p ∷ ps) failure =
    let rest = produce ps failure in
    let text = extract_delta p.chunk in
    if p.is_cancelled then done ∷ [] else if is_empty text then rest else delta text ∷ rest

-- One turn of the loop: the time at its start, and the item, unless the wait for it runs out.
pub record Arrival : Type 0 where
  pub asked_at : ℕ
  pub item : Option Item

-- How the generator ends; it is closed when its client stops to take what it yields.
pub data Ending : Type 0 where
  exhausted : Ending
  raised : BatError → Ending
  closed : Ending

pub record Received : Type 0 where
  pub deltas : List Text
  pub ending : Ending

unfoldable pub with_delta : Text → Received → Received
with_delta text r = record r { deltas = text ∷ r.deltas }

module _ (shown : ℕ → Text) (budget : ℕ) where
  unfoldable pub overrun : Received
  overrun = record {
    deltas = [];
    ending =
        raised
          (error upstream_timeout (codes "generation exceeded " ++ (shown budget ++ codes "s")));
  }

  -- What a turn of the loop makes of its item, before what the others bring.
  unfoldable pub take_item : Option Item → Received → Received
  unfolding overrun with_delta
  take_item none rest = overrun
  take_item (some done) rest = record { deltas = []; ending = exhausted }
  take_item (some (broke message)) rest = record {
    deltas = [];
    ending = raised (error upstream (codes "inference failed: " ++ message));
  }
  take_item (some (delta text)) rest = with_delta text rest

  -- The loop that takes items out of the queue, up to the deadline.
  unfoldable pub consume : ℕ → List Arrival → Received
  unfolding overrun take_item
  consume expires_at [] = record { deltas = []; ending = closed }
  consume expires_at (a ∷ arrivals) =
      let rest = consume expires_at arrivals in
      if leb expires_at a.asked_at then overrun else take_item a.item rest

module _ {W : Type 0} (engine : Engine W) (shown : ℕ → Text) where
  -- The generation in its slot, which starts at a time of the loop's clock.
  unfoldable pub stream_loaded :
      Result (Unit {0}) × Client × W → ℕ → ℕ → List Arrival → Received × Client × W
  unfolding consume
  stream_loaded (raise e, c, w) budget started arrivals =
      (record { deltas = []; ending = raised e }, c, w)
  stream_loaded (ok _, c, w) budget started arrivals =
      (consume shown budget (started + budget) arrivals, c, w)

  -- `stream`; it raises before its first item when the queue is full or no model can be loaded.
  unfoldable pub stream : Option ℕ → ℕ → List Arrival → Client → W → Received × Client × W
  unfolding stream_loaded load enter_queue leave_queue timeout_or
  stream timeout started arrivals c w =
      let budget = timeout_or timeout c.settings.request_timeout_s in
      let (admitted, gate) = enter_queue c.gate in
      elim admitted [
        | raise e ↦ (record { deltas = []; ending = raised e }, record c { gate = gate }, w)
        | ok _ ↦
            let (r, c', w') =
              stream_loaded (load engine (record c { gate = gate }) w) budget started arrivals in
            (r, record c' { gate = leave_queue c'.gate }, w')
      ]
