-- ===== src/Model/Delivery.antt =====
-- bat/adapters/llama_cpp_client.py: what a streamed answer delivers.
use bat_ai.Prelude.{
  ◌≡◌, refl, ap, ◌∙◌, sym, ℕ, ◌<◌, true, false, List, [], ◌∷◌, ◌++◌, Option, none, some, arith, All,
  map, leb, Bool-cases, inl, inr,
}
use bat_ai.Prelude.Text.{Text, codes, concat}
use bat_ai.Domain.Errors.{error, upstream}
use bat_ai.Rag.Chunking.{is_empty}
use bat_ai.Model.Wire.{extract_delta}
use bat_ai.Model.Stream.{
  Item, Piece, produce, Arrival, Ending, exhausted, raised, closed, Received, consume, take_item,
}

-- The text of the chunks.
abbrev pub text_of : List Piece → Text
text_of ps = concat (map (λ (p : Piece). extract_delta p.chunk) ps)

-- What an exception of the inference comes to.
abbrev pub ending_of : Option Text → Ending
ending_of none = exhausted
ending_of (some message) = raised (error upstream (codes "inference failed: " ++ message))

-- The item is there before the deadline.
abbrev pub IsPrompt : ℕ → Arrival → Type 0
IsPrompt expires_at a = a.asked_at < expires_at

nil_of : (s : Text) → is_empty s ≡ true → s ≡ []
unfolding is_empty
nil_of [] h = refl
nil_of (c ∷ s) h = absurd (ground arith)

module _ (shown : ℕ → Text) (budget : ℕ) where
  -- The loop without its clock.
  deliver : List (Option Item) → Received
  deliver [] = record { deltas = []; ending = closed }
  deliver (i ∷ items) = let rest = deliver items in take_item shown budget i rest

  consume-deliver :
      (expires_at : ℕ) (arrivals : List Arrival)
      → All (IsPrompt expires_at) arrivals
      → consume shown budget expires_at arrivals ≡ deliver (map (λ (a : Arrival). a.item) arrivals)
  unfolding consume deliver
  consume-deliver expires_at [] h = refl
  consume-deliver expires_at (a ∷ arrivals) h =
      let early : leb expires_at a.asked_at ≡ false = ground (arith, h.0) in
      rw early (ap (take_item shown budget a.item) (consume-deliver expires_at arrivals h.1))

  -- The deliveries of a production that nobody cancels.
  abbrev IsWhole : List Piece → Option Text → Received → Type 0
  IsWhole ps failure r = (concat r.deltas ≡ text_of ps) × (r.ending ≡ ending_of failure)

  deliver-produce :
      (ps : List Piece) (failure : Option Text)
      → All (λ (p : Piece). p.is_cancelled ≡ false) ps
      → IsWhole ps failure (deliver (map (λ (i : Item). some i) (produce ps failure)))
  unfolding deliver produce take_item concat
  deliver-produce [] none h = (refl, refl)
  deliver-produce [] (some message) h = (refl, refl)
  deliver-produce (p ∷ ps) failure h =
      let (whole, ends) = deliver-produce ps failure h.1 in
      elim (Bool-cases (is_empty (extract_delta p.chunk))) [
        | inl nothing ↦
            rw (h.0, nothing, produce)
              (
                whole ∙ ap (λ x. x ++ text_of ps) (sym (nil_of (extract_delta p.chunk) nothing)),
                ends,
              )
        | inr something ↦
            rw (h.0, something, produce) (ap (λ x. extract_delta p.chunk ++ x) whole, ends)
      ]

  -- A streamed answer is delivered whole: when every item that the inference thread puts into the queue
  -- is taken out before the deadline, and nobody cancels, the text that the client gets is the text of
  -- all the chunks, none lost, doubled or out of order, and the stream ends as the inference did, by
  -- itself or with an upstream error.
  pub consume-produce :
      (expires_at : ℕ) (arrivals : List Arrival) (ps : List Piece) (failure : Option Text)
      → All (IsPrompt expires_at) arrivals
      → All (λ (p : Piece). p.is_cancelled ≡ false) ps
      → map (λ (a : Arrival). a.item) arrivals ≡ map (λ (i : Item). some i) (produce ps failure)
      → let r = consume shown budget expires_at arrivals in
        (concat r.deltas ≡ text_of ps) × (r.ending ≡ ending_of failure)
  consume-produce expires_at arrivals ps failure prompt quiet items =
      let same = consume-deliver expires_at arrivals prompt ∙ ap deliver items in
      let (whole, ends) = deliver-produce ps failure quiet in
      (
        ap (λ (r : Received). concat r.deltas) same ∙ whole,
        ap (λ (r : Received). r.ending) same ∙ ends,
      )
