-- ===== src/Agent/Reference.antt =====
-- bat/adapters/agent_reference.py: the runner that stands in for the agent when no model is
-- configured. It reads a clock before each token; the pause between tokens only passes time.
use mathlib.Core.List.{append-nil, append_assoc}
use bat_ai.Prelude.{
  ◌≡◌, refl, sym, ap, ◌∙◌, ℕ, ◌+◌, ◌/◌, ◌<◌, max, false, List, [], ◌∷◌, ◌++◌, if◌then◌else◌, leb,
  nat_beq, length, map, arith, Bool-cases, inl, inr,
}
use bat_ai.Prelude.Text.{Text, codes, concat, decimal, split_on, prefix_head}
use bat_ai.Domain.Conversation.{Message}
use bat_ai.Agent.Events.{
  RunRequest, Event, token, final, FinalEvent, Terminal, completed, max_steps, StopReason, collect,
  collect_from, complete_final, is_blank,
}
use bat_ai.Agent.Events

-- `_compose`
unfoldable pub compose : Text → RunRequest → Text
compose prefix q =
    prefix
    ++ (codes " reference runner acknowledging: "
        ++ (q.user_input
            ++ (codes "."
                ++ (history_note q.history
                    ++ codes
                        " No tools were invoked; the production agent loop replaces this implementation behind the same interface."))))
  where
    history_note : List Message → Text
    history_note [] = []
    history_note (m ∷ ms) =
        codes " I have "
        ++ (decimal (length (m ∷ ms)) ++ codes " earlier message(s) in this session.")

-- The parts of a split, all but the last with the space that followed.
unfoldable pub spaced_parts : List Text → List Text
spaced_parts [] = []
spaced_parts (p ∷ []) = p ∷ []
spaced_parts (p ∷ q ∷ ps) = (p ++ 32 ∷ []) ∷ spaced_parts (q ∷ ps)

-- `_tokenize`
unfoldable pub tokenize : Text → List Text
unfolding spaced_parts split_on
tokenize s = spaced_parts (split_on 32 s)

-- `_estimate_tokens`
unfoldable pub estimate_tokens : Text → ℕ
estimate_tokens s = max 1 (length s / 4)

-- The loop: the tokens that are emitted before the deadline, and why it stops. The clock's reading
-- is the one of the n-th turn.
unfoldable pub emit : (ℕ → ℕ) → ℕ → ℕ → List Text → List Text × StopReason
emit clock deadline n [] = ([], completed)
emit clock deadline n (t ∷ ts) =
    let (rest, reason) = emit clock deadline (n + 1) ts in
    if leb deadline (clock n) then ([], max_steps) else (t ∷ rest, reason)

-- `run`, from a time of the loop's clock.
unfoldable pub run : Text → RunRequest → ℕ → (ℕ → ℕ) → List Event
unfolding emit tokenize compose estimate_tokens
run prefix q started clock =
    let (emitted, reason) = emit clock (started + q.deadline_s) 0 (tokenize (compose prefix q)) in
    (if q.stream_tokens then map (λ t. token t) emitted else [])
    ++ final (record {
      content = concat emitted;
      stop_reason = reason;
      steps = 1;
      prompt_tokens = estimate_tokens q.user_input;
      completion_tokens = length emitted;
    })
      ∷ []

-- Putting the parts together gives the text back.
spaced_parts-push :
    (c : ℕ) (p : Text) (ps : List Text)
    → concat (spaced_parts ((c ∷ p) ∷ ps)) ≡ c ∷ concat (spaced_parts (p ∷ ps))
unfolding spaced_parts concat
spaced_parts-push c p [] = refl
spaced_parts-push c p (q ∷ ps) = refl

-- A split has a first part; a separator before it gives a part that is empty.
split_on-cons : (s : Text) → (p : Text) × (ps : List Text) × (split_on 32 s ≡ p ∷ ps)
unfolding split_on
split_on-cons [] = ([], [], refl)
split_on-cons (c ∷ s) =
    let (p, ps, is) = split_on-cons s in
    elim (Bool-cases (nat_beq c 32)) [
      | inl space ↦ ([], split_on 32 s, rw space refl)
      | inr other ↦ (c ∷ p, ps, rw other (ap (prefix_head c) is))
    ]

spaced_parts-split_on : (s : Text) → concat (spaced_parts (split_on 32 s)) ≡ s
unfolding split_on spaced_parts concat prefix_head
spaced_parts-split_on [] = refl
spaced_parts-split_on (c ∷ s) =
    let (p, ps, is) = split_on-cons s in
    let whole = spaced_parts-split_on s in
    let again = ap (λ x. concat (spaced_parts x)) (sym is) ∙ whole in
    elim (Bool-cases (nat_beq c 32)) [
      | inl space ↦
          let blank : c ≡ 32 = ground arith in
          rw space (
            ap (λ x. concat (spaced_parts ([] ∷ x))) is
            ∙ ap (λ x. 32 ∷ x) again
            ∙ ap (λ x. x ∷ s) (sym blank))
      | inr other ↦ rw other (
          ap (λ x. concat (spaced_parts (prefix_head c x))) is
          ∙ spaced_parts-push c p ps
          ∙ ap (λ x. c ∷ x) again)
    ]

concat-tokenize : (s : Text) → concat (tokenize s) ≡ s
unfolding tokenize
concat-tokenize s = spaced_parts-split_on s

-- In time, every token is emitted.
emit-whole :
    (clock : ℕ → ℕ) (deadline n : ℕ) (ts : List Text)
    → ((k : ℕ) → clock k < deadline)
    → emit clock deadline n ts ≡ (ts, completed)
unfolding emit
emit-whole clock deadline n [] early = refl
emit-whole clock deadline n (t ∷ ts) early =
    let before : leb deadline (clock n) ≡ false = ground (arith, early n) in
    rw before (
      ap (λ (x : List Text × StopReason). (t ∷ x.0, x.1))
        (emit-whole clock deadline (n + 1) ts early))

collect_from-tokens :
    (buffer ts : List Text) (f : FinalEvent)
    → collect_from buffer (map (λ t. token t) ts ++ final f ∷ [])
      ≡ Events.Terminal.final (complete_final (buffer ++ ts) f)
unfolding collect_from
collect_from-tokens buffer [] f =
    ap (λ b. Events.Terminal.final (complete_final b f)) (sym (append-nil buffer))
collect_from-tokens buffer (t ∷ ts) f =
    collect_from-tokens (buffer ++ t ∷ []) ts f
    ∙ ap (λ b. Events.Terminal.final (complete_final b f)) (append_assoc buffer (t ∷ []) ts)

is_blank-compose : (prefix : Text) (q : RunRequest) → is_blank (compose prefix q) ≡ false
unfolding compose is_blank
is_blank-compose [] q = refl
is_blank-compose (c ∷ prefix) q = refl

complete_final_filled :
    (buffer : List Text) (f : FinalEvent) → is_blank f.content ≡ false → complete_final buffer f ≡ f
unfolding complete_final
complete_final_filled buffer f h = rw h refl

-- The terminal event of a run that is in time.
abbrev pub whole_reply : Text → RunRequest → FinalEvent
whole_reply prefix q = record {
  content = compose prefix q;
  stop_reason = completed;
  steps = 1;
  prompt_tokens = estimate_tokens q.user_input;
  completion_tokens = length (tokenize (compose prefix q));
}

-- The final event of what was emitted.
abbrev reply_of : RunRequest → List Text × StopReason → FinalEvent
reply_of q e = record {
  content = concat e.0;
  stop_reason = e.1;
  steps = 1;
  prompt_tokens = estimate_tokens q.user_input;
  completion_tokens = length e.0;
}

collect-emitted :
    (q : RunRequest) (e : List Text × StopReason)
    → is_blank (concat e.0) ≡ false
    → collect
        ((if q.stream_tokens then map (λ t. token t) e.0 else []) ++ final (reply_of q e) ∷ [])
      ≡ Events.Terminal.final (reply_of q e)
unfolding collect collect_from
collect-emitted q e filled = elim (Bool-cases q.stream_tokens) [
  | inl streamed ↦ rw streamed (
      collect_from-tokens [] e.0 (reply_of q e)
      ∙ ap Events.Terminal.final (complete_final_filled e.0 (reply_of q e) filled))
  | inr silent ↦
      rw silent (ap Events.Terminal.final (complete_final_filled [] (reply_of q e) filled))
]

-- The stand-in keeps the contract of the agent: as long as its deadline has not come, the stream of its
-- events, with tokens or without, collects to one final event that says it completed, whose content
-- is the whole reply, with every space and no other text, and whose count is that of the tokens.
pub run-whole :
    (prefix : Text) (q : RunRequest) (started : ℕ) (clock : ℕ → ℕ)
    → ((n : ℕ) → clock n < started + q.deadline_s)
    → collect (run prefix q started clock) ≡ Events.Terminal.final (whole_reply prefix q)
unfolding run
run-whole prefix q started clock early =
    let ts = tokenize (compose prefix q) in
    let all_of = emit-whole clock (started + q.deadline_s) 0 ts early in
    ap
      (λ (e : List Text × StopReason).
        collect
          ((if q.stream_tokens then map (λ t. token t) e.0 else []) ++ final (reply_of q e) ∷ []))
      all_of
    ∙ collect-emitted q (ts, completed)
        (ap is_blank (concat-tokenize (compose prefix q)) ∙ is_blank-compose prefix q)
    ∙ ap (λ (s : Text). Events.Terminal.final (record (reply_of q (ts, completed)) { content = s }))
        (concat-tokenize (compose prefix q))
