-- ===== src/Rag/Context.antt =====
-- The results of a search in bat/adapters/vector_memory.py, and the budget of a rendered context in
-- bat/services/rag/pipeline.py.
use bat_ai.Prelude.{
  ℕ, zero, suc, ◌+◌, ◌-◌, ◌≤◌, List, [], ◌∷◌, arith, if_rule, if_cases, leb, ltb, leb→le, length,
  length-take, take, keep, map, All,
}
use bat_ai.Prelude.Text.{Text}
use bat_ai.Rag.Chunking.{estimate_tokens}
use bat_ai.Rag.Vectors.{
  RetrievedChunk, Query, Entry, Embedding, insert_by_score, by_score, scored, ranked,
}
use bat_ai.Rag.Pipeline.{context_preamble, fitting, chosen, format}

-- Each result scores at least as high as all that follow.
abbrev pub IsRanked : List RetrievedChunk → Type 0
IsRanked [] = Unit
IsRanked (x ∷ xs) = All (λ y. y.score ≤ x.score) xs × IsRanked xs

module _ (P : RetrievedChunk → Type 0) where
  All-insert_by_score :
      (x : RetrievedChunk) (ys : List RetrievedChunk)
      → P x
      → All P ys
      → All P (insert_by_score x ys)
  unfolding insert_by_score
  All-insert_by_score x [] h k = (h, tt)
  All-insert_by_score x (y ∷ ys) h k =
      if_rule (All P) (ltb x.score y.score) _ _ (k.0, All-insert_by_score x ys h k.1) (h, k)

  All-by_score : (xs : List RetrievedChunk) → All P xs → All P (by_score xs)
  unfolding by_score
  All-by_score [] h = tt
  All-by_score (x ∷ xs) h = All-insert_by_score x (by_score xs) h.0 (All-by_score xs h.1)

  All-take : (n : ℕ) (xs : List RetrievedChunk) → All P xs → All P (take n xs)
  All-take zero xs h = tt
  All-take (suc n) [] h = tt
  All-take (suc n) (x ∷ xs) h = (h.0, All-take n xs h.1)

lowered :
    (a b : ℕ) (xs : List RetrievedChunk)
    → a ≤ b
    → All (λ y. y.score ≤ a) xs
    → All (λ y. y.score ≤ b) xs
lowered a b [] h k = tt
lowered a b (x ∷ xs) h k = (omega (arith, h, k.0), lowered a b xs h k.1)

insert_by_score-IsRanked :
    (x : RetrievedChunk) (ys : List RetrievedChunk) → IsRanked ys → IsRanked (insert_by_score x ys)
unfolding insert_by_score
insert_by_score-IsRanked x [] h = (tt, tt)
insert_by_score-IsRanked x (y ∷ ys) h =
    if_cases IsRanked (ltb x.score y.score) _ _
      (λ lower. (
        All-insert_by_score (λ z. z.score ≤ y.score) x ys (ground (arith, lower)) h.0,
        insert_by_score-IsRanked x ys h.1,
      ))
      (λ higher.
        let top : y.score ≤ x.score = ground (arith, higher) in
        ((top, lowered y.score x.score ys top h.0), h))

by_score-IsRanked : (xs : List RetrievedChunk) → IsRanked (by_score xs)
unfolding by_score
by_score-IsRanked [] = tt
by_score-IsRanked (x ∷ xs) = insert_by_score-IsRanked x (by_score xs) (by_score-IsRanked xs)

take-IsRanked : (n : ℕ) (xs : List RetrievedChunk) → IsRanked xs → IsRanked (take n xs)
take-IsRanked zero xs h = tt
take-IsRanked (suc n) [] h = tt
take-IsRanked (suc n) (x ∷ xs) h = (All-take _ n xs h.0, take-IsRanked n xs h.1)

kept_above :
    (least : ℕ) (xs : List RetrievedChunk)
    → All (λ s. least ≤ s.score) (keep (λ s. leb least s.score) xs)
kept_above least [] = tt
kept_above least (x ∷ xs) =
    if_cases (All (λ s. least ≤ s.score)) (leb least x.score) _ _
      (λ high. (leb→le _ _ high, kept_above least xs)) (λ low. kept_above least xs)

-- The results of a search are at most as many as were asked for, none is below the least score, and
-- they come with the highest score first.
pub ranked_lem :
    {V : Type 0} (e : Embedding V) (q : Query) (probe : V) (entries : List (Entry V))
    → (length (ranked e q probe entries) ≤ q.top_k)
      × All (λ s. q.min_score ≤ s.score) (ranked e q probe entries)
      × IsRanked (ranked e q probe entries)
unfolding ranked
ranked_lem e q probe entries =
    let kept = keep (λ s. leb q.min_score s.score) (map (scored e probe) entries) in
    (
      omega (arith, length-take q.top_k (by_score kept)),
      All-take _ q.top_k (by_score kept)
          (All-by_score _ kept (kept_above q.min_score (map (scored e probe) entries))),
      take-IsRanked q.top_k (by_score kept) (by_score-IsRanked kept),
    )

-- The estimated cost of some entries.
unfoldable pub total_cost : List Text → ℕ
total_cost [] = 0
total_cost (t ∷ ts) = estimate_tokens t + total_cost ts

fitting-cost :
    (remaining used : ℕ) (ts : List Text)
    → used ≤ remaining
    → used + total_cost (fitting remaining used ts) ≤ remaining
unfolding fitting total_cost
fitting-cost remaining used [] h = omega (arith, h)
fitting-cost remaining used (t ∷ ts) h =
    if_cases (λ (rest : List Text). used + total_cost rest ≤ remaining)
      (ltb remaining (used + estimate_tokens t)) _ _
      (λ over. rw over (fitting-cost remaining used ts h))
      (λ fits. rw fits (
        omega (arith, fitting-cost remaining (used + estimate_tokens t) ts (ground (arith, fits)))))

-- The entries of a context are estimated, together, at no more than what the token budget leaves
-- after the preamble, and at nothing when it does not reach past the preamble.
pub chosen-cost :
    (shown : ℕ → Text) (results : List RetrievedChunk) (token_budget : ℕ)
    → total_cost (chosen shown results token_budget)
      ≤ token_budget - estimate_tokens context_preamble
unfolding chosen total_cost
chosen-cost shown results token_budget =
    if_cases
      (λ (rest : List Text). total_cost rest ≤ token_budget - estimate_tokens context_preamble)
      (leb token_budget (estimate_tokens context_preamble)) _ _ (λ under. omega arith)
      (λ over. omega (
        arith,
        fitting-cost (token_budget - estimate_tokens context_preamble) 0
            (map (format shown) (by_score results)) (omega arith),
      ))
