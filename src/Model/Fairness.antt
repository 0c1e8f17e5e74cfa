-- ===== src/Model/Fairness.antt =====
-- bat/adapters/llama_cpp_client.py: a caller that waits for the model gets its turn.
use bat_ai.Prelude.{
  ℕ, ◌+◌, ◌≤◌, ◌≡◌, ◌≢◌, refl, sym, ◌∙◌, ap, List, [], ◌∷◌, ◌++◌, none, some, arith, length, inl,
  inr, Option-cases,
}
use bat_ai.Model.Queue.{
  Gate, Tasks, Step, entered, rejected, finished, gave_up, leave_queue, join_line, release, Reach,
  IsCounted, Reach-IsCounted, Step-IsCounted,
}

-- The task is in line behind so many others.
pub record Waits (t k : ℕ) (r : Tasks) : Type 0 where
  pub ahead : List ℕ
  pub behind : List ℕ
  pub placed : r.line ≡ ahead ++ t ∷ behind
  pub count : length ahead ≡ k

-- The generations that a step ends.
abbrev pub ends : {r s : Tasks} → Step r s → ℕ
ends (entered r t g h) = 0
ends (rejected r e g h) = 0
ends (finished r t h) = 1
ends (gave_up r before after t h) = 0

-- The step is not the one in which the task is cancelled.
abbrev pub Spares : {r s : Tasks} → ℕ → Step r s → Type 0
Spares t (entered r u g h) = Unit
Spares t (rejected r e g h) = Unit
Spares t (finished r u h) = Unit
Spares t (gave_up r before after u h) = u ≢ t

-- Steps that end n generations, in which the task is neither served nor cancelled.
pub data Unserved (t : ℕ) (r : Tasks) : ℕ → Tasks → Type 0 where
  start : Unserved t r 0 r
  then_step :
      {n : ℕ} {s u : Tasks}
      → Unserved t r n s
      → (step : Step s u) → u.holder ≢ some t
      → Spares t step
      → Unserved t r (n + ends step) u

-- The task's place after a step: the generation that ends brings it forward.
abbrev Advances : ℕ → ℕ → ℕ → Tasks → Type 0
Advances t k n s = (j : ℕ) × Waits t j s × (j + n ≤ k)

tail_eq : (x y : ℕ) (xs ys : List ℕ) → x ∷ xs ≡ y ∷ ys → xs ≡ ys
tail_eq x y xs ys h = cc

head_eq : (x y : ℕ) (xs ys : List ℕ) → x ∷ xs ≡ y ∷ ys → x ≡ y
head_eq x y xs ys h = cc

-- Without one of the others, the task has at most as many before it.
remove_other :
    (t u : ℕ) (before after ahead behind : List ℕ)
    → before ++ u ∷ after ≡ ahead ++ t ∷ behind
    → u ≢ t
    → (ahead' behind' : List ℕ) × (before ++ after ≡ ahead' ++ t ∷ behind')
      × (length ahead' ≤ length ahead)
remove_other t u [] after [] behind h other = absurd (other (head_eq u t after behind h))
remove_other t u [] after (a ∷ ahead) behind h other =
    (ahead, behind, tail_eq u a after _ h, omega arith)
remove_other t u (b ∷ before) after [] behind h other =
    ([], before ++ after, ap (λ x. x ∷ (before ++ after)) (head_eq b t _ behind h), omega arith)
remove_other t u (b ∷ before) after (a ∷ ahead) behind h other =
    let (ahead', behind', placed, fewer) =
      remove_other t u before after ahead behind (tail_eq b a _ _ h) other in
    (b ∷ ahead', behind', ap (λ x. b ∷ x) placed, omega (arith, fewer))

append_end :
    (t u : ℕ) (ahead behind : List ℕ)
    → (ahead ++ t ∷ behind) ++ u ∷ [] ≡ ahead ++ t ∷ (behind ++ u ∷ [])
append_end t u [] behind = refl
append_end t u (a ∷ ahead) behind = ap (λ x. a ∷ x) (append_end t u ahead behind)

no_nil : (t : ℕ) (ahead behind : List ℕ) → [] ≢ ahead ++ t ∷ behind
no_nil t [] behind h = cc
no_nil t (a ∷ ahead) behind h = cc

entered-Advances :
    (t k u : ℕ) (r : Tasks) (g : Gate)
    → Waits t k r
    → (r.holder ≡ none → r.line ≡ [])
    → Advances t k 0 (join_line (record r { gate = g }) u)
unfolding join_line
entered-Advances t k u r g w busy = elim (Option-cases r.holder) [
  | inl free ↦ absurd (no_nil t w.ahead w.behind (sym (busy free) ∙ w.placed))
  | inr (h, taken) ↦ (
    k,
    rw taken record {
      ahead = w.ahead;
      behind = w.behind ++ u ∷ [];
      placed = ap (λ x. x ++ u ∷ []) w.placed ∙ append_end t u w.ahead w.behind;
      count = w.count;
    },
    omega arith,
  )
]

release_lem :
    (r : Tasks) (a : ℕ) (rest : List ℕ)
    → r.line ≡ a ∷ rest
    → ((release r).holder ≡ some a) × ((release r).line ≡ rest)
unfolding release
release_lem r a rest h = (ground arith, ground arith)

finished-Advances :
    (t k : ℕ) (r : Tasks) (g : Gate)
    → Waits t k r
    → (release r).holder ≢ some t
    → Advances t k 1 (record (release r) { gate = g })
finished-Advances t k r g w unserved = moved w.ahead w.behind w.placed w.count
  where
    moved :
        (ahead behind : List ℕ)
        → r.line ≡ ahead ++ t ∷ behind
        → length ahead ≡ k
        → Advances t k 1 (record (release r) { gate = g })
    moved [] behind placed count = absurd (unserved (release_lem r t behind placed).0)
    moved (a ∷ ahead) behind placed count = (
      length ahead,
      record {
        ahead = ahead;
        behind = behind;
        placed = (release_lem r a (ahead ++ t ∷ behind) placed).1;
        count = refl;
      },
      omega (arith, count),
    )

Step-Advances :
    {depth : ℕ} (t k : ℕ) {r s : Tasks} (step : Step r s)
    → IsCounted depth r
    → Waits t k r
    → s.holder ≢ some t
    → Spares t step
    → Advances t k (ends step) s
Step-Advances t k (entered r u g h) c w unserved spared = entered-Advances t k u r g w c.busy
Step-Advances t k (rejected r e g h) c w unserved spared = (
  k,
  record { ahead = w.ahead; behind = w.behind; placed = w.placed; count = w.count },
  omega arith,
)
Step-Advances t k (finished r u h) c w unserved spared =
    finished-Advances t k r (leave_queue r.gate) w unserved
Step-Advances t k (gave_up r before after u h) c w unserved spared =
    let (ahead, behind, placed, fewer) =
      remove_other t u before after w.ahead w.behind (sym h ∙ w.placed) spared in
    (
      length ahead,
      record { ahead = ahead; behind = behind; placed = placed; count = refl },
      omega (arith, fewer, w.count),
    )

Unserved-Advances :
    {depth : ℕ} (t k : ℕ) {r : Tasks} {n : ℕ} {s : Tasks}
    → IsCounted depth r
    → Waits t k r
    → Unserved t r n s
    → Advances t k n s × IsCounted depth s
Unserved-Advances t k c w start = ((k, w, omega arith), c)
Unserved-Advances t k c w (then_step run step unserved spared) =
    let (before, c') = Unserved-Advances t k c w run in
    let (j, w', forward) = before in
    let (i, w'', further) = Step-Advances t j step c' w' unserved spared in
    ((i, w'', omega (arith, forward, further)), Step-IsCounted step c')

-- Nobody waits for ever: a caller that stands behind k others in line is served before k + 1
-- generations have ended, whoever comes, is turned away or gives up in the meantime, unless it is
-- itself cancelled; and as long as it waits, a generation is under way whose end is a step that is
-- possible.
pub Waits-served :
    {depth : ℕ} (t k n : ℕ) {r s : Tasks}
    → Reach depth r
    → Waits t k r
    → Unserved t r n s
    → (n ≤ k)
      × ((h : ℕ) × (s.holder ≡ some h) × Step s (record (release s) { gate = leave_queue s.gate }))
Waits-served t k n {s = s} reach w run =
    let (before, c) = Unserved-Advances t k (Reach-IsCounted reach) w run in
    let (j, w', forward) = before in
    (
      omega (arith, forward),
      elim (Option-cases s.holder) [
        | inl free ↦ absurd (no_nil t w'.ahead w'.behind (sym (c.busy free) ∙ w'.placed))
        | inr (h, taken) ↦ (h, taken, finished s h taken)
      ],
    )
