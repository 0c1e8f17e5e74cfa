-- ===== src/Model/Queue.antt =====
-- bat/adapters/llama_cpp_client.py: the admission of `LlamaCppClient`, a bounded counter of callers in
-- front of a slot for one of them. The slot is an `asyncio.Semaphore`, which serves its waiters in the
-- order of their arrival.
use bat_ai.Prelude.{
  ℕ, ◌+◌, ◌-◌, ◌≤◌, ◌≡◌, refl, List, [], ◌∷◌, ◌++◌, Option, none, some, arith, if◌then◌else◌, leb,
  length, length-append, ap, ◌∙◌,
}
use bat_ai.Prelude.Text.{codes}
use bat_ai.Domain.Errors.{BatError, Result, ok, raise, error, rate_limit}

pub record Gate : Type 0 where
  pub max_queue_depth : ℕ
  pub waiters : ℕ

-- `_enter_queue`
unfoldable pub enter_queue : Gate → Result (Unit {0}) × Gate
enter_queue g =
    if leb g.max_queue_depth g.waiters
    then (
      raise (
          error (rate_limit 2000)
            (codes "inference queue is full; the model serves one generation at a time")),
      g,
    )
    else (ok tt, record g { waiters = g.waiters + 1 })

-- `_leave_queue`
unfoldable pub leave_queue : Gate → Gate
leave_queue g = record g { waiters = g.waiters - 1 }

-- A task is a number. The gate beside the task that holds the slot and those that wait for it.
pub record Tasks : Type 0 where
  pub gate : Gate
  pub holder : Option ℕ
  pub line : List ℕ

-- The task takes the slot if it is free, and otherwise the end of the line.
unfoldable pub join_line : Tasks → ℕ → Tasks
join_line r t = elim r.holder [
  | none ↦ record r { holder = some t }
  | some h ↦ record r { line = r.line ++ t ∷ [] }
]

-- The slot is released, to the first of the line.
unfoldable pub release : Tasks → Tasks
release r = elim r.line [
  | [] ↦ record r { holder = none }
  | t ∷ ts ↦ record r { holder = some t; line = ts }
]

pub data Step : Tasks → Tasks → Type 0 where
  entered :
      (r : Tasks) (t : ℕ) (g : Gate)
      → enter_queue r.gate ≡ (ok tt, g)
      → Step r (join_line (record r { gate = g }) t)
  rejected :
      (r : Tasks) (e : BatError) (g : Gate)
      → enter_queue r.gate ≡ (raise e, g)
      → Step r (record r { gate = g })
  -- The holder is through, by return, error, timeout or cancellation.
  finished :
      (r : Tasks) (t : ℕ)
      → r.holder ≡ some t
      → Step r (record (release r) { gate = leave_queue r.gate })
  -- One that waits is cancelled.
  gave_up :
      (r : Tasks) (before after : List ℕ) (t : ℕ)
      → r.line ≡ before ++ t ∷ after
      → Step r (record r { gate = leave_queue r.gate; line = before ++ after })

pub data Reach (depth : ℕ) : Tasks → Type 0 where
  here :
      Reach depth (record {
        gate = record { max_queue_depth = depth; waiters = 0 };
        holder = none;
        line = [];
      })
  next : {r s : Tasks} → Reach depth r → Step r s → Reach depth s

-- The tasks that are inside.
unfoldable pub inside : Tasks → ℕ
inside r = elim r.holder [ none ↦ 0 | some t ↦ 1 ] + length r.line

-- The counter is the number of the tasks inside, which the depth bounds, and nobody waits for a slot
-- that is free.
pub record IsCounted (depth : ℕ) (r : Tasks) : Type 0 where
  pub bound : r.gate.max_queue_depth ≡ depth
  pub counted : r.gate.waiters ≡ inside r
  pub within : inside r ≤ depth
  pub busy : r.holder ≡ none → r.line ≡ []

entered-IsCounted :
    {depth : ℕ} (r : Tasks) (t : ℕ) (g : Gate)
    → enter_queue r.gate ≡ (ok tt, g)
    → IsCounted depth r
    → IsCounted depth (join_line (record r { gate = g }) t)
unfolding enter_queue join_line inside
entered-IsCounted r t g h c = record {
  bound = ground (arith, c.bound);
  counted = ground (arith, c.counted, c.bound, length-append r.line (t ∷ []));
  within = ground (arith, c.counted, c.bound, c.within, length-append r.line (t ∷ []));
  busy = ground (arith, c.busy);
}

rejected-IsCounted :
    {depth : ℕ} (r : Tasks) (e : BatError) (g : Gate)
    → enter_queue r.gate ≡ (raise e, g)
    → IsCounted depth r
    → IsCounted depth (record r { gate = g })
unfolding enter_queue
rejected-IsCounted r e g h c = let same : g ≡ r.gate = ground arith in rw same c

finished-IsCounted :
    {depth : ℕ} (r : Tasks) (t : ℕ)
    → r.holder ≡ some t
    → IsCounted depth r
    → IsCounted depth (record (release r) { gate = leave_queue r.gate })
unfolding leave_queue release inside
finished-IsCounted r t h c = record {
  bound = c.bound;
  counted = ground (arith, c.counted, h);
  within = ground (arith, c.within, h);
  busy = ground (arith, c.busy);
}

gave_up-IsCounted :
    {depth : ℕ} (r : Tasks) (before after : List ℕ) (t : ℕ)
    → r.line ≡ before ++ t ∷ after
    → IsCounted depth r
    → IsCounted depth (record r { gate = leave_queue r.gate; line = before ++ after })
unfolding leave_queue inside
gave_up-IsCounted r before after t h c =
    let shorter : length r.line ≡ length (before ++ after) + 1 =
      ap length h ∙ omega (arith, length-append before (t ∷ after), length-append before after) in
    record {
      bound = c.bound;
      counted = ground (arith, c.counted, shorter);
      within = ground (arith, c.within, shorter);
      busy = λ free. absurd (ground (arith, ap length (c.busy free), shorter));
    }

pub Step-IsCounted : {depth : ℕ} {r s : Tasks} → Step r s → IsCounted depth r → IsCounted depth s
Step-IsCounted (entered r t g h) c = entered-IsCounted r t g h c
Step-IsCounted (rejected r e g h) c = rejected-IsCounted r e g h c
Step-IsCounted (finished r t h) c = finished-IsCounted r t h c
Step-IsCounted (gave_up r before after t h) c = gave_up-IsCounted r before after t h c

-- However callers enter, are turned away, finish or give up, the counter is the number of those inside,
-- the one that generates and those in line; it never passes the depth, and nobody waits for a slot that
-- is free.
pub Reach-IsCounted : {depth : ℕ} {r : Tasks} → Reach depth r → IsCounted depth r
unfolding inside
Reach-IsCounted here = record {
  bound = refl;
  counted = omega arith;
  within = omega arith;
  busy = λ h. refl;
}
Reach-IsCounted (next reach step) = Step-IsCounted step (Reach-IsCounted reach)
