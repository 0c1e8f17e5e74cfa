-- ===== src/RateLimit/Concurrency.antt =====
-- bat/ratelimit.py: `ConcurrencyLimiter`. `slot` is two steps under the lock, one before the body and
-- one in its `finally`; between them other tasks take their own.
use bat_ai.Prelude.{
  ◌↔◌, ◌≢◌, ℕ, ◌+◌, ◌-◌, ◌≤◌, ◌<◌, ◌≡◌, refl, ap, ◌∙◌, Option, none, some, List, [], ◌∷◌, ◌++◌,
  String, arith, if◌then◌else◌, string_eq, ltb, leb, ◌==◌, ==_iff,
}
use bat_ai.Prelude.Dict.{Dict, get, put, remove, get_or, get-put, get-remove}
use bat_ai.Prelude.Text.{codes}
use bat_ai.Domain.Errors.{BatError, Result, ok, raise, error, rate_limit}

pub record Limiter : Type 0 where
  pub limit : ℕ
  pub running : Dict String ℕ

-- The constructor; `none` is its `ValueError`.
unfoldable pub make : ℕ → Option Limiter
make limit = if leb limit 0 then none else some (record { limit = limit; running = [] })

unfoldable pub in_flight : Limiter → String → ℕ
in_flight l key = get_or l.running key 0

-- `slot`, up to the `yield`.
unfoldable pub enter : Limiter → String → Result (Unit {0}) × Limiter
unfolding in_flight
enter l key =
    let current = in_flight l key in
    if leb l.limit current
    then (
      raise (error (rate_limit 1000) (codes "too many concurrent agent runs for this tenant")),
      l,
    )
    else (ok tt, record l { running = put l.running key (current + 1) })

-- The `finally` of `slot`.
unfoldable pub leave : Limiter → String → Limiter
leave l key =
    let remaining = get_or l.running key 1 - 1 in
    if ltb 0 remaining
    then record l { running = put l.running key remaining }
    else record l { running = remove l.running key }

-- The limiter beside the runs that hold a slot, in any order of starts and ends.
pub record Runs : Type 0 where
  pub limiter : Limiter
  pub holders : List String

unfoldable pub held : String → List String → ℕ
held key [] = 0
held key (k ∷ ks) = if k == key then held key ks + 1 else held key ks

pub data Step : Runs → Runs → Type 0 where
  started :
      (r : Runs) (key : String) (l : Limiter)
      → enter r.limiter key ≡ (ok tt, l)
      → Step r (record { limiter = l; holders = key ∷ r.holders })
  refused :
      (r : Runs) (key : String) (e : BatError) (l : Limiter)
      → enter r.limiter key ≡ (raise e, l)
      → Step r (record r { limiter = l })
  -- Any of the holders ends, by return, error or cancellation.
  ended :
      (r : Runs) (before after : List String) (key : String)
      → r.holders ≡ before ++ key ∷ after
      → Step r (record { limiter = leave r.limiter key; holders = before ++ after })

pub data Reach (r : Runs) : Runs → Type 0 where
  here : Reach r r
  next : {s t : Runs} → Reach r s → Step s t → Reach r t

abbrev pub idle : ℕ → Runs
idle limit = record { limiter = record { limit = limit; running = [] }; holders = [] }

-- The counter of every key is the number of its runs, which the limit bounds; and no counter of zero
-- is kept.
pub record IsCounted (limit : ℕ) (r : Runs) : Type 0 where
  pub limited : r.limiter.limit ≡ limit
  pub counted : (key : String) → in_flight r.limiter key ≡ held key r.holders
  pub bounded : (key : String) → held key r.holders ≤ limit
  pub positive : (key : String) → get r.limiter.running key ≢ some 0

held-append :
    (key k : String) (xs ys : List String)
    → held key (xs ++ k ∷ ys) ≡ held key (xs ++ ys) + (if k == key then 1 else 0)
unfolding held
held-append key k [] ys = ground arith
held-append key k (x ∷ xs) ys = ground (arith, held-append key k xs ys)

started-IsCounted :
    {limit : ℕ} (r : Runs) (key : String) (l : Limiter)
    → enter r.limiter key ≡ (ok tt, l)
    → IsCounted limit r
    → IsCounted limit (record { limiter = l; holders = key ∷ r.holders })
unfolding enter held get_or
started-IsCounted r key l h c = record {
  limited = ground (arith, c.limited);
  counted = λ k. ground (
    arith,
    c.counted k,
    c.counted key,
    get-put r.limiter.running key k (in_flight r.limiter key + 1),
    ==_iff key k,
  );
  bounded = λ k. ground (arith, c.bounded k, c.counted k, c.counted key, c.limited, ==_iff key k);
  positive = λ k.
      ground (arith, c.positive k, get-put r.limiter.running key k (in_flight r.limiter key + 1));
}

refused-IsCounted :
    {limit : ℕ} (r : Runs) (key : String) (e : BatError) (l : Limiter)
    → enter r.limiter key ≡ (raise e, l)
    → IsCounted limit r
    → IsCounted limit (record r { limiter = l })
unfolding enter
refused-IsCounted r key e l h c = let same : l ≡ r.limiter = ground arith in rw same c

leave_running :
    (l : Limiter) (key k : String)
    → get (leave l key).running k ≡ (
        if key == k
        then (if ltb 0 (in_flight l key - 1) then some (in_flight l key - 1) else none)
        else get l.running k)
unfolding leave in_flight get_or
leave_running l key k =
    ground (arith, get-put l.running key k (get_or l.running key 1 - 1), get-remove l.running key k)

pub in_flight-leave :
    (l : Limiter) (key k : String)
    → in_flight (leave l key) k ≡ (if key == k then in_flight l key - 1 else in_flight l k)
unfolding in_flight get_or
in_flight-leave l key k = ground (arith, leave_running l key k)

limit-leave : (l : Limiter) (key : String) → (leave l key).limit ≡ l.limit
unfolding leave
limit-leave l key = ground arith

ended-IsCounted :
    {limit : ℕ} (r : Runs) (before after : List String) (key : String)
    → r.holders ≡ before ++ key ∷ after
    → IsCounted limit r
    → IsCounted limit (record { limiter = leave r.limiter key; holders = before ++ after })
ended-IsCounted r before after key h c =
    let one_less = λ (k : String). ap (held k) h ∙ held-append k key before after in
    record {
      limited = limit-leave r.limiter key ∙ c.limited;
      counted = λ k. ground (
        arith,
        c.counted k,
        c.counted key,
        in_flight-leave r.limiter key k,
        one_less k,
        ==_iff key k,
      );
      bounded = λ k. ground (arith, c.bounded k, one_less k);
      positive = λ k. ground (arith, c.positive k, leave_running r.limiter key k);
    }

Step-IsCounted : {limit : ℕ} {r t : Runs} → Step r t → IsCounted limit r → IsCounted limit t
Step-IsCounted (started r key l h) c = started-IsCounted r key l h c
Step-IsCounted (refused r key e l h) c = refused-IsCounted r key e l h c
Step-IsCounted (ended r before after key h) c = ended-IsCounted r before after key h c

idle-IsCounted : (limit : ℕ) → IsCounted limit (idle limit)
unfolding in_flight get_or get held
idle-IsCounted limit = record {
  limited = refl;
  counted = λ k. refl;
  bounded = λ k. omega arith;
  positive = λ k h. cc;
}

-- However runs start and end, the counter of a key is the number of its runs that are under way, and
-- that number never passes the limit; and no counter of zero is kept.
pub Reach-IsCounted : (limit : ℕ) {r : Runs} → Reach (idle limit) r → IsCounted limit r
Reach-IsCounted limit here = idle-IsCounted limit
Reach-IsCounted limit (next reach step) = Step-IsCounted step (Reach-IsCounted limit reach)

-- In every state that can be reached, a run is admitted exactly when fewer runs of its key than the
-- limit are under way.
pub enter-ok_iff :
    (limit : ℕ) (key : String) {r : Runs}
    → Reach (idle limit) r
    → ((enter r.limiter key).0 ≡ ok tt) ↔ (held key r.holders < limit)
unfolding enter
enter-ok_iff limit key {r} reach =
    let c = Reach-IsCounted limit reach in
    (λ h. ground (arith, c.counted key, c.limited), λ h. ground (arith, c.counted key, c.limited))
