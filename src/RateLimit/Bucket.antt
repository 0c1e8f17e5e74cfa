-- ===== src/RateLimit/Bucket.antt =====
-- bat/ratelimit.py: `TokenBucketLimiter`. A time is a number of microseconds of the monotonic clock,
-- and tokens are counted in a unit small enough that the rate is a whole number of units for each
-- microsecond, so the refill that the source computes in floats is exact here.
use bat_ai.Prelude.{
  ℕ, ◌+◌, ◌-◌, ◌*◌, Bool, Option, none, some, [], String, if◌then◌else◌, string_eq, ltb, leb,
  length, min,
}
use bat_ai.Prelude.Dict.{Dict, get, put, remove_all, selected}
use bat_ai.Prelude.Text.{codes, round_div}
use bat_ai.Domain.Errors.{Result, ok, raise, error, rate_limit}

-- The tokens of a bucket are `tokens - owed`, one of which is 0: a reading of the clock from before the
-- bucket's would take tokens away, below 0 too.
pub record Bucket : Type 0 where
  pub tokens : ℕ
  pub owed : ℕ
  pub updated_at : ℕ

pub record Limiter : Type 0 where
  pub rate : ℕ
  pub burst : ℕ
  pub buckets : Dict String Bucket

-- The constructor; `none` is its `ValueError`.
unfoldable pub make : ℕ → ℕ → Option Limiter
make rate burst =
    if leb rate 0
    then none
    else if leb burst 0
    then none
    else some (record { rate = rate; burst = burst; buckets = [] })

-- The bucket of a key, a full one if there was none.
unfoldable pub bucket_of : Limiter → String → ℕ → Bucket
bucket_of l key now = elim (get l.buckets key) [
  | none ↦ record { tokens = l.burst; owed = 0; updated_at = now }
  | some b ↦ b
]

-- `min(burst, tokens + elapsed * rate)`, where `elapsed` may be less than 0: the tokens, and what is
-- owed.
unfoldable pub refilled : Limiter → Bucket → ℕ → ℕ
refilled l b now =
    min l.burst
      (b.tokens + (now - b.updated_at) * l.rate - (b.owed + (b.updated_at - now) * l.rate))

unfoldable pub owing : Limiter → Bucket → ℕ → ℕ
owing l b now = b.owed + (b.updated_at - now) * l.rate - (b.tokens + (now - b.updated_at) * l.rate)

-- `_try_consume`: nothing on success, else the delay in milliseconds.
unfoldable pub try_consume : Limiter → ℕ → String → ℕ → Option ℕ × Limiter
unfolding bucket_of refilled owing
try_consume l now key cost =
    let tokens = refilled l (bucket_of l key now) now in
    let owed = owing l (bucket_of l key now) now in
    if leb (cost + owed) tokens
    then (
      none,
      record l {
        buckets = put l.buckets key (record { tokens = tokens - cost; owed = 0; updated_at = now });
      },
    )
    else (
      some (round_div (cost + owed - tokens) (l.rate * 1000)),
      record l {
        buckets = put l.buckets key (record { tokens = tokens; owed = owed; updated_at = now });
      },
    )

unfoldable pub acquire : Limiter → ℕ → String → ℕ → Result (Unit {0}) × Limiter
unfolding try_consume
acquire l now key cost =
    let (retry, l') = try_consume l now key cost in
    elim retry [
      | none ↦ (ok tt, l')
      | some delay ↦ (raise (error (rate_limit delay) (codes "rate limit exceeded")), l')
    ]

-- `b.updated_at < now - older_than`
abbrev pub is_stale : ℕ → ℕ → String → Bucket → Bool
is_stale now older_than key b = ltb (b.updated_at + older_than) now

unfoldable pub evict_idle : Limiter → ℕ → ℕ → ℕ × Limiter
evict_idle l now older_than =
    let stale = selected (is_stale now older_than) l.buckets in
    (length stale, record l { buckets = remove_all l.buckets stale })

-- `NullLimiter`
pub record NullLimiter : Type 0 where
  pub calls : ℕ

unfoldable pub acquire_null : NullLimiter → NullLimiter
acquire_null l = record { calls = l.calls + 1 }
