-- ===== src/RateLimit/Redis.antt =====
-- bat/adapters/ratelimit_redis.py: the two Lua scripts and the limiters round them. Redis runs a script
-- as one step. The clock is `time.time()` of the calling replica, in microseconds, and may run back.
-- A key's time to live in Redis only drops a bucket that is idle, and is left out; `up` says whether
-- the call reaches Redis.
use bat_ai.Prelude.{
  ℕ, ◌+◌, ◌-◌, ◌*◌, Bool, true, false, Option, none, some, String, if◌then◌else◌, string_eq, leb,
  length, min, max,
}
use bat_ai.Prelude.Dict.{Dict, get, put, remove, remove_all, selected}
use bat_ai.Prelude.Text.{codes, round_div}
use bat_ai.Domain.Errors.{Result, ok, raise, error, rate_limit, upstream}

-- The hash of a key: `tokens` and `ts`.
pub record Bucket : Type 0 where
  pub tokens : ℕ
  pub updated_at : ℕ

-- The answer of the token bucket script: whether it allowed, the wait in tokens, and the new state.
pub record Reply : Type 0 where
  pub allowed : Bool
  pub deficit : ℕ
  pub state : Bucket

-- The state that the script starts from.
unfoldable pub stored_or_full : ℕ → ℕ → Option Bucket → Bucket
stored_or_full burst now none = record { tokens = burst; updated_at = now }
stored_or_full burst now (some b) = b

-- `_TOKEN_BUCKET_LUA`; `math.max(0, now - ts)` is the subtraction that stops at 0.
unfoldable pub bucket_script : ℕ → ℕ → ℕ → ℕ → Option Bucket → Reply
unfolding stored_or_full
bucket_script rate burst now cost stored =
    let state = stored_or_full burst now stored in
    let tokens = min burst (state.tokens + (now - state.updated_at) * rate) in
    if leb cost tokens
    then record {
      allowed = true;
      deficit = 0;
      state = record { tokens = tokens - cost; updated_at = now };
    }
    else record {
      allowed = false;
      deficit = cost - tokens;
      state = record { tokens = tokens; updated_at = now };
    }

pub record BucketLimiter : Type 0 where
  pub rate : ℕ
  pub burst : ℕ
  pub fail_open : Bool

abbrev pub Buckets : Type 0
Buckets = Dict String Bucket

-- `RedisTokenBucketLimiter.acquire`; the delay is in milliseconds.
unfoldable pub acquire :
    BucketLimiter → Bool → Buckets → ℕ → String → ℕ → Result (Unit {0}) × Buckets
unfolding bucket_script
acquire l false db now key cost =
    if l.fail_open
    then (ok tt, db)
    else (raise (error upstream (codes "rate limiter unavailable")), db)
acquire l true db now key cost =
    let reply = bucket_script l.rate l.burst now cost (get db key) in
    let db' = put db key reply.state in
    if reply.allowed then (ok tt, db') else (
      raise (
          error (rate_limit (max 1 (round_div reply.deficit (l.rate * 1000))))
            (codes "rate limit exceeded")),
      db',
    )

-- `verify`: one run against a throwaway key, which is deleted again.
unfoldable pub verify : BucketLimiter → Bool → Buckets → ℕ → Result (Unit {0}) × Buckets
unfolding bucket_script
verify l false db now =
    (raise (error upstream (codes "Redis rate limiter script does not run")), db)
verify l true db now = (
  ok tt,
  remove (put db "__verify__" (bucket_script l.rate l.burst now 0 (get db "__verify__")).state)
      "__verify__",
)

unfoldable pub peek : BucketLimiter → Buckets → String → ℕ
peek l db key = elim (get db key) [ none ↦ l.burst | some b ↦ b.tokens ]

-- The leases of a tenant: each with the time at which it expires.
abbrev pub Leases : Type 0
Leases = Dict String ℕ

abbrev pub is_over : ℕ → String → ℕ → Bool
is_over now lease expiry = leb expiry now

-- `ZREMRANGEBYSCORE key -inf now`
unfoldable pub reap : ℕ → Leases → Leases
reap now leases = remove_all leases (selected (is_over now) leases)

-- `_LEASE_ACQUIRE_LUA`
unfoldable pub lease_script : ℕ → ℕ → String → ℕ → Leases → Bool × Leases
unfolding reap
lease_script now limit lease ttl leases =
    let live = reap now leases in
    if leb limit (length live) then (false, live) else (true, put live lease (now + ttl))

pub record RunLimiter : Type 0 where
  pub limit : ℕ
  pub lease_ttl : ℕ
  pub fail_open : Bool

-- What a run goes on with: the lease that it holds, or none when Redis was not reached.
pub data Admission : Type 0 where
  held : String → Admission
  unmetered : Admission

-- `slot`, up to the `yield`.
unfoldable pub enter : RunLimiter → Bool → ℕ → String → Leases → Result Admission × Leases
unfolding lease_script
enter l false now lease leases =
    if l.fail_open
    then (ok unmetered, leases)
    else (raise (error upstream (codes "concurrency limiter unavailable")), leases)
enter l true now lease leases =
    let (admitted, leases') = lease_script now l.limit lease l.lease_ttl leases in
    if admitted then (ok (held lease), leases') else (
      raise (error (rate_limit 1000) (codes "too many concurrent agent runs for this tenant")),
      leases',
    )

-- The `finally` of `slot`; a release that does not reach Redis changes nothing.
unfoldable pub leave : Bool → Admission → Leases → Leases
leave up unmetered leases = leases
leave false (held lease) leases = leases
leave true (held lease) leases = remove leases lease

unfoldable pub in_flight : ℕ → Leases → ℕ × Leases
unfolding reap
in_flight now leases = let live = reap now leases in (length live, live)
