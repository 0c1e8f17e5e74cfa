-- ===== src/RateLimit/Leases.antt =====
-- What the Redis limiters of bat/adapters/ratelimit_redis.py guarantee, and where a clock that runs
-- back breaks the token bucket.
use bat_ai.Prelude.{
  Option, none, inl, inr, Option-cases, if◌then◌else◌, ℕ, ◌-◌, ◌*◌, ◌≤◌, ◌<◌, ◌≡◌, ◌↔◌, ap, true,
  false, not, some, String, arith, string_eq, length, keep,
}
use bat_ai.Prelude.Dict.{get, put, HasDistinctKeys, remove_all-selected}
use bat_ai.Prelude.Text.{round_div}
use bat_ai.RateLimit.Redis.{Bucket, bucket_script, Leases, is_over, reap, lease_script}
use bat_ai.RateLimit.Budget.{IsTimely}
use bat_ai.RateLimit.Bucket as InProcess

-- What Redis keeps of a bucket of the limiter within one process, and back.
abbrev pub stored : Option InProcess.Bucket → Option Bucket
stored none = none
stored (some b) = some (record { tokens = b.tokens; updated_at = b.updated_at })

abbrev pub held : Bucket → InProcess.Bucket
held b = record { tokens = b.tokens; owed = 0; updated_at = b.updated_at }

-- Where no bucket was written in the future or owes tokens, the script decides as the limiter
-- within one process does, from the same bucket: it allows the same requests, leaves the same
-- bucket behind, and asks for a wait for the same tokens, so the one limiter can stand for the
-- other.
pub bucket_script-try_consume :
    (l : InProcess.Limiter) (now : ℕ) (key : String) (cost : ℕ)
    → IsTimely now l
    → let r = bucket_script l.rate l.burst now cost (stored (get l.buckets key)) in
      ((InProcess.try_consume l now key cost).0
        ≡ (if r.allowed then none else some (round_div r.deficit (l.rate * 1000))))
      × ((InProcess.try_consume l now key cost).1.buckets ≡ put l.buckets key (held r.state))
unfolding bucket_script InProcess.try_consume
bucket_script-try_consume l now key cost timely = elim (Option-cases (get l.buckets key)) [
  | inl absent ↦ ground (arith, absent)
  | inr (b, there) ↦
      let back : (b.updated_at - now) * l.rate ≡ 0 =
        let z : b.updated_at - now ≡ 0 = omega (arith, (timely.past key b there).0) in
        rw z (omega arith) in
      ground (arith, there, back, (timely.past key b there).1)
]

-- The leases that have not expired.
abbrev pub live : ℕ → Leases → Leases
live now leases = keep (λ (x : String × ℕ). not (is_over now x.0 x.1)) leases

reap-live : (now : ℕ) (leases : Leases) → HasDistinctKeys leases → reap now leases ≡ live now leases
unfolding reap
reap-live now leases h = remove_all-selected (is_over now) leases h

-- Where no lease is held twice, a run is admitted exactly when fewer leases than the limit are
-- live: a lease whose holder died without releasing it stops counting at its expiry.
pub lease_script-admits_iff :
    (now limit : ℕ) (lease : String) (ttl : ℕ) (leases : Leases)
    → HasDistinctKeys leases
    → ((lease_script now limit lease ttl leases).0 ≡ true) ↔ (length (live now leases) < limit)
unfolding lease_script
lease_script-admits_iff now limit lease ttl leases h = (
  λ a. ground (arith, ap length (reap-live now leases h)),
  λ a. ground (arith, ap length (reap-live now leases h)),
)

-- A request that finds a bucket empty is refused at the time at which it was emptied; but after a
-- request from a replica whose clock is behind, by as long as the cost takes to refill, the same
-- request at that same time is allowed.
pub bucket_script_skew :
    (rate burst now behind cost : ℕ)
    → 0 < cost
    → cost ≤ burst
    → behind ≤ now
    → cost ≤ behind * rate
    → let empty : Bucket = record { tokens = 0; updated_at = now } in
      ((bucket_script rate burst now cost (some empty)).allowed ≡ false)
      × ((bucket_script rate burst now cost
            (some (bucket_script rate burst (now - behind) cost (some empty)).state)).allowed
          ≡ true)
unfolding bucket_script
bucket_script_skew rate burst now behind cost positive fits past enough =
    let none_before : (now - now) * rate ≡ 0 =
      let z : now - now ≡ 0 = omega arith in rw z (omega arith) in
    let none_behind : (now - behind - now) * rate ≡ 0 =
      let z : now - behind - now ≡ 0 = omega arith in rw z (omega arith) in
    let again : (now - (now - behind)) * rate ≡ behind * rate =
      ap (λ t. t * rate) (let z : now - (now - behind) ≡ behind = omega arith in z) in
    ground (arith, none_before, none_behind, again)
