-- ===== src/Config/Slots.antt =====
-- The slots of bat/adapters/ratelimit_redis.py under settings that bat/settings.py accepts.
use bat_ai.Prelude.{
  Bool, ◌≡◌, ◌∙◌, ◌≢◌, ◌≤◌, ◌<◌, ◌+◌, true, false, ℕ, List, [], ◌∷◌, some, String, arith, string_eq,
  ==_iff, All, length, leb, if_cases,
}
use bat_ai.Prelude.Dict.{
  get, put, remove, HasDistinctKeys, remove_all-HasDistinctKeys, put-HasDistinctKeys,
  remove-HasDistinctKeys, get-put, get-remove, get-remove_all-selected,
}
use bat_ai.RateLimit.Redis.{
  Leases, is_over, reap, lease_script, RunLimiter, held, enter, leave, in_flight,
}
use bat_ai.Domain.Errors.{ok}
use bat_ai.Config.Settings.{Settings, is_production}
use bat_ai.Config.Checks.{faults}
use bat_ai.Config.Hardening.{faults-nil_iff}

-- What other runs and replicas do to the leases of a tenant: each call at the time that its clock
-- reads.
pub data Call : Type 0 where
  acquired : ℕ → String → Call
  released : Bool → String → Call
  counted : ℕ → Call

-- The call stands for another run, and its clock has not passed a time.
abbrev pub IsElsewhere : String → ℕ → Call → Type 0
IsElsewhere lease end (acquired now other) = (now ≤ end) × (other ≢ lease)
IsElsewhere lease end (released up other) = other ≢ lease
IsElsewhere lease end (counted now) = now ≤ end

unfoldable pub perform : RunLimiter → Leases → Call → Leases
perform l leases (acquired now other) = (enter l true now other leases).1
perform l leases (released up other) = leave up (held other) leases
perform l leases (counted now) = (in_flight now leases).1

unfoldable pub perform_all : RunLimiter → Leases → List Call → Leases
perform_all l leases [] = leases
perform_all l leases (c ∷ cs) = perform_all l (perform l leases c) cs

abbrev pub IsHeld : String → ℕ → Leases → Type 0
IsHeld lease expiry leases = HasDistinctKeys leases × (get leases lease ≡ some expiry)

reap-IsHeld :
    (lease : String) (now expiry : ℕ) (leases : Leases)
    → now < expiry
    → IsHeld lease expiry leases
    → IsHeld lease expiry (reap now leases)
unfolding reap
reap-IsHeld lease now expiry leases early h = (
  remove_all-HasDistinctKeys leases _ h.0,
  get-remove_all-selected (is_over now) leases lease h.0 ∙ rw h.1 (ground arith),
)

put-IsHeld :
    (lease other : String) (expiry until : ℕ) (leases : Leases)
    → other ≢ lease
    → IsHeld lease expiry leases
    → IsHeld lease expiry (put leases other until)
put-IsHeld lease other expiry until leases apart h = (
  put-HasDistinctKeys leases other until h.0,
  ground (arith, get-put leases other lease until, ==_iff other lease, h.1),
)

remove-IsHeld :
    (lease other : String) (expiry : ℕ) (leases : Leases)
    → other ≢ lease
    → IsHeld lease expiry leases
    → IsHeld lease expiry (remove leases other)
remove-IsHeld lease other expiry leases apart h = (
  remove-HasDistinctKeys leases other h.0,
  ground (arith, get-remove leases other lease, ==_iff other lease, h.1),
)

lease_script-IsHeld :
    (l : RunLimiter) (lease other : String) (now expiry : ℕ) (leases : Leases)
    → now < expiry
    → other ≢ lease
    → IsHeld lease expiry leases
    → IsHeld lease expiry (lease_script now l.limit other l.lease_ttl leases).1
unfolding lease_script
lease_script-IsHeld l lease other now expiry leases early apart h =
    let live = reap-IsHeld lease now expiry leases early h in
    if_cases (λ (r : Bool × Leases). IsHeld lease expiry r.1)
      (leb l.limit (length (reap now leases))) _ _ (λ full. live)
      (λ room. put-IsHeld lease other expiry _ (reap now leases) apart live)

leases-enter :
    (l : RunLimiter) (now : ℕ) (lease : String) (leases : Leases)
    → (enter l true now lease leases).1 ≡ (lease_script now l.limit lease l.lease_ttl leases).1
unfolding enter
leases-enter l now lease leases = ground arith

perform-IsHeld :
    (l : RunLimiter) (lease : String) (end expiry : ℕ) (c : Call) (leases : Leases)
    → end < expiry
    → IsElsewhere lease end c
    → IsHeld lease expiry leases
    → IsHeld lease expiry (perform l leases c)
unfolding perform leave in_flight
perform-IsHeld l lease end expiry (acquired now other) leases early e h =
    rw (leases-enter l now other leases)
      (lease_script-IsHeld l lease other now expiry leases (ground arith) e.1 h)
perform-IsHeld l lease end expiry (released true other) leases early e h =
    remove-IsHeld lease other expiry leases e h
perform-IsHeld l lease end expiry (released false other) leases early e h = h
perform-IsHeld l lease end expiry (counted now) leases early e h =
    reap-IsHeld lease now expiry leases (ground arith) h

perform_all-IsHeld :
    (l : RunLimiter) (lease : String) (end expiry : ℕ) (cs : List Call) (leases : Leases)
    → end < expiry
    → All (IsElsewhere lease end) cs
    → IsHeld lease expiry leases
    → IsHeld lease expiry (perform_all l leases cs)
unfolding perform_all
perform_all-IsHeld l lease end expiry [] leases early e h = h
perform_all-IsHeld l lease end expiry (c ∷ cs) leases early e h =
    perform_all-IsHeld l lease end expiry cs (perform l leases c) early e.1
      (perform-IsHeld l lease end expiry c leases early e.0 h)

-- An admitted run has put its lease among those that are left.
leases-admitted :
    (l : RunLimiter) (now : ℕ) (lease : String) (leases : Leases)
    → (enter l true now lease leases).0 ≡ ok (held lease)
    → (enter l true now lease leases).1 ≡ put (reap now leases) lease (now + l.lease_ttl)
unfolding enter lease_script
leases-admitted l now lease leases admitted = ground arith

enter-IsHeld :
    (l : RunLimiter) (now : ℕ) (lease : String) (leases : Leases)
    → HasDistinctKeys leases
    → (enter l true now lease leases).0 ≡ ok (held lease)
    → IsHeld lease (now + l.lease_ttl) (enter l true now lease leases).1
unfolding reap
enter-IsHeld l now lease leases h admitted = rw (leases-admitted l now lease leases admitted) (
  put-HasDistinctKeys (reap now leases) lease (now + l.lease_ttl)
      (remove_all-HasDistinctKeys leases _ h),
  ground (arith, get-put (reap now leases) lease lease (now + l.lease_ttl), ==_iff lease lease),
)

-- The run limiter that a deployment builds.
abbrev pub run_limiter : Settings → RunLimiter
run_limiter s = record {
  limit = s.rate_limit.max_concurrent_runs;
  lease_ttl = s.rate_limit.lease_ttl_s;
  fail_open = s.rate_limit.fail_open;
}

-- In production, a run that was admitted keeps its slot until its deadline: under settings that are
-- accepted, whatever the other runs and replicas ask of Redis, as long as no clock has passed the
-- deadline and none of them releases this run's lease, the lease is still there.
pub faults-keeps_slot :
    (s : Settings) (now : ℕ) (lease : String) (leases : Leases) (cs : List Call)
    → faults s ≡ []
    → is_production s.environment ≡ true
    → HasDistinctKeys leases
    → (enter (run_limiter s) true now lease leases).0 ≡ ok (held lease)
    → All (IsElsewhere lease (now + s.agent.deadline_s)) cs
    → get (perform_all (run_limiter s) (enter (run_limiter s) true now lease leases).1 cs) lease
      ≡ some (now + s.rate_limit.lease_ttl_s)
faults-keeps_slot s now lease leases cs accepted p distinct admitted others =
    let hardened = ((faults-nil_iff s).0 accepted).1 p in
    let taken = enter-IsHeld (run_limiter s) now lease leases distinct admitted in
    let kept =
      perform_all-IsHeld (run_limiter s) lease (now + s.agent.deadline_s)
        (now + s.rate_limit.lease_ttl_s) cs _ (omega (arith, hardened.outlives)) others taken in
    kept.1
