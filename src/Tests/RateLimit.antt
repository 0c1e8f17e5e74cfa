-- ===== src/Tests/RateLimit.antt =====
-- Tests of the rate limits: a bucket, a limiter of runs, and the scripts.
use bat_ai.Prelude.{
  none, if◌then◌else◌, ◌+◌, ◌-◌, ◌*◌, ◌≤◌, ◌≡◌, refl, true, false, [], ◌∷◌, some, arith, string_eq,
}
use bat_ai.Prelude.Dict.{get, put, get_or}
use bat_ai.Prelude.Text.{round_div}
use bat_ai.RateLimit.Budget.{request, sweep, total, duration, IsTimely, total_le}
use bat_ai.RateLimit.Concurrency.{
  Runs, Reach, here, next, started, idle, enter, IsCounted, Reach-IsCounted,
}
use bat_ai.RateLimit.Redis.{Bucket, bucket_script, Leases}
use bat_ai.RateLimit.Leases.{stored, held, bucket_script-try_consume, bucket_script_skew}
use bat_ai.RateLimit.Bucket as InProcess

-- Ten units for each microsecond, and a burst of a hundred.
abbrev limiter : InProcess.Limiter
limiter = record { rate = 10; burst = 100; buckets = [] }

limiter-IsTimely : IsTimely 5 limiter
unfolding get
limiter-IsTimely = record { distinct = tt; past = λ k b h. cc }

total_le_example :
    total limiter "acme" 5 ((0, request "acme" 80) ∷ (3, request "acme" 40) ∷ (2, sweep 10) ∷ [])
    ≤ 100 + 5 * 10
unfolding duration
total_le_example =
    total_le limiter "acme" 5 ((0, request "acme" 80) ∷ (3, request "acme" 40) ∷ (2, sweep 10) ∷ [])
      limiter-IsTimely (tt, (tt, (omega arith, tt)))

abbrev one_run : Runs
one_run = record {
  limiter = record { limit = 2; running = ("acme", 1) ∷ [] };
  holders = "acme" ∷ [];
}

one_run-Reach : Reach (idle 2) one_run
unfolding enter put get get_or
one_run-Reach = next here (started (idle 2) "acme" one_run.limiter refl)

Reach-IsCounted_example : IsCounted 2 one_run
Reach-IsCounted_example = Reach-IsCounted 2 one_run-Reach

-- A bucket that was left with twenty units.
abbrev used : InProcess.Limiter
used = record limiter { buckets = ("acme", record { tokens = 20; owed = 0; updated_at = 3 }) ∷ [] }

used-IsTimely : IsTimely 5 used
unfolding get
used-IsTimely = record { distinct = (refl, tt); past = λ k b h. ground arith }

bucket_script-try_consume_example :
    ((InProcess.try_consume used 5 "acme" 80).0 ≡ (
      if (bucket_script 10 100 5 80 (stored (get used.buckets "acme"))).allowed
      then none
      else some (
          round_div
            (bucket_script 10 100 5 80 (stored (get used.buckets "acme"))).deficit
            (10 * 1000))))
    × ((InProcess.try_consume used 5 "acme" 80).1.buckets
        ≡ put used.buckets "acme"
            (held (bucket_script 10 100 5 80 (stored (get used.buckets "acme"))).state))
bucket_script-try_consume_example = bucket_script-try_consume used 5 "acme" 80 used-IsTimely

-- A reading of the clock from before leaves a debt.
indebted :
    (InProcess.try_consume used 0 "acme" 5).1.buckets
    ≡ ("acme", record { tokens = 0; owed = 10; updated_at = 0 }) ∷ []
unfolding InProcess.try_consume InProcess.refilled InProcess.owing InProcess.bucket_of get put
indebted = refl

-- One lease that is over at the time 9, and one that is not.
abbrev leases : Leases
leases = ("dead", 8) ∷ ("alive", 20) ∷ []

abbrev emptied : Bucket
emptied = record { tokens = 0; updated_at = 50 }

bucket_script_skew_example :
    ((bucket_script 10 100 50 100 (some emptied)).allowed ≡ false)
    × ((bucket_script 10 100 50 100
          (some (bucket_script 10 100 (50 - 10) 100 (some emptied)).state)).allowed
        ≡ true)
bucket_script_skew_example =
    bucket_script_skew 10 100 50 10 100 (omega arith) (omega arith) (omega arith) (omega arith)
