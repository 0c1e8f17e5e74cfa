-- ===== src/RateLimit/Budget.antt =====
-- The budget that the token bucket of bat/ratelimit.py enforces.
use native.Mathlib.Nat.{sub-zero}
use bat_ai.Prelude.{
  ==_iff, ◌<◌, ◌∙◌, sym, ltb→lt, All, ℕ, ◌+◌, ◌-◌, ◌*◌, ◌≤◌, ◌≡◌, refl, ap, Option, none, some,
  List, [], ◌∷◌, String, arith, if◌then◌else◌, string_eq, leb, min, ◌==◌, Bool-cases, Option-cases,
  inl, inr,
}
use bat_ai.Prelude.Dict.{
  get, put, test_at, get-put, get-remove_all-selected, HasDistinctKeys, put-HasDistinctKeys,
  remove_all-HasDistinctKeys,
}
use bat_ai.RateLimit.Bucket.{
  Bucket, Limiter, bucket_of, refilled, owing, try_consume, is_stale, evict_idle,
}

-- One event of a limiter's life: a request, or a sweep of idle buckets.
pub data Event : Type 0 where
  request : String → ℕ → Event
  sweep : ℕ → Event

-- The tokens that a key could spend at a time.
unfoldable pub available : Limiter → String → ℕ → ℕ
unfolding bucket_of refilled
available l key now = refilled l (bucket_of l key now) now

-- The cost that one event takes from a key's budget, and the limiter after it.
abbrev paid : ℕ → Option ℕ → ℕ
paid cost none = cost
paid cost (some delay) = 0

abbrev granted : String → String → ℕ → Option ℕ → ℕ
granted key k cost retry = if k == key then paid cost retry else 0

unfoldable pub happen : Limiter → String → ℕ → Event → ℕ × Limiter
happen l key now (request k cost) =
    let (retry, l') = try_consume l now k cost in (granted key k cost retry, l')
happen l key now (sweep older_than) = (0, (evict_idle l now older_than).1)

-- Events at the times of their own: the delay since the one before, and the event. The result is the
-- cost that was granted to the key in all.
unfoldable pub total : Limiter → String → ℕ → List (ℕ × Event) → ℕ
unfolding happen
total l key now [] = 0
total l key now ((delay, e) ∷ es) =
    let (cost, l') = happen l key (now + delay) e in cost + total l' key (now + delay) es

unfoldable pub duration : List (ℕ × Event) → ℕ
duration [] = 0
duration ((delay, e) ∷ es) = delay + duration es

-- No bucket has been written in the future, or owes tokens.
pub record IsTimely (now : ℕ) (l : Limiter) : Type 0 where
  pub distinct : HasDistinctKeys l.buckets
  pub past :
      (k : String) (b : Bucket) → get l.buckets k ≡ some b → (b.updated_at ≤ now) × (b.owed ≡ 0)

-- A sweep spares the buckets that are not full again: what it may evict has been idle for as long as
-- an empty bucket takes to fill.
abbrev pub IsPatient : ℕ → ℕ → Event → Type 0
IsPatient burst rate (request k cost) = Unit
IsPatient burst rate (sweep older_than) = burst ≤ older_than * rate

available-none :
    (l : Limiter) (key : String) (now : ℕ)
    → get l.buckets key ≡ none
    → available l key now ≡ l.burst
unfolding available
available-none l key now h = rw (available, bucket_of, h, refilled) (omega arith)

-- Where the clock has not run back, and nothing is owed, time only adds tokens.
pub refilled_lem :
    (l : Limiter) (b : Bucket) (now : ℕ)
    → (b.updated_at ≤ now) × (b.owed ≡ 0)
    → (refilled l b now ≡ min l.burst (b.tokens + (now - b.updated_at) * l.rate))
      × (owing l b now ≡ 0)
unfolding refilled owing
refilled_lem l b now h =
    let back : (b.updated_at - now) * l.rate ≡ 0 =
      let z : b.updated_at - now ≡ 0 = omega (arith, h.0) in rw z (omega arith) in
    (omega (arith, back, h.1), omega (arith, back, h.1))

pub owing-timely :
    (l : Limiter) (key : String) (now : ℕ) → IsTimely now l → owing l (bucket_of l key now) now ≡ 0
owing-timely l key now v = elim (Option-cases (get l.buckets key)) [
  | inl absent ↦
      let full : Bucket = record { tokens = l.burst; owed = 0; updated_at = now } in
      let is : bucket_of l key now ≡ full = unfold bucket_of in ground (arith, absent) in
      ap (λ b. owing l b now) is ∙ (refilled_lem l full now (omega arith, refl)).1
  | inr (b, there) ↦
      let is : bucket_of l key now ≡ b = unfold bucket_of in ground (arith, there) in
      ap (λ b. owing l b now) is ∙ (refilled_lem l b now (v.past key b there)).1
]

available-some :
    (l : Limiter) (key : String) (now : ℕ) (b : Bucket)
    → (b.updated_at ≤ now) × (b.owed ≡ 0)
    → get l.buckets key ≡ some b
    → available l key now ≡ min l.burst (b.tokens + (now - b.updated_at) * l.rate)
unfolding available
available-some l key now b past h = rw (available, bucket_of, h) (refilled_lem l b now past).0

refill_grows :
    (burst tokens t u d rate : ℕ)
    → u ≤ t
    → min burst (tokens + (t + d - u) * rate) ≤ min burst (tokens + (t - u) * rate) + d * rate
refill_grows burst tokens t u d rate h =
    let split : t + d - u ≡ (t - u) + d = omega arith in rw split (grind arith)

-- Time adds no more than the rate allows.
available-later :
    (l : Limiter) (key : String) (now d : ℕ)
    → IsTimely now l
    → available l key (now + d) ≤ available l key now + d * l.rate
available-later l key now d v = elim (Option-cases (get l.buckets key)) [
  | inl absent ↦
      omega (arith, available-none l key now absent, available-none l key (now + d) absent)
  | inr (b, there) ↦ omega (
    arith,
    available-some l key now b (v.past key b there) there,
    available-some l key (now + d) b (omega (arith, (v.past key b there).0), (v.past key b there).1)
        there,
    refill_grows l.burst b.tokens now b.updated_at d l.rate (v.past key b there).0,
  )
]

-- The limiter after a request: the key's bucket is written, with what is left.
spent : Limiter → ℕ → String → ℕ → Limiter
spent l now k tokens = record l {
  buckets = put l.buckets k (record { tokens = tokens; owed = 0; updated_at = now });
}

get-spent :
    (l : Limiter) (now : ℕ) (k key : String) (tokens : ℕ)
    → get (spent l now k tokens).buckets key ≡ (
        if k == key
        then some (record { tokens = tokens; owed = 0; updated_at = now })
        else get l.buckets key)
unfolding spent
get-spent l now k key tokens = get-put l.buckets k key _

no_refill : (now rate : ℕ) → (now - now) * rate ≡ 0
no_refill now rate = let still : now - now ≡ 0 = omega arith in rw still (omega arith)

available-spent :
    (l : Limiter) (now : ℕ) (k key : String) (tokens : ℕ)
    → tokens ≤ l.burst
    → available (spent l now k tokens) key now ≡ (if k == key then tokens else available l key now)
unfolding available
available-spent l now k key tokens h = elim (Bool-cases (k == key)) [
  | inl same ↦
      let there : get (spent l now k tokens).buckets key
          ≡ some (record { tokens = tokens; owed = 0; updated_at = now }) =
        rw (get-spent, same) refl in
      rw (same, available-some (spent l now k tokens) key now _ (omega arith, refl) there)
        (unfold spent in omega (arith, no_refill now l.rate))
  | inr other ↦ rw other (
      unfold available spent in
      ground
        (arith, get-put l.buckets k key (record { tokens = tokens; owed = 0; updated_at = now })))
]

available-le : (l : Limiter) (key : String) (now : ℕ) → available l key now ≤ l.burst
unfolding available
available-le l key now = omega arith

try_consume-spent :
    (l : Limiter) (now : ℕ) (k : String) (cost : ℕ)
    → IsTimely now l
    → (paid cost (try_consume l now k cost).0 ≤ available l k now)
      × ((try_consume l now k cost).1
          ≡ spent l now k (available l k now - paid cost (try_consume l now k cost).0))
unfolding try_consume available spent
try_consume-spent l now k cost v =
    let free : owing l (bucket_of l k now) now ≡ 0 = owing-timely l k now v in
    elim (Bool-cases
      (leb (cost + owing l (bucket_of l k now) now) (refilled l (bucket_of l k now) now))) [
        | inl enough ↦ rw enough (ground (arith, free), refl)
        | inr short ↦ rw short (omega arith, rw (sub-zero, free))
      ]

-- What a request takes from a key's budget is what it was granted.
request-available :
    (l : Limiter) (key : String) (now : ℕ) (k : String) (cost : ℕ)
    → IsTimely now l
    → (happen l key now (request k cost)).0
        + available (happen l key now (request k cost)).1 key now
      ≡ available l key now
unfolding happen
request-available l key now k cost v =
    let taken = try_consume-spent l now k cost v in
    let left : ℕ = available l k now - paid cost (try_consume l now k cost).0 in
    let small : left ≤ l.burst = omega (arith, available-le l k now) in
    rw taken.1 (elim (Bool-cases (k == key)) [
      | inl same ↦
          let e : k ≡ key = (==_iff k key).0 same in
          let after : available (spent l now k left) key now ≡ left =
            rw (available-spent l now k key left small, same) refl in
          let before : available l k now ≡ available l key now = ap (λ x. available l x now) e in
          rw same (omega (arith, after, before, taken.0))
      | inr other ↦
          let after : available (spent l now k left) key now ≡ available l key now =
            rw (available-spent l now k key left small, other) refl in
          rw other (omega (arith, after))
    ])

-- A bucket that a patient sweep evicts was full again.
stale_full :
    (l : Limiter) (key : String) (now older_than : ℕ) (b : Bucket)
    → l.burst ≤ older_than * l.rate
    → b.updated_at + older_than < now
    → min l.burst (b.tokens + (now - b.updated_at) * l.rate) ≡ l.burst
stale_full l key now older_than b patient stale =
    let long : older_than ≤ now - b.updated_at = omega arith in
    let filled : older_than * l.rate ≤ (now - b.updated_at) * l.rate = grind arith in omega arith

get-evict_idle :
    (l : Limiter) (key : String) (now older_than : ℕ)
    → HasDistinctKeys l.buckets
    → get (evict_idle l now older_than).1.buckets key ≡ (
        if test_at (is_stale now older_than) key (get l.buckets key)
        then none
        else get l.buckets key)
unfolding evict_idle
get-evict_idle l key now older_than h =
    get-remove_all-selected (is_stale now older_than) l.buckets key h

evict_idle-available :
    (l : Limiter) (key : String) (now older_than : ℕ)
    → IsTimely now l
    → l.burst ≤ older_than * l.rate
    → available (evict_idle l now older_than).1 key now ≡ available l key now
unfolding evict_idle available
evict_idle-available l key now older_than v patient =
    let swept = (evict_idle l now older_than).1 in
    let after = get-evict_idle l key now older_than v.distinct in
    elim (Option-cases (get l.buckets key)) [
      | inl absent ↦
          let gone : get swept.buckets key ≡ none = ground (arith, after) in
          available-none swept key now gone ∙ sym (available-none l key now absent)
      | inr (b, there) ↦ elim (Bool-cases (is_stale now older_than key b)) [
        | inl stale ↦
            let gone : get swept.buckets key ≡ none = ground (arith, after) in
            available-none swept key now gone
            ∙ sym (
                available-some l key now b (v.past key b there) there
                ∙ stale_full l key now older_than b patient (ltb→lt _ _ stale))
        | inr fresh ↦
            let kept : get swept.buckets key ≡ some b = ground (arith, after) in
            available-some swept key now b (v.past key b there) kept
            ∙ sym (available-some l key now b (v.past key b there) there)
      ]
    ]

happen-available :
    (l : Limiter) (key : String) (now : ℕ) (e : Event)
    → IsTimely now l
    → IsPatient l.burst l.rate e
    → (happen l key now e).0 + available (happen l key now e).1 key now ≡ available l key now
happen-available l key now (request k cost) v p = request-available l key now k cost v
happen-available l key now (sweep older_than) v p =
    unfold happen in omega (arith, evict_idle-available l key now older_than v p)

-- The settings and the discipline of a limiter survive every event.
record Keeps (now : ℕ) (l l' : Limiter) : Type 0 where
  burst : l'.burst ≡ l.burst
  rate : l'.rate ≡ l.rate
  timely : IsTimely now l'

later-IsTimely : {l : Limiter} (now d : ℕ) → IsTimely now l → IsTimely (now + d) l
later-IsTimely now d v = record {
  distinct = v.distinct;
  past = λ k b h. (omega (arith, (v.past k b h).0), (v.past k b h).1);
}

spent-Keeps :
    (l : Limiter) (now : ℕ) (k : String) (tokens : ℕ)
    → IsTimely now l
    → Keeps now l (spent l now k tokens)
spent-Keeps l now k tokens v = record {
  burst = unfold spent in refl;
  rate = unfold spent in refl;
  timely = record {
    distinct = unfold spent in put-HasDistinctKeys l.buckets k _ v.distinct;
    past = λ j b h. (
      ground (arith, get-spent l now k j tokens, v.past j b),
      ground (arith, get-spent l now k j tokens, v.past j b),
    );
  };
}

happen-Keeps :
    (l : Limiter) (key : String) (now : ℕ) (e : Event)
    → IsTimely now l
    → Keeps now l (happen l key now e).1
unfolding happen
happen-Keeps l key now (request k cost) v =
    rw (try_consume-spent l now k cost v).1 (spent-Keeps l now k _ v)
happen-Keeps l key now (sweep older_than) v = record {
  burst = unfold evict_idle in refl;
  rate = unfold evict_idle in refl;
  timely = record {
    distinct = unfold evict_idle in remove_all-HasDistinctKeys l.buckets _ v.distinct;
    past = λ j b h. v.past j b (ground (arith, get-evict_idle l j now older_than v.distinct));
  };
}

total-available :
    (l : Limiter) (key : String) (now : ℕ) (es : List (ℕ × Event))
    → IsTimely now l
    → All (λ (e : ℕ × Event). IsPatient l.burst l.rate e.1) es
    → total l key now es ≤ available l key now + duration es * l.rate
unfolding total duration
total-available l key now [] v p = omega arith
total-available l key now ((delay, e) ∷ es) v p =
    let v' = later-IsTimely now delay v in
    let kept = happen-Keeps l key (now + delay) e v' in
    let l' = (happen l key (now + delay) e).1 in
    let patient : All (λ (x : ℕ × Event). IsPatient l'.burst l'.rate x.1) es =
      rw (kept.burst, kept.rate) p.1 in
    omega (
      arith,
      total-available l' key (now + delay) es kept.timely patient,
      ap (λ r. duration es * r) kept.rate,
      available-later l key now delay v,
      happen-available l key (now + delay) e v' p.0,
    )

-- Whatever the requests of all keys, and the sweeps of buckets that have been idle for as long as
-- an empty one takes to fill, and whatever their order, a key is granted in a span of time no more
-- than the burst and the rate times the span, from a limiter with no bucket written in the future.
pub total_le :
    (l : Limiter) (key : String) (now : ℕ) (es : List (ℕ × Event))
    → IsTimely now l
    → All (λ (e : ℕ × Event). IsPatient l.burst l.rate e.1) es
    → total l key now es ≤ l.burst + duration es * l.rate
total_le l key now es v p = omega (arith, total-available l key now es v p, available-le l key now)
