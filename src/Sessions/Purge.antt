-- ===== src/Sessions/Purge.antt =====
-- `purge_expired` of bat/adapters/session_store_memory.py: what the sweep over all tenants leaves.
use bat_ai.Prelude.{
  ℕ, ◌≡◌, refl, ap, ◌∙◌, Bool, false, List, [], ◌∷◌, Option, none, some, String, arith,
  if◌then◌else◌, Bool-cases, inl, inr, nat_eq, string_eq, ◌==◌, ==_iff, ==_refl,
}
use bat_ai.Prelude.Dict.{
  Dict, get, get_or, get_or-put, HasDistinctKeys, remove_all, get-remove_all, contains-selected,
  test_at,
}
use bat_ai.Domain.Conversation.{Session, Message, is_expired}
use bat_ai.Sessions.Store.{
  Store, partition, transcripts, expired_ids, purge_messages, purge_tenants, purge_expired,
}
use bat_ai.Sessions.Invariant.{IsValid, remove_all-IsPartition}

purge_messages_self :
    (m : Dict String (Dict ℕ (List Message))) (tenant : String) (ids : List ℕ)
    → get_or (purge_messages m tenant ids) tenant [] ≡ remove_all (get_or m tenant []) ids
unfolding purge_messages
purge_messages_self m tenant [] = refl
purge_messages_self m tenant (k ∷ ks) = rw (get_or-put, ==_refl tenant)

purge_messages-ne :
    (m : Dict String (Dict ℕ (List Message))) (tenant other : String) (ids : List ℕ)
    → (tenant == other) ≡ false
    → get_or (purge_messages m tenant ids) other [] ≡ get_or m other []
unfolding purge_messages
purge_messages-ne m tenant other [] h = refl
purge_messages-ne m tenant other (k ∷ ks) h = rw (get_or-put, h)

-- The sweep as one tenant sees it.
abbrev Swept :
    ℕ
    → String
    → Dict String (Dict ℕ Session)
    → Dict String (Dict ℕ (List Message))
    → Dict String (Dict ℕ Session) × Dict String (Dict ℕ (List Message)) × ℕ
    → Type 0
Swept now tenant d m r =
    (get_or r.0 tenant [] ≡ remove_all (get_or d tenant []) (expired_ids now (get_or d tenant [])))
    × (get_or r.1 tenant []
        ≡ remove_all (get_or m tenant []) (expired_ids now (get_or d tenant [])))

pub get_or_absent :
    {V : Type 0} (d : Dict String (List V)) (k : String) → get d k ≡ none → get_or d k [] ≡ []
unfolding get_or
get_or_absent d k h = rw (h, get_or)

pub get_or_head :
    {V : Type 0} (d : Dict String (List V)) (j k : String) (v : List V)
    → get_or ((j, v) ∷ d) k [] ≡ (if j == k then v else get_or d k [])
unfolding get_or get
get_or_head d j k v = ground arith

purge_tenants-Swept :
    (now : ℕ) (tenant : String) (d : Dict String (Dict ℕ Session))
    (m : Dict String (Dict ℕ (List Message)))
    → HasDistinctKeys d
    → Swept now tenant d m (purge_tenants now d m)
unfolding purge_tenants
purge_tenants-Swept now tenant [] m h = (unfold get get_or in refl, unfold get get_or in refl)
purge_tenants-Swept now tenant ((j, x) ∷ d) m h =
    let ih = purge_tenants-Swept now tenant d (purge_messages m j (expired_ids now x)) h.1 in
    elim (Bool-cases (j == tenant)) [
      | inl same ↦
          let e : j ≡ tenant = (==_iff j tenant).0 same in
          let absent : get_or d tenant [] ≡ [] = get_or_absent d tenant (rw (← e) h.0) in
          let here : get_or (purge_messages m j (expired_ids now x)) tenant []
              ≡ remove_all (get_or m tenant []) (expired_ids now x) =
            rw e (purge_messages_self m tenant (expired_ids now x)) in
          simp (get_or_head, same) (refl, (rw absent at ih.1) ∙ here)
      | inr other ↦
          simp (get_or_head, other)
            (
              ih.0,
              ih.1
                  ∙ ap (λ t. remove_all t (expired_ids now (get_or d tenant [])))
                      (purge_messages-ne m j tenant (expired_ids now x) other),
            )
    ]

get-purge_none :
    (now : ℕ) (tenant : String) (d : Dict String (Dict ℕ Session))
    (m : Dict String (Dict ℕ (List Message)))
    → get d tenant ≡ none
    → get (purge_tenants now d m).0 tenant ≡ none
unfolding purge_tenants get
get-purge_none now tenant [] m h = refl
get-purge_none now tenant ((j, x) ∷ d) m h =
    ground (arith, get-purge_none now tenant d (purge_messages m j (expired_ids now x)))

purge-HasDistinctKeys :
    (now : ℕ) (d : Dict String (Dict ℕ Session)) (m : Dict String (Dict ℕ (List Message)))
    → HasDistinctKeys d
    → HasDistinctKeys (purge_tenants now d m).0
unfolding purge_tenants
purge-HasDistinctKeys now [] m h = tt
purge-HasDistinctKeys now ((j, x) ∷ d) m h = (
  get-purge_none now j d _ h.0,
  purge-HasDistinctKeys now d (purge_messages m j (expired_ids now x)) h.1,
)

-- The store after the sweep, one tenant at a time.
pub purge_expired-Swept :
    (s : Store) (now : ℕ) (tenant : String)
    → IsValid s
    → (partition (purge_expired s now).1 tenant
        ≡ remove_all (partition s tenant) (expired_ids now (partition s tenant)))
      × (transcripts (purge_expired s now).1 tenant
          ≡ remove_all (transcripts s tenant) (expired_ids now (partition s tenant)))
unfolding purge_expired
purge_expired-Swept s now tenant v = purge_tenants-Swept now tenant s.sessions s.messages v.tenants

pub purge_expired-IsValid : (s : Store) (now : ℕ) → IsValid s → IsValid (purge_expired s now).1
purge_expired-IsValid s now v = record {
  tenants = unfold purge_expired in purge-HasDistinctKeys now s.sessions s.messages v.tenants;
  at = λ t.
      let swept = purge_expired-Swept s now t v in
      rw (swept.0, swept.1)
        (unfold purge_expired in
          remove_all-IsPartition t s.history_cap _ _ (expired_ids now (partition s t)) (v.at t));
}

-- Whether what is found under an id has expired.
abbrev pub has_expired : ℕ → Option Session → Bool
has_expired now none = false
has_expired now (some x) = is_expired x now

has_expired-test_at :
    (now id : ℕ) (o : Option Session) → test_at (λ k x. is_expired x now) id o ≡ has_expired now o
has_expired-test_at now id none = refl
has_expired-test_at now id (some x) = refl

-- The sweep of a well-formed store removes exactly the sessions that have expired, each with its
-- transcript, whatever the tenant, and leaves every other session and transcript as it was.
pub purge_expired_lem :
    (s : Store) (now : ℕ) (tenant : String) (id : ℕ)
    → IsValid s
    → (get (partition (purge_expired s now).1 tenant) id ≡ (
        if has_expired now (get (partition s tenant) id)
        then none
        else get (partition s tenant) id))
      × (get (transcripts (purge_expired s now).1 tenant) id ≡ (
          if has_expired now (get (partition s tenant) id)
          then none
          else get (transcripts s tenant) id))
purge_expired_lem s now tenant id v =
    let swept = purge_expired-Swept s now tenant v in
    let same =
      contains-selected (λ k x. is_expired x now) (partition s tenant) id (v.at tenant).distinct
      ∙ has_expired-test_at now id (get (partition s tenant) id) in
    (
      ap (λ d. get d id) swept.0 ∙ rw (← same) (get-remove_all (partition s tenant) _ id),
      ap (λ d. get d id) swept.1 ∙ rw (← same) (get-remove_all (transcripts s tenant) _ id),
    )
