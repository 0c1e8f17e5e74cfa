-- ===== src/Postgres/Purge.antt =====
-- `purge_expired` of bat/adapters/session_store_postgres.py, one statement over all tenants, beside
-- the loop over the tenants of bat/adapters/session_store_memory.py.
use bat_ai.Prelude.{
  ℕ, ◌+◌, ◌≡◌, refl, sym, ap, ◌∙◌, inl, inr, Bool, true, false, not, List, [], ◌∷◌, Option, none,
  some, String, arith, if◌then◌else◌, ◌==◌, ==_iff, ==_refl, ==_apart, string_eq, nat_eq,
  Bool-cases, All, keep, length, map, if_rule,
}
use bat_ai.Prelude.Dict.{Dict, get, get_or, values, keys, HasDistinctKeys, remove_all-selected}
use bat_ai.Prelude.Text.{Text}
use bat_ai.Domain.Conversation.{Session, Message, is_expired}
use bat_ai.Tools.Registry.{returns}
use bat_ai.Sessions.Store.{
  Store, partition, transcripts, expired_ids, purge_tenants, purge_messages,
}
use bat_ai.Sessions.Invariant.{IsValid}
use bat_ai.Sessions.Purge.{
  has_expired, purge_expired_lem, purge_expired-Swept, get_or_head, get_or_absent,
}
use bat_ai.Postgres.Tables.{MessageRow, Server, any, to_row}
use bat_ai.Postgres.Store.{Postgres, has_key, is_of, cascade, delete_where}
use bat_ai.Postgres.Rows.{keep_swap, keep_agree, keep_absorb, keep_nothing, list_of}
use bat_ai.Postgres.Sorting.{IsTimely}
use bat_ai.Postgres.Agreement.{IsStorable, View, Agree, rows_of_key}
use bat_ai.Postgres.Reads.{connected_lem}
use bat_ai.Postgres.Listing.{keep_all}
use bat_ai.Sessions.Store as InMemory
use bat_ai.Postgres.Store as Statements

any-keep : {A : Type 0} (p q : A → Bool) (xs : List A) → any p (keep q xs) ≡ any q (keep p xs)
any-keep p q [] = refl
any-keep p q (x ∷ xs) = ground (arith, any-keep p q xs)

values-keep :
    (p : Session → Bool) (d : Dict ℕ Session)
    → values (keep (λ (x : ℕ × Session). p x.1) d) ≡ keep p (values d)
values-keep p [] = refl
values-keep p ((k, x) ∷ d) = ground (arith, values-keep p d)

length-keys :
    (p : Session → Bool) (d : Dict ℕ Session)
    → length (keys (keep (λ (x : ℕ × Session). p x.1) d)) ≡ length (keep p (values d))
length-keys p [] = refl
length-keys p ((k, x) ∷ d) = ground (arith, length-keys p d)

-- A list in two parts.
length-keep_parts :
    {A : Type 0} (p q : A → Bool) (xs : List A)
    → length (keep q xs) ≡ length (keep q (keep p xs)) + length (keep q (keep (λ x. not (p x)) xs))
length-keep_parts p q [] = refl
length-keep_parts p q (x ∷ xs) = ground (arith, length-keep_parts p q xs)

no_rows : (xs : List Session) → ((t : String) → keep (λ x. x.tenant_id == t) xs ≡ []) → xs ≡ []
no_rows [] h = refl
no_rows (x ∷ xs) h = ground (arith, h x.tenant_id, ==_refl x.tenant_id)

-- The loop counts the rows that have expired.
counted_lem :
    (now : ℕ) (d : Dict String (Dict ℕ Session)) (m : Dict String (Dict ℕ (List Message)))
    (xs : List Session)
    → HasDistinctKeys d
    → ((t : String) → keep (λ x. x.tenant_id == t) xs ≡ values (get_or d t []))
    → length (keep (λ x. is_expired x now) xs) ≡ (purge_tenants now d m).2
unfolding purge_tenants
counted_lem now [] m xs distinct h = rw (no_rows xs (λ t. h t ∙ unfold get_or get in refl)) refl
counted_lem now ((j, own) ∷ d) m xs distinct h =
    let others = keep (λ (x : Session). not (x.tenant_id == j)) xs in
    let mine : keep (λ x. x.tenant_id == j) xs ≡ values own =
      h j ∙ ap values (get_or_head d j j own ∙ rw (==_refl j) refl) in
    let rest : (t : String) → keep (λ x. x.tenant_id == t) others ≡ values (get_or d t []) = λ t.
      elim (Bool-cases (j == t)) [
        | inl same ↦
            let is : j ≡ t = (==_iff j t).0 same in
            keep_nothing _ _ xs (λ x there. ground (arith, there, is))
            ∙ ap values (sym (get_or_absent d t (rw (← is) distinct.0)))
        | inr other ↦
            keep_absorb _ _ xs (λ x there. ground (arith, there, other, ==_apart x.tenant_id j t))
            ∙ h t
            ∙ ap values (get_or_head d j t own ∙ rw other refl)
      ] in
    length-keep_parts (λ x. x.tenant_id == j) (λ x. is_expired x now) xs
    ∙ omega (
      arith,
      ap (λ l. length (keep (λ x. is_expired x now) l)) mine,
      length-keys (λ x. is_expired x now) own,
      counted_lem now d (purge_messages m j (expired_ids now own)) others distinct.1 rest,
    )

module _ (server : Server) (p : Postgres) (s : Store) (now : ℕ) (agree : Agree server p s)
    (valid : IsValid s) where
  abbrev expired : Session → Bool
  expired x = is_expired x now

  module _ (tenant : String) where
    purged_sessions :
        keep (λ x. x.tenant_id == tenant) (keep (λ x. not (expired x)) p.sessions)
        ≡ values (partition (InMemory.purge_expired s now).1 tenant)
    purged_sessions =
        keep_swap _ _ p.sessions
        ∙ ap (keep (λ x. not (expired x))) (agree.view tenant).sessions
        ∙ sym (
            ap values (
              (purge_expired-Swept s now tenant valid).0
              ∙ remove_all-selected (λ k x. expired x) (partition s tenant)
                  (valid.at tenant).distinct)
            ∙ values-keep (λ x. not (expired x)) (partition s tenant))

    -- A session of the tenant goes where it has expired.
    gone_lem :
        (id : ℕ)
        → any (λ (x : Session). has_key tenant id x) (keep expired p.sessions)
          ≡ has_expired now (get (partition s tenant) id)
    gone_lem id =
        any-keep (has_key tenant id) expired p.sessions
        ∙ ap (any expired) (rows_of_key server tenant p s (agree.view tenant) (valid.at tenant) id)
        ∙ at_most_one (get (partition s tenant) id)
      where
        at_most_one : (o : Option Session) → any expired (list_of o) ≡ has_expired now o
        at_most_one none = refl
        at_most_one (some x) = ground arith

    transcript_lem :
        (id : ℕ)
        → get_or (transcripts (InMemory.purge_expired s now).1 tenant) id [] ≡ (
            if has_expired now (get (partition s tenant) id)
            then []
            else get_or (transcripts s tenant) id [])
    unfolding get_or
    transcript_lem id = ground (arith, (purge_expired_lem s now tenant id valid).1)

    purged_messages :
        (id : ℕ)
        → keep (is_of tenant id) (cascade (keep expired p.sessions) p.messages)
          ≡ map
              (to_row server tenant id)
              (get_or (transcripts (InMemory.purge_expired s now).1 tenant) id [])
    unfolding cascade
    purged_messages id =
        keep_swap (is_of tenant id) _ p.messages
        ∙ keep_agree _ (λ r. not (has_expired now (get (partition s tenant) id))) (is_of tenant id)
            p.messages (λ r mine. ap not (its_own r mine))
        ∙ ap (keep (λ r. not (has_expired now (get (partition s tenant) id))))
            ((agree.view tenant).transcript id).rows
        ∙ elim (Bool-cases (has_expired now (get (partition s tenant) id))) [
          | inl gone ↦
              rw (transcript_lem id, gone)
                (keep_nothing_of
                  (map (to_row server tenant id) (get_or (transcripts s tenant) id [])))
          | inr spared ↦ rw (transcript_lem id, spared) (keep_all _)
        ]
      where
        its_own :
            (r : MessageRow)
            → is_of tenant id r ≡ true
            → any (λ (x : Session). has_key r.tenant_id r.session_id x) (keep expired p.sessions)
              ≡ has_expired now (get (partition s tenant) id)
        its_own r mine =
            let t : r.tenant_id ≡ tenant = (==_iff r.tenant_id tenant).0 (ground (arith, mine)) in
            let i : r.session_id ≡ id = (==_iff r.session_id id).0 (ground (arith, mine)) in
            ap (λ k. any (λ (x : Session). has_key k r.session_id x) (keep expired p.sessions)) t
            ∙ ap (λ k. any (λ (x : Session). has_key tenant k x) (keep expired p.sessions)) i
            ∙ gone_lem id

        keep_nothing_of : (rs : List MessageRow) → keep (λ _. false) rs ≡ []
        keep_nothing_of [] = refl
        keep_nothing_of (r ∷ rs) = keep_nothing_of rs

    purge-View :
        View server tenant
          (delete_where expired p)
          (partition (InMemory.purge_expired s now).1 tenant)
          (transcripts (InMemory.purge_expired s now).1 tenant)
    unfolding delete_where
    purge-View = record {
      sessions = purged_sessions;
      transcript = λ id. record {
        rows = purged_messages id;
        timely = rw (transcript_lem id) (
            if_rule (λ (l : List Message). IsTimely (map (to_row server tenant id) l))
              (has_expired now (get (partition s tenant) id)) [] _ tt
              ((agree.view tenant).transcript id).timely);
        storable = rw (transcript_lem id) (
            if_rule (λ (l : List Message). All (IsStorable server) l)
              (has_expired now (get (partition s tenant) id)) [] _ tt
              ((agree.view tenant).transcript id).storable);
      };
    }

  swept :
      (trouble : Option Text)
      → Statements.purge_expired trouble p now
        ≡ (returns (length (keep expired p.sessions)), delete_where expired p)
  unfolding Statements.purge_expired
  swept trouble =
      connected_lem trouble p
        (λ q. (returns (length (keep expired q.sessions)), delete_where expired q)) agree.connected

  -- Both sweeps count the same sessions, and what they leave agrees.
  pub purge_alike :
      (trouble : Option Text)
      → ((Statements.purge_expired trouble p now).0 ≡ returns (InMemory.purge_expired s now).0)
        × Agree server (Statements.purge_expired trouble p now).1 (InMemory.purge_expired s now).1
  purge_alike trouble = rw (swept trouble) (
    ap returns (
        unfold InMemory.purge_expired in
        counted_lem now s.sessions s.messages p.sessions valid.tenants
          (λ t. (agree.view t).sessions)),
    record {
      connected = unfold delete_where in agree.connected;
      ttl = unfold delete_where InMemory.purge_expired in agree.ttl;
      lasting = unfold InMemory.purge_expired in agree.lasting;
      limit = unfold delete_where InMemory.purge_expired in agree.limit;
      cap = unfold delete_where InMemory.purge_expired in agree.cap;
      view = purge-View;
    },
  )
