-- ===== src/Postgres/Writes.antt =====
-- The statements of bat/adapters/session_store_postgres.py that write, beside the writes of
-- bat/adapters/session_store_memory.py: the tables and the dictionaries agree again afterwards.
use mathlib.Core.List.{append-nil}
use bat_ai.Prelude.{
  ℕ, ◌≡◌, refl, sym, ap, ◌∙◌, inl, inr, true, false, not, List, [], ◌∷◌, ◌++◌, none, String, arith,
  if◌then◌else◌, ◌==◌, ==_iff, ==_refl, ==_apart, string_eq, nat_eq, Bool-cases, keep,
}
use bat_ai.Prelude.Dict.{Dict, get, put, remove, get_or, get-put, get-remove, get_or-put}
use bat_ai.Domain.Conversation.{Session, Message}
use bat_ai.Sessions.Store.{Store, partition, transcripts}
use bat_ai.Sessions.Invariant.{IsPartition}
use bat_ai.Postgres.Tables.{MessageRow, Server, any}
use bat_ai.Postgres.Store.{Postgres, has_key, is_of, cascade, delete_where}
use bat_ai.Postgres.Rows.{
  keep-append, keep_same, keep_swap, keep_absorb, keep_agree, keep_nothing, values-put_new,
  values-remove,
}
use bat_ai.Postgres.Agreement.{kept_rows, View, Agree, partition-IsKeyed}

-- Other tenants' rows are as they were.
pub record Elsewhere (tenant : String) (p q : Postgres) : Type 0 where
  pub sessions :
      (other : String)
      → (tenant == other) ≡ false
      → keep (λ x. x.tenant_id == other) q.sessions ≡ keep (λ x. x.tenant_id == other) p.sessions
  pub messages :
      (other : String) (id : ℕ)
      → (tenant == other) ≡ false
      → keep (is_of other id) q.messages ≡ keep (is_of other id) p.messages

module _ (server : Server) (p : Postgres) (s : Store) (tenant : String)
    (agree : Agree server p s) where
  -- A write that leaves one tenant a new view, and the others theirs.
  pub write-Agree :
      (xs : List Session) (rs : List MessageRow) (d : Dict ℕ Session) (m : Dict ℕ (List Message))
      → View server tenant (record p { sessions = xs; messages = rs }) d m
      → Elsewhere tenant p (record p { sessions = xs; messages = rs })
      → Agree server
          (record p { sessions = xs; messages = rs })
          (record s { sessions = put s.sessions tenant d; messages = put s.messages tenant m })
  write-Agree xs rs d m own elsewhere = record {
    connected = agree.connected;
    ttl = agree.ttl;
    lasting = agree.lasting;
    limit = agree.limit;
    cap = agree.cap;
    view = λ other. elim (Bool-cases (tenant == other)) [
      | inl same ↦ rw (get_or-put, get_or-put, same) (rw (← (==_iff tenant other).0 same) own)
      | inr foreign ↦
          let old = agree.view other in
          rw (get_or-put, get_or-put, foreign)
            (record {
              sessions = elsewhere.sessions other foreign ∙ old.sessions;
              transcript =
                  λ id. kept_rows _ (elsewhere.messages other id foreign) (old.transcript id);
            })
    ];
  }

module _ (p : Postgres) (tenant : String) where
  pub insert-Elsewhere :
      (x : Session)
      → x.tenant_id ≡ tenant
      → Elsewhere tenant p (record p { sessions = p.sessions ++ x ∷ [] })
  insert-Elsewhere x own = record {
    sessions = λ other foreign.
        let out : (x.tenant_id == other) ≡ false = ap (λ t. t == other) own ∙ foreign in
        keep-append _ p.sessions (x ∷ []) ∙ rw out (append-nil _);
    messages = λ other id foreign. refl;
  }

  -- The row of a new session.
  pub insert-View :
      (server : Server) (d : Dict ℕ Session) (m : Dict ℕ (List Message)) (cap id : ℕ) (x : Session)
      → x.tenant_id ≡ tenant
      → get d id ≡ none
      → IsPartition tenant cap d m
      → View server tenant p d m
      → View server tenant (record p { sessions = p.sessions ++ x ∷ [] }) (put d id x) (put m id [])
  insert-View server d m cap id x own fresh valid old =
      let same : (j : ℕ) → get_or (put m id []) j [] ≡ get_or m j [] =
        λ j. unfold get_or in ground (arith, get-put m id j [], valid.paired id, ==_iff id j) in
      let mine : (x.tenant_id == tenant) ≡ true = ap (λ t. t == tenant) own ∙ ==_refl tenant in
      record {
        sessions =
            keep-append _ p.sessions (x ∷ [])
            ∙ rw (mine, old.sessions) (sym (values-put_new (λ (y : Session). y.id) d id x fresh));
        transcript = λ j.
            rw same
              (kept_rows (record p { sessions = p.sessions ++ x ∷ [] }) refl (old.transcript j));
      }

-- The rows of a session that is gone, by its key.
only_key :
    (x : Session) (tenant : String) (id : ℕ)
    → x.tenant_id ≡ tenant
    → x.id ≡ id
    → (r : MessageRow)
    → any (λ (y : Session). has_key r.tenant_id r.session_id y) (x ∷ []) ≡ is_of tenant id r
only_key x tenant id own named r = ground (
  arith,
  own,
  named,
  ==_iff tenant r.tenant_id,
  ==_iff r.tenant_id tenant,
  ==_iff id r.session_id,
  ==_iff r.session_id id,
)

module _ (p : Postgres) (tenant : String) (id : ℕ) (x : Session) where
  module _ (own : x.tenant_id ≡ tenant) (named : x.id ≡ id)
      (row : keep (has_key tenant id) p.sessions ≡ x ∷ []) where
    -- The cascade takes the session's messages and no others.
    left :
        cascade (keep (has_key tenant id) p.sessions) p.messages
        ≡ keep (λ r. not (is_of tenant id r)) p.messages
    unfolding cascade
    left = rw row (keep_same _ _ p.messages λ r. ap not (only_key x tenant id own named r))

    pub delete-Elsewhere : Elsewhere tenant p (delete_where (has_key tenant id) p)
    unfolding delete_where
    delete-Elsewhere = record {
      sessions = λ other foreign.
          keep_absorb _ _ p.sessions
            λ y mine. ground (arith, mine, foreign, ==_apart y.tenant_id tenant other);
      messages = λ other j foreign.
          ap (keep (is_of other j)) left
          ∙ keep_absorb _ _ p.messages
              λ r mine. ground (arith, mine, foreign, ==_apart r.tenant_id tenant other);
    }

    pub delete-View :
        (server : Server) (s : Store)
        → IsPartition tenant s.history_cap (partition s tenant) (transcripts s tenant)
        → View server tenant p (partition s tenant) (transcripts s tenant)
        → View server tenant
            (delete_where (has_key tenant id) p)
            (remove (partition s tenant) id)
            (remove (transcripts s tenant) id)
    unfolding delete_where
    delete-View server s valid old = record {
      sessions =
          keep_swap _ _ p.sessions
          ∙ keep_agree (λ y. not (has_key tenant id y)) (λ y. not (y.id == id)) _ p.sessions
              (λ y mine. ground (arith, mine))
          ∙ ap (keep (λ y. not (y.id == id))) old.sessions
          ∙ sym (
              values-remove (λ (y : Session). y.id) (partition s tenant) id
                (partition-IsKeyed server tenant p s old valid id));
      transcript = λ j. elim (Bool-cases (id == j)) [
        | inl same ↦
            rw (found j, same)
              (record {
                rows =
                    ap (keep (is_of tenant j)) left
                    ∙ keep_nothing _ _ p.messages
                        (λ r mine. ground (arith, mine, same, ==_iff id j));
                timely = tt;
                storable = tt;
              })
        | inr other ↦
            rw (found j, other)
              (kept_rows (delete_where (has_key tenant id) p)
                (ap (keep (is_of tenant j)) left
                  ∙ keep_absorb _ _ p.messages
                      (λ r mine. ground (arith, mine, other, ==_apart r.session_id id j)))
                (old.transcript j))
      ];
    }
      where
        found :
            (j : ℕ)
            → get_or (remove (transcripts s tenant) id) j []
              ≡ (if id == j then [] else get_or (transcripts s tenant) j [])
        found j = unfold get_or in ground (arith, get-remove (transcripts s tenant) id j)
