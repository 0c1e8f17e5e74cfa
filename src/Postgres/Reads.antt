-- ===== src/Postgres/Reads.antt =====
-- The methods of bat/adapters/session_store_postgres.py that only read, beside those of
-- bat/adapters/session_store_memory.py.
use bat_ai.Prelude.{
  Bool, ℕ, ◌≡◌, refl, ap, ◌∙◌, inl, inr, true, false, ◌&&◌, [], Option, none, some, String, arith,
  string_eq, nat_eq, nat_beq, leb, Bool-cases, keep, is_some, take,
}
use bat_ai.Prelude.Dict.{get_or, get_or-setdefault}
use bat_ai.Prelude.Text.{Text, codes}
use bat_ai.Domain.Errors.{BatError, Result, ok, raise, error, validation}
use bat_ai.Domain.Conversation.{Session}
use bat_ai.Tools.Registry.{Outcome, raises}
use bat_ai.Sessions.Store.{
  empty, Store, Cursor, malformed, after, transcripts, open_sessions, open_messages, load, last,
  candidates, paginate, with_session, get_session, list_sessions, get_history,
}
use bat_ai.Sessions.Invariant.{IsValid, Belongs, old_transcript, All-last}
use bat_ai.Sessions.Calls.{
  Call, create, fetch, list, delete, append, history, Answer, perform-IsValid,
}
use bat_ai.Postgres.Tables.{Server, first, to_row, to_messages, oldest_first, newest_first}
use bat_ai.Postgres.Store.{
  Postgres, has_key, has_message_key, is_live, is_of, is_counted, with_connection, bump,
}
use bat_ai.Postgres.Calls.{outcome_of}
use bat_ai.Postgres.Sorting.{recent_lem}
use bat_ai.Postgres.Agreement.{IsStorable, to_messages-to_row, Agree, find}
use bat_ai.Postgres.Appends.{last-map}
use bat_ai.Postgres.Listing.{page_lem, first_page_lem}
use bat_ai.Sessions.Calls as InMemory
use bat_ai.Postgres.Store as Statements
use bat_ai.Postgres.Calls as InPostgres

-- A cursor that is the empty text.
abbrev pub is_empty_text : Option Cursor → Bool
is_empty_text (some empty) = true
is_empty_text _ = false

-- The same answer, and tables and dictionaries that agree again.
abbrev pub Alike : Server → Outcome Answer × Postgres → Result Answer × Store → Type 0
Alike server a b = (a.0 ≡ outcome_of b.0) × Agree server a.1 b.1

-- A call in both stores.
abbrev pub AlikeFor : Server → Option Text → Postgres → Store → ℕ → String → Call → Type 0
AlikeFor server trouble p s now tenant c =
    Alike server (InPostgres.perform server trouble p now tenant c)
      (InMemory.perform s now tenant c)

-- An open pool is used as it is.
pub connected_lem :
    {A : Type 0} (trouble : Option Text) (p : Postgres) (body : Postgres → Outcome A × Postgres)
    → p.pool ≡ true
    → with_connection trouble p body ≡ body p
unfolding with_connection
connected_lem trouble p body h = ground (arith, h)

module _ {A : Type 0} (s : Store) (now : ℕ) (tenant : String) (id : ℕ)
    (next : Session → Result A × Store) where
  pub with_session_found :
      {x : Session} → load s now tenant id ≡ ok x → with_session s now tenant id next ≡ next x
  unfolding with_session
  with_session_found h = rw (h, with_session) refl

  pub with_session_missing :
      {e : BatError}
      → load s now tenant id ≡ raise e
      → with_session s now tenant id next ≡ (raise e, open_sessions s tenant)
  unfolding with_session open_sessions
  with_session_missing h = rw (h, with_session) refl

module _ (server : Server) (trouble : Option Text) (p : Postgres) (s : Store) (now : ℕ)
    (tenant : String) (agree : Agree server p s) (valid : IsValid s) where
  -- A partition that a look-up leaves behind is of no consequence.
  pub open_sessions-Agree : Agree server p (open_sessions s tenant)
  unfolding open_sessions
  open_sessions-Agree = record {
    connected = agree.connected;
    ttl = agree.ttl;
    lasting = agree.lasting;
    limit = agree.limit;
    cap = agree.cap;
    view = λ t. rw get_or-setdefault (agree.view t);
  }

  open_both-Agree : Agree server p (open_messages (open_sessions s tenant) tenant)
  unfolding open_sessions open_messages
  open_both-Agree = record {
    connected = agree.connected;
    ttl = agree.ttl;
    lasting = agree.lasting;
    limit = agree.limit;
    cap = agree.cap;
    view = λ t. rw (get_or-setdefault, get_or-setdefault) (agree.view t);
  }

  -- The rows that are read back are the end of the transcript.
  read_lem :
      (id limit : ℕ)
      → to_messages server (
          oldest_first server
            (take limit (newest_first server (keep (is_of tenant id) p.messages))))
        ≡ some (last limit (get_or (transcripts s tenant) id []))
  read_lem id limit =
      let view = agree.view tenant in
      ap (λ rows. to_messages server (oldest_first server (take limit (newest_first server rows))))
        (view.transcript id).rows
      ∙ ap (to_messages server) (
          recent_lem server limit _ (view.transcript id).timely
          ∙ last-map (to_row server tenant id) limit _)
      ∙ to_messages-to_row server tenant id _
          (All-last (Belongs tenant id) limit _ (old_transcript s tenant id valid))
          (All-last (IsStorable server) limit _ (view.transcript id).storable)

  pub fetch_alike : (id : ℕ) → AlikeFor server trouble p s now tenant (fetch id)
  unfolding InPostgres.perform InMemory.perform Statements.get_session get_session
      InPostgres.answered
  fetch_alike id = elim (find server tenant p s (agree.view tenant) (valid.at tenant) id now) [
    | inl (x, loaded, found, there, live) ↦
        rw (connected_lem trouble p _ agree.connected, found, loaded) (refl, open_sessions-Agree)
    | inr (failed, absent) ↦
        rw (connected_lem trouble p _ agree.connected, absent, failed) (refl, open_sessions-Agree)
  ]

  pub list_alike :
      (principal : Option String) (limit : ℕ) (cursor : Option Cursor)
      → is_empty_text cursor ≡ false
      → AlikeFor server trouble p s now tenant (list principal limit cursor)
  unfolding InPostgres.perform InMemory.perform Statements.list_sessions list_sessions
      Statements.list_from Statements.start_of InPostgres.answered
  list_alike principal limit cursor given = elim (Bool-cases (leb 1 limit && leb limit 100)) [
    | inr bad ↦ rw bad (refl, agree)
    | inl fine ↦ rw fine (within cursor given)
  ]
    where
      within :
          (cursor : Option Cursor)
          → is_empty_text cursor ≡ false
          → Alike server
              (InPostgres.answered InMemory.page (elim (Statements.start_of cursor) [
                | none ↦ (raises (error validation (codes "malformed cursor")), p)
                | some start ↦ Statements.list_from trouble p now tenant principal limit start
              ]))
              (InMemory.answer InMemory.page
                (paginate limit (candidates s now tenant principal) cursor, open_sessions s tenant))
      within none given =
          rw
            (
              connected_lem trouble p _ agree.connected,
              first_page_lem server p s tenant now principal (valid.at tenant) (agree.view tenant)
                  limit,
            )
            (refl, open_sessions-Agree)
      within (some empty) given = absurd (ground (arith, given))
      within (some malformed) given = (unfold paginate in refl, open_sessions-Agree)
      within (some (after created id)) given =
          rw
            (
              connected_lem trouble p _ agree.connected,
              page_lem server p s tenant now principal (valid.at tenant) (agree.view tenant) limit
                  (some (created, id)),
            )
            (refl, open_sessions-Agree)

  pub history_alike :
      (id limit : ℕ)
      → nat_beq limit 0 ≡ false
      → AlikeFor server trouble p s now tenant (history id limit)
  unfolding InPostgres.perform InMemory.perform Statements.get_history get_history
      InPostgres.answered
  history_alike id limit some_asked =
      elim (find server tenant p s (agree.view tenant) (valid.at tenant) id now) [
        | inr (failed, absent) ↦
            rw
              (
                some_asked,
                connected_lem trouble p _ agree.connected,
                absent,
                with_session_missing s now tenant id _ failed,
              )
              (refl, open_sessions-Agree)
        | inl (x, loaded, found, there, live) ↦
            let present : is_some (first (keep (is_live now tenant id) p.sessions)) ≡ true =
              ap is_some found in
            rw
              (
                some_asked,
                connected_lem trouble p _ agree.connected,
                present,
                with_session_found s now tenant id _ loaded,
                read_lem id limit,
              )
              (refl, open_both-Agree)
      ]
