-- ===== src/Postgres/Changes.antt =====
-- The methods of bat/adapters/session_store_postgres.py that write, and then all methods, beside
-- those of bat/adapters/session_store_memory.py.
use bat_ai.Prelude.{
  ℕ, ◌≡◌, refl, sym, ap, ◌∙◌, inl, inr, true, false, ◌&&◌, ◌||◌, not, [], ◌∷◌, Option, none, String,
  arith, ◌==◌, string_eq, nat_eq, nat_beq, leb, ltb, length, Bool-cases, Option-cases, All, keep,
  map, is_some, ◌++◌,
}
use bat_ai.Prelude.Dict.{get, get_or, values, get-Entries}
use bat_ai.Prelude.Text.{Text, codes}
use bat_ai.Domain.Errors.{ok, raise, error, not_found}
use bat_ai.Domain.Conversation.{Message, is_expired, touch}
use bat_ai.Sessions.Store.{
  Store, partition, transcripts, open_sessions, load, or_ttl, owned, last, create_session,
  delete_session, append_message,
}
use bat_ai.Sessions.Invariant.{IsValid, IsFiled}
use bat_ai.Sessions.Calls.{
  Call, create, fetch, list, delete, append, history, Answer, perform-IsValid,
}
use bat_ai.Sessions.Purge.{has_expired}
use bat_ai.Postgres.Tables.{Server, first, to_row}
use bat_ai.Postgres.Store.{
  Postgres, has_key, has_message_key, is_live, is_of, is_counted, with_connection, bump,
}
use bat_ai.Postgres.Calls.{outcome_of}
use bat_ai.Postgres.Rows.{keep-keep}
use bat_ai.Postgres.Sorting.{Before}
use bat_ai.Postgres.Agreement.{IsStorable, Agree, find, rows_of_key}
use bat_ai.Postgres.Writes.{
  write-Agree, insert-Elsewhere, insert-View, delete-Elsewhere, delete-View,
}
use bat_ai.Postgres.Appends.{append-Elsewhere, append-View, bump-touch}
use bat_ai.Postgres.Reads.{
  is_empty_text, AlikeFor, connected_lem, with_session_found, with_session_missing,
  open_sessions-Agree, fetch_alike, list_alike, history_alike,
}
use bat_ai.Sessions.Calls as InMemory
use bat_ai.Postgres.Store as Statements
use bat_ai.Postgres.Calls as InPostgres

-- What the two stores must be spared to answer alike: a cursor that is the empty text, an id that
-- is taken, the deletion of a session that has expired, a message that the table cannot keep as it
-- is, that is not the newest of its transcript or whose id is taken, and a history of no messages.
unfoldable pub Fits : Server → Postgres → Store → ℕ → String → Call → Type 0
Fits server p s now tenant (create id principal title ttl) = get (partition s tenant) id ≡ none
Fits server p s now tenant (fetch id) = Unit
Fits server p s now tenant (list principal limit cursor) = is_empty_text cursor ≡ false
Fits server p s now tenant (delete id) = has_expired now (get (partition s tenant) id) ≡ false
Fits server p s now tenant (append id m) =
    IsStorable server m
    × All (λ r. Before r (to_row server tenant id m))
        (map (to_row server tenant id) (get_or (transcripts s tenant) id []))
    × (first (keep (has_message_key tenant m.id) p.messages) ≡ none)
Fits server p s now tenant (history id limit) = nat_beq limit 0 ≡ false

module _ (server : Server) (trouble : Option Text) (p : Postgres) (s : Store) (now : ℕ)
    (tenant : String) (agree : Agree server p s) (valid : IsValid s) where
  opened : Agree server p (open_sessions s tenant)
  opened = open_sessions-Agree server trouble p s now tenant agree valid

  -- Both count the same sessions.
  counted :
      (principal : String)
      → keep (is_counted now tenant principal) p.sessions
        ≡ owned now principal (values (partition s tenant))
  counted principal =
      keep-keep (λ x. x.tenant_id == tenant)
        (λ x. x.principal_id == principal && not (is_expired x now)) p.sessions
      ∙ ap (owned now principal) (agree.view tenant).sessions

  create_alike :
      (id : ℕ) (principal : String) (title : Option String) (ttl : Option ℕ)
      → get (partition s tenant) id ≡ none
      → AlikeFor server trouble p s now tenant (create id principal title ttl)
  unfolding InPostgres.perform InMemory.perform Statements.create_session create_session
      InPostgres.answered
  create_alike id principal title ttl fresh =
      let view = agree.view tenant in
      let absent : keep (has_key tenant id) p.sessions ≡ [] =
        rows_of_key server tenant p s view (valid.at tenant) id ∙ rw fresh refl in
      elim (Bool-cases
        (leb s.max_per_principal (length (owned now principal (values (partition s tenant)))))) [
          | inl over ↦
              let refused : ltb (length (owned now principal (values (partition s tenant))))
                    p.max_per_principal
                  ≡ false =
                ground (arith, over, agree.limit) in
              rw (connected_lem trouble p _ agree.connected, counted principal, refused, over)
                (refl, opened)
          | inr room ↦
              let allowed : ltb (length (owned now principal (values (partition s tenant))))
                    p.max_per_principal
                  ≡ true =
                ground (arith, room, agree.limit) in
              let lasts : or_ttl ttl p.ttl ≡ or_ttl ttl s.ttl = ap (or_ttl ttl) agree.ttl in
              rw
                (
                  connected_lem trouble p _ agree.connected,
                  counted principal,
                  allowed,
                  room,
                  absent,
                  lasts,
                )
                (
                  refl,
                  write-Agree server p s tenant agree _ _ _ _
                      (insert-View p tenant server (partition s tenant) (transcripts s tenant)
                        s.history_cap id _ refl fresh (valid.at tenant) view)
                      (insert-Elsewhere p tenant _ refl),
                )
        ]

  delete_alike :
      (id : ℕ)
      → has_expired now (get (partition s tenant) id) ≡ false
      → AlikeFor server trouble p s now tenant (delete id)
  unfolding InPostgres.perform InMemory.perform Statements.delete_session delete_session
      InPostgres.answered
  delete_alike id lasting =
      let view = agree.view tenant in
      let rows = rows_of_key server tenant p s view (valid.at tenant) id in
      elim (Option-cases (get (partition s tenant) id)) [
        | inl absent ↦
            let failed : load s now tenant id
                ≡ raise (error not_found (codes "session not found")) =
              unfold load in rw absent refl in
            rw
              (
                connected_lem trouble p _ agree.connected,
                rows,
                absent,
                with_session_missing s now tenant id _ failed,
              )
              (refl, opened)
        | inr (x, there) ↦
            let live : is_expired x now ≡ false = rw there at lasting in
            let filed =
              get-Entries (IsFiled tenant) (partition s tenant) id x there
                (valid.at tenant).filed in
            let row : keep (has_key tenant id) p.sessions ≡ x ∷ [] = rows ∙ rw there refl in
            let present : is_some (first (keep (has_key tenant id) p.sessions)) ≡ true =
              ap (λ l. is_some (first l)) row in
            let loaded : load s now tenant id ≡ ok x = unfold load in rw there (rw live refl) in
            rw
              (
                connected_lem trouble p _ agree.connected,
                present,
                with_session_found s now tenant id _ loaded,
              )
              (
                refl,
                write-Agree server p s tenant agree _ _ _ _
                    (delete-View p tenant id x filed.1 filed.0 row server s (valid.at tenant) view)
                    (delete-Elsewhere p tenant id x filed.1 filed.0 row),
              )
      ]

  append_alike :
      (id : ℕ) (m : Message)
      → Fits server p s now tenant (append id m)
      → AlikeFor server trouble p s now tenant (append id m)
  unfolding InPostgres.perform InMemory.perform Statements.append_message append_message
      InPostgres.answered Fits
  append_alike id m fits =
      elim (Bool-cases (not (m.tenant_id == tenant) || not (m.session_id == id))) [
        | inl foreign ↦ rw foreign (refl, agree)
        | inr own ↦ elim (find server tenant p s (agree.view tenant) (valid.at tenant) id now) [
          | inr (failed, absent) ↦
              rw
                (
                  own,
                  connected_lem trouble p _ agree.connected,
                  absent,
                  with_session_missing s now tenant id _ failed,
                )
                (refl, opened)
          | inl (x, loaded, found, there, live) ↦
              let free : is_some (first (keep (has_message_key tenant m.id) p.messages)) ≡ false =
                ap is_some fits.2 in
              let present : is_some (first (keep (is_live now tenant id) p.sessions)) ≡ true =
                ap is_some found in
              let lasts : or_ttl p.ttl none ≡ p.ttl =
                ap (λ t. or_ttl t none) agree.ttl ∙ agree.lasting ∙ sym agree.ttl in
              let bumped : touch x now 1 s.ttl ≡ bump now p.ttl x =
                ap (touch x now 1) (sym agree.ttl) ∙ sym (bump-touch now p.ttl x lasts) in
              let cut =
                ap (λ n. last n (get_or (transcripts s tenant) id [] ++ m ∷ [])) agree.cap in
              rw
                (
                  own,
                  connected_lem trouble p _ agree.connected,
                  present,
                  free,
                  with_session_found s now tenant id _ loaded,
                  bumped,
                  ← cut,
                )
                (
                  refl,
                  write-Agree server p s tenant agree _ _ _ _
                      (append-View server p s tenant id now x m (valid.at tenant)
                        (agree.view tenant) there live fits.1 fits.0)
                      (append-Elsewhere server p tenant id now m),
                )
        ]
      ]

-- Where the stores agree and a call fits, PostgresSessionStore answers as the store in memory does,
-- and tables and dictionaries agree again.
pub perform_alike :
    (server : Server) (trouble : Option Text) (p : Postgres) (s : Store) (now : ℕ) (tenant : String)
    (c : Call)
    → Agree server p s
    → IsValid s
    → Fits server p s now tenant c
    → AlikeFor server trouble p s now tenant c
unfolding Fits
perform_alike server trouble p s now tenant (create id principal title ttl) a v fits =
    create_alike server trouble p s now tenant a v id principal title ttl fits
perform_alike server trouble p s now tenant (fetch id) a v fits =
    fetch_alike server trouble p s now tenant a v id
perform_alike server trouble p s now tenant (list principal limit cursor) a v fits =
    list_alike server trouble p s now tenant a v principal limit cursor fits
perform_alike server trouble p s now tenant (delete id) a v fits =
    delete_alike server trouble p s now tenant a v id fits
perform_alike server trouble p s now tenant (append id m) a v fits =
    append_alike server trouble p s now tenant a v id m fits
perform_alike server trouble p s now tenant (history id limit) a v fits =
    history_alike server trouble p s now tenant a v id limit fits
