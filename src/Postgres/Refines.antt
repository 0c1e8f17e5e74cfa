-- ===== src/Postgres/Refines.antt =====
-- `PostgresSessionStore` of bat/adapters/session_store_postgres.py refines the store that
-- bat/adapters/session_store_memory.py keeps in dictionaries.
use bat_ai.Prelude.{ℕ, ◌≡◌, refl, ap, List, [], ◌∷◌, Option, String, string_eq, nat_eq}
use bat_ai.Prelude.Text.{Text}
use bat_ai.Tools.Registry.{Outcome, returns}
use bat_ai.Sessions.Store.{
  Store, Cursor, malformed, after, partition, transcripts, open_sessions, open_messages, load,
  or_ttl, owned, last, candidates, paginate, with_session, create_session, get_session,
  list_sessions, delete_session, append_message, get_history,
}
use bat_ai.Sessions.Invariant.{IsValid}
use bat_ai.Sessions.Calls.{
  Call, create, fetch, list, delete, append, history, Answer, perform-IsValid,
}
use bat_ai.Sessions.Purge.{purge_expired-IsValid}
use bat_ai.Postgres.Purge.{purge_alike}
use bat_ai.Postgres.Tables.{Server}
use bat_ai.Postgres.Store.{
  Postgres, has_key, has_message_key, is_live, is_of, is_counted, with_connection, bump,
}
use bat_ai.Postgres.Calls.{outcome_of}
use bat_ai.Postgres.Agreement.{Agree}
use bat_ai.Postgres.Changes.{Fits, perform_alike}
use bat_ai.Sessions.Calls as InMemory
use bat_ai.Sessions.Store as Memory
use bat_ai.Postgres.Store as Statements
use bat_ai.Postgres.Calls as InPostgres

-- A call of a tenant, or a sweep, each with its time.
pub data Step : Type 0 where
  call : ℕ → String → Call → Step
  purge : ℕ → Step

pub data Reply : Type 0 where
  called : Outcome Answer → Reply
  purged : Outcome ℕ → Reply

unfoldable pub step : Server → Option Text → Postgres → Step → Reply × Postgres
step server trouble p (call now tenant c) =
    let (a, q) = InPostgres.perform server trouble p now tenant c in (called a, q)
step server trouble p (purge now) =
    let (n, q) = Statements.purge_expired trouble p now in (purged n, q)

unfoldable pub step_in_memory : Store → Step → Reply × Store
step_in_memory s (call now tenant c) =
    let (a, t) = InMemory.perform s now tenant c in (called (outcome_of a), t)
step_in_memory s (purge now) = let (n, t) = Memory.purge_expired s now in (purged (returns n), t)

unfoldable pub run : Server → Option Text → Postgres → List Step → List Reply × Postgres
run server trouble p [] = ([], p)
run server trouble p (x ∷ steps) =
    let (a, q) = step server trouble p x in
    let (rest, r) = run server trouble q steps in (a ∷ rest, r)

unfoldable pub run_in_memory : Store → List Step → List Reply × Store
run_in_memory s [] = ([], s)
run_in_memory s (x ∷ steps) =
    let (a, t) = step_in_memory s x in let (rest, u) = run_in_memory t steps in (a ∷ rest, u)

-- A step fits where its call does.
unfoldable pub FitsStep : Server → Postgres → Store → Step → Type 0
unfolding Fits
FitsStep server p s (call now tenant c) = Fits server p s now tenant c
FitsStep server p s (purge now) = Unit

-- Each step fits where it is made.
unfoldable pub FitAll : Server → Option Text → Postgres → Store → List Step → Type 0
unfolding FitsStep
FitAll server trouble p s [] = Unit
FitAll server trouble p s (x ∷ steps) =
    FitsStep server p s x
    × FitAll server trouble (step server trouble p x).1 (step_in_memory s x).1 steps

step-Agree :
    (server : Server) (trouble : Option Text) (p : Postgres) (s : Store) (x : Step)
    → Agree server p s
    → IsValid s
    → FitsStep server p s x
    → ((step server trouble p x).0 ≡ (step_in_memory s x).0)
      × (Agree server (step server trouble p x).1 (step_in_memory s x).1
          × IsValid (step_in_memory s x).1)
unfolding step step_in_memory FitsStep
step-Agree server trouble p s (call now tenant c) a v fits =
    let both = perform_alike server trouble p s now tenant c a v fits in
    (ap called both.0, (both.1, perform-IsValid s now tenant c v))
step-Agree server trouble p s (purge now) a v fits =
    let both = purge_alike server p s now a v trouble in
    (ap purged both.0, (both.1, purge_expired-IsValid s now v))

-- The Postgres store refines the one in memory. From tables and dictionaries that agree, any
-- sequence of calls of any tenants and of sweeps, each at one time of both clocks, that fits gets
-- the same replies from both stores, errors included, and leaves tables and dictionaries that
-- agree. A sequence fits where no id that is drawn for a session is taken in its tenant, no listing
-- has the empty text for its cursor, no expired session is deleted before a sweep, no history of
-- zero messages is asked for, and each message that is appended has no tool result, has calls with
-- ids, names and arguments that `jsonb` keeps, is created after those of its transcript, and has an
-- id that is not taken.
pub run-Agree :
    (server : Server) (trouble : Option Text) (steps : List Step) (p : Postgres) (s : Store)
    → Agree server p s
    → IsValid s
    → FitAll server trouble p s steps
    → ((run server trouble p steps).0 ≡ (run_in_memory s steps).0)
      × Agree server (run server trouble p steps).1 (run_in_memory s steps).1
unfolding run run_in_memory FitAll
run-Agree server trouble [] p s a v fits = (refl, a)
run-Agree server trouble (x ∷ steps) p s a v fits =
    let here = step-Agree server trouble p s x a v fits.0 in
    let rest =
      run-Agree server trouble steps (step server trouble p x).1 (step_in_memory s x).1 here.1.0
        here.1.1 fits.1 in
    (rw (here.0, rest.0) refl, rest.1)
