-- ===== src/Postgres/Calls.antt =====
-- The methods of bat/adapters/session_store_postgres.py as the calls of one tenant that
-- bat/ports/session_store.py has for every store.
use bat_ai.Prelude.{ℕ, Option, String}
use bat_ai.Prelude.Text.{Text}
use bat_ai.Domain.Errors.{Result, ok, raise}
use bat_ai.Tools.Registry.{Outcome, returns, raises, times_out, crashes, cancelled}
use bat_ai.Sessions.Calls.{
  Call, create, fetch, list, delete, append, history, Answer, session, page, message, messages,
  done,
}
use bat_ai.Postgres.Tables.{Server}
use bat_ai.Postgres.Store.{
  Postgres, create_session, get_session, list_sessions, delete_session, append_message, get_history,
}

-- What a method returns or raises, in the terms of all stores.
unfoldable pub answered :
    {A : Type 0} → (A → Answer) → Outcome A × Postgres → Outcome Answer × Postgres
answered f (returns a, p) = (returns (f a), p)
answered f (raises e, p) = (raises e, p)
answered f (times_out, p) = (times_out, p)
answered f (crashes, p) = (crashes, p)
answered f (cancelled, p) = (cancelled, p)

-- A call, at one time of both clocks.
unfoldable pub perform :
    Server → Option Text → Postgres → ℕ → String → Call → Outcome Answer × Postgres
unfolding answered
perform server trouble p now tenant (create id principal title ttl) =
    answered session (create_session trouble p now now id tenant principal title ttl)
perform server trouble p now tenant (fetch id) =
    answered session (get_session trouble p now tenant id)
perform server trouble p now tenant (list principal limit cursor) =
    answered page (list_sessions trouble p now tenant principal limit cursor)
perform server trouble p now tenant (delete id) =
    answered (λ _. done) (delete_session trouble p tenant id)
perform server trouble p now tenant (append id m) =
    answered message (append_message server trouble p now tenant id m)
perform server trouble p now tenant (history id limit) =
    answered messages (get_history server trouble p now tenant id limit)

-- The outcome of a call of the store in memory.
abbrev pub outcome_of : Result Answer → Outcome Answer
outcome_of (ok a) = returns a
outcome_of (raise e) = raises e
