-- ===== src/Postgres/Store.antt =====
-- bat/adapters/session_store_postgres.py: `PostgresSessionStore`, with what its statements do to
-- the tables. `now` is the reading of Python's clock and `at` the database's `now()`. A statement
-- that violates a key raises, and its transaction leaves the tables as they were. What else the
-- driver may raise is left out, but for the opening of the pool.
use bat_ai.Prelude.{
  ℕ, ◌+◌, Bool, true, false, ◌&&◌, ◌||◌, not, List, [], ◌∷◌, ◌++◌, Option, none, some, String,
  if◌then◌else◌, ◌==◌, string_eq, nat_eq, nat_beq, leb, ltb, length, take, drop, keep, map,
  contains, is_some,
}
use bat_ai.Prelude.Text.{Text, codes}
use bat_ai.Domain.Errors.{error, not_found, conflict, validation, upstream}
use bat_ai.Domain.Conversation.{Session, Message, Page, create, is_expired}
use bat_ai.Tools.Registry.{Outcome, returns, raises, crashes}
use bat_ai.Sessions.Order.{precedes}
use bat_ai.Sessions.Store.{Cursor, empty, malformed, after, is_owner, last_cursor, or_ttl}
use bat_ai.Postgres.Tables.{
  MessageRow, Server, first, any, oldest_first, newest_first, to_row, to_messages,
}
use bat_ai.Sessions.Order

pub record Postgres : Type 0 where
  -- the pool is open
  pub pool : Bool
  pub ttl : Option ℕ
  pub max_per_principal : ℕ
  pub history_cap : ℕ
  pub sessions : List Session
  pub messages : List MessageRow

-- `connect`; the failure of `create_pool` is its message. The schema is applied already.
unfoldable pub connect : Option Text → Postgres → Outcome (Unit {0}) × Postgres
connect trouble p = if p.pool then (returns tt, p) else elim trouble [
  | none ↦ (returns tt, record p { pool = true })
  | some reason ↦ (raises (error upstream (codes "could not connect to Postgres: " ++ reason)), p)
]

unfoldable pub close : Postgres → Postgres
close p = record p { pool = false }

-- `async with await self._acquire()`
unfoldable pub with_connection :
    {A : Type 0} → Option Text → Postgres → (Postgres → Outcome A × Postgres) → Outcome A × Postgres
with_connection trouble p body = if p.pool then body p else elim trouble [
  | none ↦ body (record p { pool = true })
  | some reason ↦ (raises (error upstream (codes "could not connect to Postgres: " ++ reason)), p)
]

-- `tenant_id = $1 AND id = $2`
abbrev pub has_key : String → ℕ → Session → Bool
has_key tenant id x = x.tenant_id == tenant && x.id == id

-- `... AND (expires_at IS NULL OR expires_at > now())`
abbrev pub is_live : ℕ → String → ℕ → Session → Bool
is_live at tenant id x = has_key tenant id x && not (is_expired x at)

-- `tenant_id = $1 AND session_id = $2`
abbrev pub is_of : String → ℕ → MessageRow → Bool
is_of tenant id r = r.tenant_id == tenant && r.session_id == id

abbrev pub has_message_key : String → String → MessageRow → Bool
has_message_key tenant id r = r.tenant_id == tenant && r.id == id

-- The rows that the quota counts.
abbrev pub is_counted : ℕ → String → String → Session → Bool
is_counted at tenant principal x =
    x.tenant_id == tenant && (x.principal_id == principal && not (is_expired x at))

-- `create_session`: the row is inserted where the count allows it, unless its key is there.
unfoldable pub create_session :
    Option Text
    → Postgres
    → ℕ
    → ℕ
    → ℕ
    → String
    → String
    → Option String
    → Option ℕ
    → Outcome Session × Postgres
unfolding with_connection or_ttl create
create_session trouble p now at id tenant principal title ttl =
    let session = create id now tenant principal title (or_ttl ttl p.ttl) in
    with_connection trouble p λ q.
      if ltb (length (keep (is_counted at tenant principal) q.sessions)) q.max_per_principal
      then (if is_some (first (keep (has_key tenant id) q.sessions))
          then (crashes, q)
          else (returns session, record q { sessions = q.sessions ++ session ∷ [] }))
      else (raises (error conflict (codes "session limit reached for this user")), q)

unfoldable pub get_session : Option Text → Postgres → ℕ → String → ℕ → Outcome Session × Postgres
unfolding with_connection
get_session trouble p at tenant id = with_connection trouble p λ q.
    elim (first (keep (is_live at tenant id) q.sessions)) [
      | none ↦ (raises (error not_found (codes "session not found")), q)
      | some row ↦ (returns row, q)
    ]

-- `$3 IS NULL OR (created_at, id) < ($3, $4)`
abbrev pub is_after : Option (ℕ × ℕ) → Session → Bool
is_after none x = true
is_after (some (created, id)) x = precedes x created id

abbrev pub is_listed : ℕ → String → Option String → Option (ℕ × ℕ) → Session → Bool
is_listed at tenant principal start x =
    x.tenant_id == tenant && ((not (is_expired x at) && is_owner principal x) && is_after start x)

-- The page of at most one row more than the limit.
unfoldable pub page_of_rows : ℕ → List Session → Page
unfolding last_cursor
page_of_rows limit rows =
    let items = take limit rows in
    record {
      items = items;
      next_cursor = if ltb limit (length rows) then last_cursor items else none;
    }

-- `_decode_cursor(cursor) if cursor else (None, None)`; `none` is its `ValidationError`.
unfoldable pub start_of : Option Cursor → Option (Option (ℕ × ℕ))
start_of none = some none
start_of (some empty) = some none
start_of (some malformed) = none
start_of (some (after created id)) = some (some (created, id))

unfoldable pub list_from :
    Option Text
    → Postgres
    → ℕ
    → String
    → Option String
    → ℕ
    → Option (ℕ × ℕ)
    → Outcome Page × Postgres
unfolding with_connection page_of_rows
list_from trouble p at tenant principal limit start = with_connection trouble p λ q. (
  returns (
      page_of_rows limit (
        take (limit + 1)
          (Order.newest_first (keep (is_listed at tenant principal start) q.sessions)))),
  q,
)

unfoldable pub list_sessions :
    Option Text
    → Postgres
    → ℕ
    → String
    → Option String
    → ℕ
    → Option Cursor
    → Outcome Page × Postgres
unfolding start_of list_from
list_sessions trouble p at tenant principal limit cursor =
    if not (leb 1 limit && leb limit 100)
    then (raises (error validation (codes "limit must be between 1 and 100")), p)
    else elim (start_of cursor) [
      | none ↦ (raises (error validation (codes "malformed cursor")), p)
      | some start ↦ list_from trouble p at tenant principal limit start
    ]

-- `ON DELETE CASCADE`: the messages that are left when some sessions go.
unfoldable pub cascade : List Session → List MessageRow → List MessageRow
cascade gone rows =
    keep (λ r. not (any (λ (x : Session). has_key r.tenant_id r.session_id x) gone)) rows

-- `DELETE FROM bat_sessions WHERE ...`
unfoldable pub delete_where : (Session → Bool) → Postgres → Postgres
unfolding cascade
delete_where p q = record q {
  sessions = keep (λ x. not (p x)) q.sessions;
  messages = cascade (keep p q.sessions) q.messages;
}

unfoldable pub delete_session : Option Text → Postgres → String → ℕ → Outcome (Unit {0}) × Postgres
unfolding with_connection delete_where
delete_session trouble p tenant id = with_connection trouble p λ q.
    if is_some (first (keep (has_key tenant id) q.sessions))
    then (returns tt, delete_where (has_key tenant id) q)
    else (raises (error not_found (codes "session not found")), q)

-- The columns that `append_message` updates.
unfoldable pub bump : ℕ → Option ℕ → Session → Session
bump at ttl x = record x {
  updated_at = at;
  message_count = x.message_count + 1;
  expires_at = elim ttl [ none ↦ x.expires_at | some t ↦ some (at + t) ];
}

unfoldable pub update_where : {A : Type 0} → (A → Bool) → (A → A) → List A → List A
update_where p f [] = []
update_where p f (x ∷ xs) = let rest = update_where p f xs in (if p x then f x else x) ∷ rest

module _ (server : Server) where
  -- `DELETE ... WHERE id IN (SELECT ... OFFSET $3)`
  unfoldable pub trim : ℕ → String → ℕ → List MessageRow → List MessageRow
  unfolding newest_first
  trim cap tenant id rows =
      let old =
        map (λ (r : MessageRow). r.id)
          (drop cap (newest_first server (keep (is_of tenant id) rows))) in
      keep (λ r. not (is_of tenant id r && contains r.id old)) rows

  unfoldable pub append_message :
      Option Text → Postgres → ℕ → String → ℕ → Message → Outcome Message × Postgres
  unfolding with_connection update_where bump trim to_row
  append_message trouble p at tenant id message =
      if not (message.tenant_id == tenant) || not (message.session_id == id)
      then (raises (error validation (codes "message does not belong to the target session")), p)
      else with_connection trouble p λ q.
        if not (is_some (first (keep (is_live at tenant id) q.sessions)))
        then (raises (error not_found (codes "session not found")), q)
        else if is_some (first (keep (has_message_key tenant message.id) q.messages))
        then (crashes, q)
        else (
          returns message,
          record q {
            sessions = update_where (is_live at tenant id) (bump at q.ttl) q.sessions;
            messages =
                trim q.history_cap tenant id (q.messages ++ to_row server tenant id message ∷ []);
          },
        )

  unfoldable pub get_history :
      Option Text → Postgres → ℕ → String → ℕ → ℕ → Outcome (List Message) × Postgres
  unfolding with_connection oldest_first newest_first to_messages
  get_history trouble p at tenant id limit =
      if nat_beq limit 0
      then (returns [], p)
      else with_connection trouble p λ q.
        if not (is_some (first (keep (is_live at tenant id) q.sessions)))
        then (raises (error not_found (codes "session not found")), q)
        else (
          elim (to_messages server (
              oldest_first server
                (take limit (newest_first server (keep (is_of tenant id) q.messages))))) [
                  | none ↦ crashes
                  | some ms ↦ returns ms
                ],
          q,
        )

-- `purge_expired`: the rows of all tenants that have expired.
unfoldable pub purge_expired : Option Text → Postgres → ℕ → Outcome ℕ × Postgres
unfolding with_connection delete_where
purge_expired trouble p at = with_connection trouble p λ q. (
  returns (length (keep (λ x. is_expired x at) q.sessions)),
  delete_where (λ x. is_expired x at) q,
)
