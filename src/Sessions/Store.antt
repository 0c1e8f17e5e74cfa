-- ===== src/Sessions/Store.antt =====
-- `InMemorySessionStore`: tenant-partitioned sessions and transcripts. Each method reads the clock
-- once, `now`; the lock makes a method one step. An id that `new_id` draws is an argument, and a
-- cursor is what its base64 text decodes to.
use bat_ai.Prelude.{
  ℕ, zero, suc, ◌+◌, ◌-◌, Bool, true, ◌&&◌, ◌||◌, not, List, [], ◌∷◌, ◌++◌, Option, none, some,
  String, if◌then◌else◌, ◌==◌, nat_eq, string_eq, leb, ltb, length, take, drop, keep,
}
use bat_ai.Prelude.Dict.{Dict, get, put, remove, get_or, setdefault, values, selected, remove_all}
use bat_ai.Prelude.Text.{codes}
use bat_ai.Domain.Errors.{Result, ok, raise, error, not_found, conflict, validation}
use bat_ai.Domain.Conversation.{Session, Message, Page, create, is_expired, touch}
use bat_ai.Sessions.Order.{precedes, newest_first}

pub record Store : Type 0 where
  pub ttl : Option ℕ
  pub max_per_principal : ℕ
  pub history_cap : ℕ
  pub sessions : Dict String (Dict ℕ Session)
  pub messages : Dict String (Dict ℕ (List Message))

-- `_tenant_sessions`: the partition; the call also leaves an empty one behind where there was none.
abbrev pub partition : Store → String → Dict ℕ Session
partition s tenant = get_or s.sessions tenant []

abbrev pub transcripts : Store → String → Dict ℕ (List Message)
transcripts s tenant = get_or s.messages tenant []

unfoldable pub open_sessions : Store → String → Store
unfolding setdefault
open_sessions s tenant = record s { sessions = setdefault s.sessions tenant [] }

unfoldable pub open_messages : Store → String → Store
unfolding setdefault
open_messages s tenant = record s { messages = setdefault s.messages tenant [] }

live_session : ℕ → Option Session → Result Session
live_session now none = raise (error not_found (codes "session not found"))
live_session now (some session) =
    if is_expired session now
    then raise (error not_found (codes "session not found"))
    else ok session

-- `_load`, less the empty partition that it may leave.
unfoldable pub load : Store → ℕ → String → ℕ → Result Session
unfolding live_session
load s now tenant id = live_session now (get (partition s tenant) id)

-- `ttl or self._ttl`
unfoldable pub or_ttl : Option ℕ → Option ℕ → Option ℕ
or_ttl none default = default
or_ttl (some zero) default = default
or_ttl (some (suc t)) default = some (suc t)

abbrev pub owned : ℕ → String → List Session → List Session
owned now principal = keep (λ x. x.principal_id == principal && not (is_expired x now))

unfoldable pub create_session :
    Store → ℕ → ℕ → String → String → Option String → Option ℕ → Result Session × Store
unfolding open_sessions or_ttl create
create_session s now id tenant principal title ttl =
    let session = create id now tenant principal title (or_ttl ttl s.ttl) in
    if leb s.max_per_principal (length (owned now principal (values (partition s tenant))))
    then (
      raise (error conflict (codes "session limit reached for this user")),
      open_sessions s tenant,
    )
    else (
      ok session,
      record s {
        sessions = put s.sessions tenant (put (partition s tenant) id session);
        messages = put s.messages tenant (put (transcripts s tenant) id []);
      },
    )

unfoldable pub get_session : Store → ℕ → String → ℕ → Result Session × Store
unfolding load open_sessions
get_session s now tenant id = (load s now tenant id, open_sessions s tenant)

pub data Cursor : Type 0 where
  -- the empty text, which decodes to nothing
  empty : Cursor
  malformed : Cursor
  after : ℕ → ℕ → Cursor

-- `principal_id is None or s.principal_id == principal_id`
unfoldable pub is_owner : Option String → Session → Bool
is_owner none x = true
is_owner (some principal) x = x.principal_id == principal

abbrev pub candidates : Store → ℕ → String → Option String → List Session
candidates s now tenant principal =
    newest_first
      (keep (λ x. not (is_expired x now) && is_owner principal x) (values (partition s tenant)))

-- The last item's cursor.
unfoldable pub last_cursor : List Session → Option (ℕ × ℕ)
last_cursor [] = none
last_cursor (x ∷ []) = some (x.created_at, x.id)
last_cursor (x ∷ y ∷ ys) = last_cursor (y ∷ ys)

-- The window of a page, and its cursor if there is more.
unfoldable pub page_of : ℕ → List Session → Page
unfolding last_cursor
page_of limit found =
    let window = take (suc limit) found in
    let items = take limit window in
    record {
      items = items;
      next_cursor = if ltb limit (length window) then last_cursor items else none;
    }

unfoldable pub paginate : ℕ → List Session → Option Cursor → Result Page
unfolding page_of
paginate limit found none = ok (page_of limit found)
paginate limit found (some empty) = raise (error validation (codes "malformed cursor"))
paginate limit found (some malformed) = raise (error validation (codes "malformed cursor"))
paginate limit found (some (after created id)) =
    ok (page_of limit (keep (λ x. precedes x created id) found))

unfoldable pub list_sessions :
    Store → ℕ → String → Option String → ℕ → Option Cursor → Result Page × Store
unfolding paginate open_sessions
list_sessions s now tenant principal limit cursor =
    if leb 1 limit && leb limit 100
    then (paginate limit (candidates s now tenant principal) cursor, open_sessions s tenant)
    else (raise (error validation (codes "limit must be between 1 and 100")), s)

-- A method that loads the session first and goes on with it.
unfoldable pub with_session :
    {A : Type 0} → Store → ℕ → String → ℕ → (Session → Result A × Store) → Result A × Store
unfolding load open_sessions
with_session s now tenant id next = elim (load s now tenant id) [
  | raise e ↦ (raise e, open_sessions s tenant)
  | ok session ↦ next session
]

unfoldable pub delete_session : Store → ℕ → String → ℕ → Result (Unit {0}) × Store
unfolding with_session
delete_session s now tenant id = with_session s now tenant id λ _. (
  ok tt,
  record s {
    sessions = put s.sessions tenant (remove (partition s tenant) id);
    messages = put s.messages tenant (remove (transcripts s tenant) id);
  },
)

-- `del transcript[: len(transcript) - cap]`, if it is longer than the cap.
unfoldable pub last : {A : Type 0} → ℕ → List A → List A
last n l = drop (length l - n) l

unfoldable pub append_message : Store → ℕ → String → ℕ → Message → Result Message × Store
unfolding with_session last touch
append_message s now tenant id message =
    if not (message.tenant_id == tenant) || not (message.session_id == id)
    then (raise (error validation (codes "message does not belong to the target session")), s)
    else with_session s now tenant id λ session. (
      ok message,
      record s {
        messages = put s.messages tenant (
            put (transcripts s tenant) id
              (last s.history_cap (get_or (transcripts s tenant) id [] ++ message ∷ [])));
        sessions = put s.sessions tenant (put (partition s tenant) id (touch session now 1 s.ttl));
      },
    )

-- `transcript[-limit:] if limit > 0 else ()`
unfoldable pub get_history : Store → ℕ → String → ℕ → ℕ → Result (List Message) × Store
unfolding with_session last open_sessions open_messages
get_history s now tenant id limit = with_session s now tenant id λ _. (
  ok (last limit (get_or (transcripts s tenant) id [])),
  open_messages (open_sessions s tenant) tenant,
)

-- The ids of a partition that have expired.
abbrev pub expired_ids : ℕ → Dict ℕ Session → List ℕ
expired_ids now d = selected (λ id x. is_expired x now) d

-- The inner loop's writes to the transcripts of one tenant.
unfoldable pub purge_messages :
    Dict String (Dict ℕ (List Message)) → String → List ℕ → Dict String (Dict ℕ (List Message))
unfolding remove_all
purge_messages messages tenant [] = messages
purge_messages messages tenant (k ∷ ks) =
    put messages tenant (remove_all (get_or messages tenant []) (k ∷ ks))

-- The loop over the tenants: what is left of the partitions and of the transcripts, and the count.
unfoldable pub purge_tenants :
    ℕ
    → Dict String (Dict ℕ Session)
    → Dict String (Dict ℕ (List Message))
    → Dict String (Dict ℕ Session) × Dict String (Dict ℕ (List Message)) × ℕ
unfolding purge_messages remove_all
purge_tenants now [] messages = ([], messages, 0)
purge_tenants now ((tenant, d) ∷ rest) messages =
    let gone = expired_ids now d in
    let (rest', messages', removed) =
      purge_tenants now rest (purge_messages messages tenant gone) in
    ((tenant, remove_all d gone) ∷ rest', messages', length gone + removed)

unfoldable pub purge_expired : Store → ℕ → ℕ × Store
unfolding purge_tenants
purge_expired s now =
    let (sessions, messages, removed) = purge_tenants now s.sessions s.messages in
    (removed, record s { sessions = sessions; messages = messages })
