-- ===== src/Api/Sessions.antt =====
-- bat/api/routers/sessions.py and the documents of bat/api/schemas.py that it answers with. The
-- metadata of a session is checked as it comes in, and as no code reads it later it is not kept
-- here. A session's id in a path is the number that its digits spell.
use bat_ai.Prelude.{
  ℕ, Bool, true, ◌&&◌, not, List, [], ◌∷◌, Option, none, some, String, if◌then◌else◌, map, leb,
  length, all,
}
use bat_ai.Prelude.Dict.{Dict}
use bat_ai.Prelude.Text.{Text, codes, strip}
use bat_ai.Rag.Chunking.{is_empty}
use bat_ai.Domain.Errors.{Result, ok, raise, error, validation}
use bat_ai.Domain.Tenancy.{Scope, TenantContext, sessions_read, sessions_write, require}
use bat_ai.Domain.Conversation.{Role, Session, Message, Page, ToolCall, Value, text}
use bat_ai.Sessions.Store.{
  Store, Cursor, create_session, list_sessions, get_session, get_history, delete_session,
}

-- `CreateSessionRequest`, before its checks.
pub record CreateSessionRequest : Type 0 where
  pub title : Option String
  pub metadata : Dict String Value

-- A text value of at most 1024 characters, or any other value.
short_value : Value → Bool
short_value (text s) = leb (length s) 1024
short_value v = true

-- The constraints on the title and the number of entries, and `_bound_metadata`.
unfoldable pub is_acceptable : CreateSessionRequest → Bool
unfolding short_value
is_acceptable r =
    title_fits r.title
    && (leb (length r.metadata) 32
        && all (λ (e : String × Value). leb (length (codes e.0)) 64 && short_value e.1) r.metadata)
  where
    title_fits : Option String → Bool
    title_fits none = true
    title_fits (some t) = leb 1 (length (codes t)) && leb (length (codes t)) 200

-- `_not_blank`, with the bounds of the field: the content without the space round it.
unfoldable pub not_blank : Text → Result Text
unfolding strip
not_blank v =
    if not (leb 1 (length v) && leb (length v) 32000)
    then raise (error validation (codes "request body or parameters failed validation"))
    else if is_empty (strip v)
    then raise (error validation (codes "request body or parameters failed validation"))
    else ok (strip v)

pub record SessionResponse : Type 0 where
  pub id : ℕ
  pub title : Option String
  pub created_at : ℕ
  pub updated_at : ℕ
  pub expires_at : Option ℕ
  pub message_count : ℕ

-- `SessionResponse.from_domain`
unfoldable pub session_response : Session → SessionResponse
session_response s = record {
  id = s.id;
  title = s.title;
  created_at = s.created_at;
  updated_at = s.updated_at;
  expires_at = s.expires_at;
  message_count = s.message_count;
}

pub record MessageResponse : Type 0 where
  pub id : String
  pub session_id : ℕ
  pub role : Role
  pub content : Text
  pub created_at : ℕ
  pub tool_calls : List ToolCall

-- `MessageResponse.from_domain`
unfoldable pub message_response : Message → MessageResponse
message_response m = record {
  id = m.id;
  session_id = m.session_id;
  role = m.role;
  content = m.content;
  created_at = m.created_at;
  tool_calls = m.tool_calls;
}

-- A request of one of the endpoints.
pub data Request : Type 0 where
  create : CreateSessionRequest → Request
  list : ℕ → Option Cursor → Bool → Request
  fetch : ℕ → Request
  messages : ℕ → ℕ → Request
  delete : ℕ → Request

pub data Response : Type 0 where
  created : SessionResponse → Response
  listed : List SessionResponse → Option (ℕ × ℕ) → Response
  fetched : SessionResponse → Response
  transcript : List MessageResponse → Response
  no_content : Response

-- The scope that the endpoint depends on.
unfoldable pub scope_of : Request → Scope
scope_of (create body) = sessions_write
scope_of (list limit cursor mine_only) = sessions_read
scope_of (fetch id) = sessions_read
scope_of (messages id limit) = sessions_read
scope_of (delete id) = sessions_write

-- The bounds of the query parameters, and the checks of the body.
unfoldable pub is_well_formed : Request → Bool
unfolding is_acceptable
is_well_formed (create body) = is_acceptable body
is_well_formed (list limit cursor mine_only) = leb 1 limit && leb limit 100
is_well_formed (fetch id) = true
is_well_formed (messages id limit) = leb 1 limit && leb limit 200
is_well_formed (delete id) = true

abbrev pub answer : {A B : Type 0} → (A → B) → Result A × Store → Result B × Store
answer f (ok a, s) = (ok (f a), s)
answer f (raise e, s) = (raise e, s)

abbrev page_response : Page → Response
page_response p = listed (map session_response p.items) p.next_cursor

-- The owner that a listing is narrowed to.
unfoldable pub owner_filter : TenantContext → Bool → Option String
owner_filter context mine_only = if mine_only then some context.principal.id else none

-- The bodies of the handlers; a new session draws an id and lives as long as the settings say.
unfoldable pub handle : ℕ → Request → TenantContext → ℕ → ℕ → Store → Result Response × Store
unfolding session_response message_response owner_filter
handle ttl (create body) context now id s =
    answer (λ x. created (session_response x))
      (create_session s now id context.tenant_id context.principal.id body.title (some ttl))
handle ttl (list limit cursor mine_only) context now id s =
    answer page_response
      (list_sessions s now context.tenant_id (owner_filter context mine_only) limit cursor)
handle ttl (fetch session_id) context now id s =
    answer (λ x. fetched (session_response x)) (get_session s now context.tenant_id session_id)
handle ttl (messages session_id limit) context now id s =
    answer (λ ms. transcript (map message_response ms))
      (get_history s now context.tenant_id session_id limit)
handle ttl (delete session_id) context now id s =
    answer (λ _. no_content) (delete_session s now context.tenant_id session_id)

-- The endpoint: its dependency on the scope, the checks of what comes in, and the handler.
unfoldable pub endpoint : ℕ → Request → TenantContext → ℕ → ℕ → Store → Result Response × Store
unfolding handle is_well_formed scope_of require
endpoint ttl r context now id s = elim (require context (scope_of r ∷ [])) [
  | raise e ↦ (raise e, s)
  | ok allowed ↦
      if is_well_formed r
      then handle ttl r allowed now id s
      else (raise (error validation (codes "request body or parameters failed validation")), s)
]
