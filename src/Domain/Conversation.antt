-- ===== src/Domain/Conversation.antt =====
-- bat/domain/conversation.py: sessions, messages and tool invocations.
-- A time is the number of microseconds since an epoch, and a duration one too. The id that `new_id`
-- draws and the clock's reading are arguments. A session's id is the number that its 32 hex digits
-- spell: the digits are of fixed width, so the order of the texts is that of the numbers.
use bat_ai.Prelude.{ℕ, zero, suc, ◌+◌, Bool, false, Option, none, some, List, [], String, leb}
use bat_ai.Prelude.Dict.{Dict}
use bat_ai.Prelude.Text.{Text}

pub data Role : Type 0 where
  system user assistant tool : Role

-- A JSON value, as far as the argument checks look into it: a number, a list or an
-- object is its text.
pub data Value : Type 0 where
  null : Value
  boolean : Bool → Value
  integer : Text → Value
  number : Text → Value
  text : Text → Value
  array : Text → Value
  object : Text → Value

pub record ToolCall : Type 0 where
  pub id : String
  pub name : String
  pub arguments : Dict String Value

pub record ToolResult : Type 0 where
  pub call_id : String
  pub name : String
  pub content : Text
  pub is_error : Bool
  pub duration_ms : ℕ

pub record Message : Type 0 where
  pub id : String
  pub session_id : ℕ
  pub tenant_id : String
  pub role : Role
  pub content : Text
  pub created_at : ℕ
  pub tool_calls : List ToolCall
  pub tool_result : Option ToolResult

-- `Message.create`, for a message with no tool calls.
unfoldable pub create_message : String → ℕ → ℕ → String → Role → Text → Message
create_message id now session_id tenant_id role content = record {
  id = id;
  session_id = session_id;
  tenant_id = tenant_id;
  role = role;
  content = content;
  created_at = now;
  tool_calls = [];
  tool_result = none;
}

pub record Session : Type 0 where
  pub id : ℕ
  pub tenant_id : String
  pub principal_id : String
  pub created_at : ℕ
  pub updated_at : ℕ
  pub expires_at : Option ℕ
  pub title : Option String
  pub message_count : ℕ

-- `now + ttl if ttl else otherwise`; a zero duration is false.
unfoldable pub expiry : ℕ → Option ℕ → Option ℕ → Option ℕ
expiry now none otherwise = otherwise
expiry now (some zero) otherwise = otherwise
expiry now (some (suc t)) otherwise = some (now + suc t)

-- `Session.create`
unfoldable pub create : ℕ → ℕ → String → String → Option String → Option ℕ → Session
unfolding expiry
create id now tenant_id principal_id title ttl = record {
  id = id;
  tenant_id = tenant_id;
  principal_id = principal_id;
  created_at = now;
  updated_at = now;
  expires_at = expiry now ttl none;
  title = title;
  message_count = 0;
}

unfoldable pub is_expired : Session → ℕ → Bool
is_expired s now = elim s.expires_at [ none ↦ false | some t ↦ leb t now ]

unfoldable pub touch : Session → ℕ → ℕ → Option ℕ → Session
unfolding expiry
touch s now message_delta ttl = record s {
  updated_at = now;
  message_count = s.message_count + message_delta;
  expires_at = expiry now ttl s.expires_at;
}

-- A page of a listing; the cursor is the last item's place in the order, `(created_at, id)`.
pub record Page : Type 0 where
  pub items : List Session
  pub next_cursor : Option (ℕ × ℕ)
