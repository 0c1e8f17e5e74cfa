-- ===== src/Postgres/Tables.antt =====
-- bat/adapters/session_store_postgres.py: the rows of the two tables and their mapping. A row of
-- `bat_sessions` has the fields of a session, and `_to_session` reads them as they are. A table is
-- the list of its rows; no statement depends on their order.
use bat_ai.Prelude.{
  ℕ, ◌+◌, Bool, false, ◌&&◌, ◌||◌, List, [], ◌∷◌, Option, none, some, String, if◌then◌else◌, ◌==◌,
  string_eq, nat_eq, nat_beq, ltb, map,
}
use bat_ai.Prelude.Dict.{Dict}
use bat_ai.Prelude.Text.{Text}
use bat_ai.Domain.Conversation.{Role, system, user, assistant, tool, ToolCall, Value, Message}

-- A row of `bat_messages`. An object of `tool_calls` has the fields of a call. There is no column
-- for a message's `tool_result`.
pub record MessageRow : Type 0 where
  pub tenant_id : String
  pub id : String
  pub session_id : ℕ
  pub role : String
  pub content : Text
  pub created_at : ℕ
  pub tool_calls : List ToolCall

-- What is not of the program: the order of texts in the database, what `jsonb` gives back of an
-- object, and what `new_id` draws for the n-th call of a message.
pub record Server : Type 0 where
  pub text_before : String → String → Bool
  pub jsonb : Dict String Value → Dict String Value
  pub drawn : ℕ → String

unfoldable pub role_name : Role → String
role_name system = "system"
role_name user = "user"
role_name assistant = "assistant"
role_name tool = "tool"

-- `Role(name)`; `none` is its `ValueError`.
unfoldable pub role_of : String → Option Role
role_of name =
    if name == "system"
    then some system
    else if name == "user"
    then some user
    else if name == "assistant"
    then some assistant
    else if name == "tool"
    then some tool
    else none

-- `ORDER BY created_at, id`
abbrev pub insert_by : {A : Type 0} → (A → A → Bool) → A → List A → List A
insert_by before x [] = x ∷ []
insert_by before x (y ∷ ys) =
    let rest = insert_by before x ys in if before x y then x ∷ y ∷ ys else y ∷ rest

unfoldable pub sort_by : {A : Type 0} → (A → A → Bool) → List A → List A
sort_by before [] = []
sort_by before (x ∷ xs) = insert_by before x (sort_by before xs)

-- `LIMIT 1`
abbrev pub first : {A : Type 0} → List A → Option A
first [] = none
first (x ∷ xs) = some x

abbrev pub any : {A : Type 0} → (A → Bool) → List A → Bool
any p [] = false
any p (x ∷ xs) = p x || any p xs

module _ (server : Server) where
  abbrev pub sooner : MessageRow → MessageRow → Bool
  sooner a b =
      ltb a.created_at b.created_at
      || (nat_beq a.created_at b.created_at && server.text_before a.id b.id)

  unfoldable pub oldest_first : List MessageRow → List MessageRow
  unfolding sort_by
  oldest_first rows = sort_by sooner rows

  unfoldable pub newest_first : List MessageRow → List MessageRow
  unfolding sort_by
  newest_first rows = sort_by (λ a b. sooner b a) rows

  -- `_call_to_json`, as it comes back from the column
  unfoldable pub call_to_json : ToolCall → ToolCall
  call_to_json c = record c { arguments = server.jsonb c.arguments }

  -- The values that `append_message` inserts.
  unfoldable pub to_row : String → ℕ → Message → MessageRow
  unfolding role_name call_to_json
  to_row tenant id m = record {
    tenant_id = tenant;
    id = m.id;
    session_id = id;
    role = role_name m.role;
    content = m.content;
    created_at = m.created_at;
    tool_calls = map call_to_json m.tool_calls;
  }

  -- The calls of `_to_message`: one without a name is left out, and one without an id draws one.
  unfoldable pub to_calls : ℕ → List ToolCall → List ToolCall
  to_calls n [] = []
  to_calls n (c ∷ cs) =
      let rest = to_calls (n + 1) cs in
      if c.name == ""
      then rest
      else record c { id = if c.id == "" then server.drawn n else c.id } ∷ rest

  -- `_to_message`
  unfoldable pub to_message : MessageRow → Option Message
  unfolding to_calls role_of
  to_message r = elim (role_of r.role) [
    | none ↦ none
    | some role ↦ some (record {
      id = r.id;
      session_id = r.session_id;
      tenant_id = r.tenant_id;
      role = role;
      content = r.content;
      created_at = r.created_at;
      tool_calls = to_calls 0 r.tool_calls;
      tool_result = none;
    })
  ]

  -- `tuple(_to_message(r) for r in rows)`
  unfoldable pub to_messages : List MessageRow → Option (List Message)
  unfolding to_message
  to_messages [] = some []
  to_messages (r ∷ rs) =
      let rest = to_messages rs in
      elim (to_message r) [
        | none ↦ none
        | some m ↦ elim rest [ none ↦ none | some ms ↦ some (m ∷ ms) ]
      ]
