-- ===== src/Postgres/Agreement.antt =====
-- When the tables of bat/adapters/session_store_postgres.py and the dictionaries of
-- bat/adapters/session_store_memory.py stand for the same sessions and transcripts, and what both
-- then find.
use bat_ai.Prelude.{
  ℕ, ◌+◌, ◌≡◌, refl, ap, ◌∙◌, ◌⊎◌, inl, inr, true, false, not, List, [], ◌∷◌, none, some, String,
  ◌==◌, string_eq, nat_eq, Bool-cases, Option-cases, All, keep, map,
}
use bat_ai.Prelude.Dict.{Dict, get, get_or, values, map-Entries}
use bat_ai.Prelude.Text.{codes}
use bat_ai.Domain.Errors.{ok, raise, error, not_found}
use bat_ai.Domain.Conversation.{
  Session, Message, ToolCall, is_expired, Role, system, user, assistant, tool,
}
use bat_ai.Sessions.Store.{Store, partition, transcripts, load, or_ttl}
use bat_ai.Sessions.Invariant.{IsPartition, IsFiled, Belongs}
use bat_ai.Postgres.Tables.{
  Server, first, to_row, to_calls, to_message, to_messages, call_to_json, role_of, role_name,
}
use bat_ai.Postgres.Store.{Postgres, has_key, is_live, is_of}
use bat_ai.Postgres.Rows.{keep-keep, list_of, keep-values, IsKeyed}
use bat_ai.Postgres.Sorting.{IsTimely}

module _ (server : Server) where
  -- A call that the table gives back as it was: it has an id and a name, and `jsonb` keeps its
  -- arguments.
  abbrev pub IsStorableCall : ToolCall → Type 0
  IsStorableCall c =
      ((c.id == "") ≡ false) × ((c.name == "") ≡ false) × (server.jsonb c.arguments ≡ c.arguments)

  -- A message that the table gives back as it was.
  abbrev pub IsStorable : Message → Type 0
  IsStorable m = (m.tool_result ≡ none) × All IsStorableCall m.tool_calls

  to_calls-storable :
      (n : ℕ) (cs : List ToolCall)
      → All IsStorableCall cs
      → to_calls server n (map (call_to_json server) cs) ≡ cs
  unfolding to_calls call_to_json
  to_calls-storable n [] h = refl
  to_calls-storable n (c ∷ cs) h =
      rw (h.0.1, h.0.0, h.0.2) (ap (λ r. c ∷ r) (to_calls-storable (n + 1) cs h.1))

  role_of-role_name : (r : Role) → role_of (role_name r) ≡ some r
  unfolding role_of role_name
  role_of-role_name system = refl
  role_of-role_name user = refl
  role_of-role_name assistant = refl
  role_of-role_name tool = refl

  to_message-to_row :
      (tenant : String) (id : ℕ) (m : Message)
      → Belongs tenant id m
      → IsStorable m
      → to_message server (to_row server tenant id m) ≡ some m
  unfolding to_message to_row
  to_message-to_row tenant id m b h =
      rw
        (
          role_of-role_name m.role,
          to_message,
          to_calls-storable 0 m.tool_calls h.1,
          ← b.0,
          ← b.1,
          ← h.0,
        )
        refl

  -- The rows of storable messages are read as the messages.
  pub to_messages-to_row :
      (tenant : String) (id : ℕ) (ms : List Message)
      → All (Belongs tenant id) ms
      → All IsStorable ms
      → to_messages server (map (to_row server tenant id) ms) ≡ some ms
  unfolding to_messages
  to_messages-to_row tenant id [] b h = refl
  to_messages-to_row tenant id (m ∷ ms) b h =
      rw
        (
          to_message-to_row tenant id m b.0 h.0,
          to_messages,
          to_messages-to_row tenant id ms b.1 h.1,
        )
        refl

-- The rows of one session are its transcript, whose messages were created one after the other and
-- can be stored.
pub record IsTranscribed (server : Server) (tenant : String) (p : Postgres) (id : ℕ)
    (l : List Message) : Type 0 where
  pub rows : keep (is_of tenant id) p.messages ≡ map (to_row server tenant id) l
  pub timely : IsTimely (map (to_row server tenant id) l)
  pub storable : All (IsStorable server) l

-- Rows that a statement leaves as they are.
pub kept_rows :
    {server : Server} {tenant : String} {p : Postgres} (q : Postgres) {id : ℕ} {l : List Message}
    → keep (is_of tenant id) q.messages ≡ keep (is_of tenant id) p.messages
    → IsTranscribed server tenant p id l
    → IsTranscribed server tenant q id l
kept_rows q same h = record { rows = same ∙ h.rows; timely = h.timely; storable = h.storable }

-- The rows of one tenant are its sessions, and those of each session its transcript.
pub record View (server : Server) (tenant : String) (p : Postgres) (d : Dict ℕ Session)
    (m : Dict ℕ (List Message)) : Type 0 where
  pub sessions : keep (λ x. x.tenant_id == tenant) p.sessions ≡ values d
  pub transcript : (id : ℕ) → IsTranscribed server tenant p id (get_or m id [])

-- The pool is open, both stores are set up alike, with a time to live that is not zero (as the
-- settings have it), and each tenant has the same view.
pub record Agree (server : Server) (p : Postgres) (s : Store) : Type 0 where
  pub connected : p.pool ≡ true
  pub ttl : p.ttl ≡ s.ttl
  pub lasting : or_ttl s.ttl none ≡ s.ttl
  pub limit : p.max_per_principal ≡ s.max_per_principal
  pub cap : p.history_cap ≡ s.history_cap
  pub view : (tenant : String) → View server tenant p (partition s tenant) (transcripts s tenant)

-- What a statement finds of a live session, and what `_load` gives.
abbrev pub Found : Postgres → Store → String → ℕ → ℕ → Type 0
Found p s tenant id at =
    ((x : Session) × (load s at tenant id ≡ ok x)
      × (first (keep (is_live at tenant id) p.sessions) ≡ some x)
      × (get (partition s tenant) id ≡ some x)
      × (is_expired x at ≡ false))
    ⊎ ((load s at tenant id ≡ raise (error not_found (codes "session not found")))
        × (first (keep (is_live at tenant id) p.sessions) ≡ none))

module _ (server : Server) (tenant : String) (p : Postgres) (s : Store)
    (view : View server tenant p (partition s tenant) (transcripts s tenant))
    (valid : IsPartition tenant s.history_cap (partition s tenant) (transcripts s tenant))
    (id : ℕ) where
  pub partition-IsKeyed : IsKeyed (λ (x : Session). x.id) (partition s tenant)
  partition-IsKeyed = map-Entries (IsFiled tenant) _ (partition s tenant) (λ k x f. f.0) valid.filed

  -- The rows of a key.
  pub rows_of_key : keep (has_key tenant id) p.sessions ≡ list_of (get (partition s tenant) id)
  rows_of_key =
      keep-keep (λ x. x.tenant_id == tenant) (λ x. x.id == id) p.sessions
      ∙ ap (keep (λ x. x.id == id)) view.sessions
      ∙ keep-values (λ (x : Session). x.id) (partition s tenant) id partition-IsKeyed valid.distinct

  pub rows_live :
      (at : ℕ)
      → keep (is_live at tenant id) p.sessions
        ≡ keep (λ x. not (is_expired x at)) (list_of (get (partition s tenant) id))
  rows_live at =
      keep-keep (has_key tenant id) (λ x. not (is_expired x at)) p.sessions
      ∙ ap (keep (λ x. not (is_expired x at))) rows_of_key

  pub find : (at : ℕ) → Found p s tenant id at
  unfolding load
  find at = elim (Option-cases (get (partition s tenant) id)) [
    | inl absent ↦ inr (rw (absent, load) refl, rw (rows_live at, absent) refl)
    | inr (x, there) ↦ elim (Bool-cases (is_expired x at)) [
      | inl gone ↦ inr (rw (there, load, gone) refl, rw (rows_live at, there, gone) refl)
      | inr live ↦
          inl (x, rw (there, load, live) refl, rw (rows_live at, there, live) refl, there, live)
    ]
  ]
