-- ===== src/Tests/Sessions.antt =====
-- Tests of the session store: a store with one session, and its listing.
use bat_ai.Prelude.{
  ◌≤◌, ◌≡◌, refl, [], ◌∷◌, ◌++◌, none, some, arith, string_eq, nat_eq, min, length,
}
use bat_ai.Prelude.Dict.{get, put, get_or}
use bat_ai.Prelude.Text.{codes}
use bat_ai.Domain.Errors.{ok}
use bat_ai.Domain.Conversation.{Session, Message, create, user, is_expired, expiry}
use bat_ai.Sessions.Store.{
  Store, transcripts, load, append_message, get_history, last, page_of, create_session,
  open_sessions, or_ttl,
}
use bat_ai.Sessions.Listing.{remaining, page_of-remaining}
use bat_ai.Sessions.Invariant.{IsValid}
use bat_ai.Sessions.Calls.{Call, perform, perform-IsValid, perform-isolated}
use bat_ai.Sessions.History.{get_history-append_message}

abbrev empty_store : Store
empty_store = record {
  ttl = some 50;
  max_per_principal = 2;
  history_cap = 3;
  sessions = [];
  messages = [];
}

empty_store-IsValid : IsValid empty_store
unfolding get get_or
empty_store-IsValid = record {
  tenants = tt;
  at = λ t. record { distinct = tt; filed = tt; paired = λ id. refl; kept = tt };
}

-- The session that the tenant made at the time 100; it expires at 150.
abbrev session : Session
session = record {
  id = 7;
  tenant_id = "acme";
  principal_id = "alice";
  created_at = 100;
  updated_at = 100;
  expires_at = some 150;
  title = none;
  message_count = 0;
}

abbrev one_session : Store
one_session = record empty_store {
  sessions = ("acme", (7, session) ∷ []) ∷ [];
  messages = ("acme", (7, []) ∷ []) ∷ [];
}

abbrev hello : Message
hello = record {
  id = "m1";
  session_id = 7;
  tenant_id = "acme";
  role = user;
  content = codes "hello";
  created_at = 120;
  tool_calls = [];
  tool_result = none;
}

perform-IsValid_example :
    IsValid (perform empty_store 100 "acme" (Call.create 7 "alice" none none)).1
perform-IsValid_example =
    perform-IsValid empty_store 100 "acme" (Call.create 7 "alice" none none) empty_store-IsValid

-- That call leaves the store with the one session.
created : (perform empty_store 100 "acme" (Call.create 7 "alice" none none)).1 ≡ one_session
unfolding perform create_session create open_sessions or_ttl expiry put get_or
created = refl

perform-isolated_example :
    (perform (perform one_session 120 "other" (Call.delete 7)).1 130 "acme" (Call.history 7 5)).0
    ≡ (perform one_session 130 "acme" (Call.history 7 5)).0
perform-isolated_example =
    perform-isolated one_session 120 "other" "acme" (Call.delete 7) (Call.history 7 5) 130 refl

one_session-IsValid : IsValid one_session
one_session-IsValid =
    rw (← created)
      (perform-IsValid empty_store 100 "acme" (Call.create 7 "alice" none none) empty_store-IsValid)

get_history-append_message_example :
    ((append_message one_session 120 "acme" 7 hello).0 ≡ ok hello)
    × ((y : Session) × (load (append_message one_session 120 "acme" 7 hello).1 120 "acme" 7 ≡ ok y)
        × (y.message_count ≡ 1)
        × (y.updated_at ≡ 120)
        × (record y { message_count = 0; updated_at = 100; expires_at = some 150 } ≡ session))
    × ((get_history (append_message one_session 120 "acme" 7 hello).1 120 "acme" 7 10).0
        ≡ ok (last (min 10 3) (get_or (transcripts one_session "acme") 7 [] ++ hello ∷ [])))
unfolding load get get_or is_expired
get_history-append_message_example =
    get_history-append_message one_session 120 "acme" 7 10 hello session refl refl refl

abbrev later : Session
later = record session { id = 9; created_at = 130 }

page_of-remaining_example :
    ((page_of 1 (later ∷ session ∷ [])).items
        ++ remaining (page_of 1 (later ∷ session ∷ [])).next_cursor (later ∷ session ∷ [])
      ≡ later ∷ session ∷ [])
    × (length (page_of 1 (later ∷ session ∷ [])).items ≤ 1)
page_of-remaining_example =
    page_of-remaining 1 (later ∷ session ∷ []) (omega arith) ((refl, tt), (tt, tt))
