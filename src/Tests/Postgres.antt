-- ===== src/Tests/Postgres.antt =====
-- Tests of the Postgres store: a run from empty tables and empty dictionaries, with two tenants, a
-- transcript that is trimmed, and a sweep.
use bat_ai.Prelude.{
  take, ◌≡◌, refl, [], ◌∷◌, none, some, List, true, false, arith, string_eq, nat_eq,
}
use bat_ai.Prelude.Dict.{get, put, remove, get_or, setdefault, remove_all}
use bat_ai.Prelude.Text.{codes}
use bat_ai.Domain.Conversation.{Message, user, create, expiry, is_expired, touch}
use bat_ai.Sessions.Store.{Store}
use bat_ai.Sessions.Calls.{Call}
use bat_ai.Sessions.Invariant.{IsValid}
use bat_ai.Postgres.Tables.{
  Server, role_name, role_of, to_row, to_calls, to_message, to_messages, call_to_json, oldest_first,
  newest_first, sort_by,
}
use bat_ai.Tools.Registry.{returns}
use bat_ai.Postgres.Store.{Postgres}
use bat_ai.Postgres.Agreement.{Agree}
use bat_ai.Postgres.Changes.{Fits}
use bat_ai.Postgres.Refines.{
  Step, call, purge, FitAll, FitsStep, step, step_in_memory, run, run_in_memory, run-Agree,
}
use bat_ai.Sessions.Store as Memory
use bat_ai.Sessions.Calls as InMemory
use bat_ai.Postgres.Store as Statements
use bat_ai.Postgres.Calls as InPostgres

-- A server that keeps objects as they are.
abbrev server : Server
server = record { text_before = λ a b. false; jsonb = λ d. d; drawn = λ n. "drawn" }

abbrev tables : Postgres
tables = record {
  pool = true;
  ttl = some 50;
  max_per_principal = 2;
  history_cap = 1;
  sessions = [];
  messages = [];
}

abbrev dictionaries : Store
dictionaries = record {
  ttl = some 50;
  max_per_principal = 2;
  history_cap = 1;
  sessions = [];
  messages = [];
}

dictionaries-IsValid : IsValid dictionaries
unfolding get get_or
dictionaries-IsValid = record {
  tenants = tt;
  at = λ t. record { distinct = tt; filed = tt; paired = λ id. refl; kept = tt };
}

empty-Agree : Agree server tables dictionaries
unfolding get get_or Memory.or_ttl
empty-Agree = record {
  connected = refl;
  ttl = refl;
  lasting = refl;
  limit = refl;
  cap = refl;
  view = λ t. record {
    sessions = refl;
    transcript = λ id. record { rows = refl; timely = tt; storable = tt };
  };
}

-- A message with a call.
abbrev asked : Message
asked = record {
  id = "m1";
  session_id = 7;
  tenant_id = "acme";
  role = user;
  content = codes "what is 1 + 1?";
  created_at = 101;
  tool_calls = record { id = "c1"; name = "calculator"; arguments = [] } ∷ [];
  tool_result = none;
}

abbrev thanks : Message
thanks = record asked { id = "m2"; content = codes "thanks"; created_at = 102; tool_calls = [] }

abbrev steps : List Step
steps =
    call 100 "acme" (Call.create 7 "alice" none none)
    ∷ call 100 "other" (Call.create 7 "bob" none none)
    ∷ call 101 "acme" (Call.append 7 asked)
    ∷ call 102 "acme" (Call.append 7 thanks)
    ∷ call 103 "acme" (Call.history 7 5)
    ∷ call 103 "acme" (Call.list none 10 none)
    ∷ call 104 "other" (Call.fetch 7)
    ∷ purge 151
    ∷ call 151 "other" (Call.delete 7)
    ∷ call 151 "acme" (Call.delete 7)
    ∷ []

run-Agree_example :
    ((run server none tables steps).0 ≡ (run_in_memory dictionaries steps).0)
    × Agree server (run server none tables steps).1 (run_in_memory dictionaries steps).1
unfolding FitAll FitsStep Fits step step_in_memory InPostgres.perform InPostgres.answered
    InMemory.perform Statements.create_session Statements.append_message Statements.get_history
    Statements.list_sessions Statements.list_from Statements.start_of Statements.page_of_rows
    Statements.get_session Statements.delete_session Statements.delete_where Statements.cascade
    Statements.purge_expired Statements.with_connection Statements.bump Statements.update_where
    Statements.trim Memory.create_session Memory.append_message Memory.get_history
    Memory.list_sessions Memory.get_session Memory.delete_session Memory.purge_expired
    Memory.purge_tenants Memory.purge_messages Memory.with_session Memory.load Memory.open_sessions
    Memory.open_messages Memory.or_ttl Memory.last create expiry is_expired touch get get_or put
    remove remove_all setdefault to_row role_name call_to_json newest_first sort_by
run-Agree_example =
    run-Agree server none steps tables dictionaries empty-Agree dictionaries-IsValid (
      refl,
      (
        refl,
        (
          ((refl, ((refl, refl, refl), tt)), tt, refl),
          (
            ((refl, tt), ((omega arith, refl), tt), refl),
            (refl, (refl, (tt, (tt, (refl, (refl, tt)))))),
          ),
        ),
      ),
    )

-- Of the two messages the cap of one leaves the newer, with the other's row gone.
left :
    (InPostgres.perform server none
      (run server none tables (take 4 steps)).1
      103
      "acme"
      (Call.history 7 5)).0
    ≡ returns (InMemory.messages (thanks ∷ []))
unfolding run step InPostgres.perform InPostgres.answered Statements.create_session
    Statements.append_message Statements.get_history Statements.with_connection Statements.bump
    Statements.update_where Statements.trim Memory.or_ttl create expiry is_expired to_row role_name
    role_of to_messages to_message to_calls oldest_first call_to_json newest_first sort_by
left = refl
