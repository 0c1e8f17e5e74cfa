-- ===== src/Tests/Model.antt =====
-- Tests of the client of the local model: a queue of three callers, an answer with a call of a
-- tool, and a streamed answer.
use bat_ai.Prelude.{
  ◌⊎◌, ◌≡◌, ◌≢◌, ◌≤◌, ◌+◌, refl, ℕ, true, false, [], ◌∷◌, none, some, inl, List, Option, arith,
  string_eq,
}
use bat_ai.Prelude.Text.{codes, concat}
use bat_ai.Domain.Conversation.{ToolCall, text, assistant}
use bat_ai.Tools.Registry.{times_out}
use bat_ai.Agent.Events.{ChatMessage}
use bat_ai.Rag.Chunking.{is_empty}
use bat_ai.Config.Settings.{default_model}
use bat_ai.Model.Queue.{
  Tasks, Step, entered, finished, Reach, here, next, enter_queue, leave_queue, join_line, release,
}
use bat_ai.Model.Fairness.{Waits, Unserved, start, then_step, Waits-served}
use bat_ai.Model.Wire.{Json, extract_delta, message_to_wire, parse_completion}
use bat_ai.Model.RoundTrip.{answer, parse_completion-to_wire}
use bat_ai.Model.Client.{
  Client, Engine, built, begins, complete, settle, timeout_or, run, in_slot, load, after_load,
  with_model, call_on, with_chat_format, is_given_up,
}
use bat_ai.Model.Restore.{WasGivenUp, restored, complete-restores}
use bat_ai.Model.Stream.{Piece, Arrival, delta, done, produce, consume, exhausted}
use bat_ai.Model.Delivery.{consume-produce}

abbrev queue : ℕ → Option ℕ → List ℕ → Tasks
queue n h line = record {
  gate = record { max_queue_depth = 4; waiters = n };
  holder = h;
  line = line;
}

-- Three callers come in, the first of them is served.
three : Reach 4 (queue 3 (some 1) (2 ∷ 3 ∷ []))
unfolding join_line enter_queue
three =
    next
      (next (next here (entered (queue 0 none []) 1 _ refl))
        (entered (queue 1 (some 1) []) 2 _ refl))
      (entered (queue 2 (some 1) (2 ∷ [])) 3 _ refl)

third : Waits 3 1 (queue 3 (some 1) (2 ∷ 3 ∷ []))
third = record { ahead = 2 ∷ []; behind = []; placed = refl; count = refl }

other : ◌≢◌ {A = Option ℕ} (some 2) (some 3)
other h = absurd (ground arith)

-- The first is through and the second is served.
one_ended : Unserved 3 (queue 3 (some 1) (2 ∷ 3 ∷ [])) 1 (queue 2 (some 2) (3 ∷ []))
unfolding release leave_queue
one_ended = then_step start (finished (queue 3 (some 1) (2 ∷ 3 ∷ [])) 1 refl) other tt

Waits-served_example :
    (1 ≤ 1)
    × ((h : ℕ) × (some 2 ≡ some h)
        × Step (queue 2 (some 2) (3 ∷ [])) (record (release (queue 2 (some 2) (3 ∷ []))) {
          gate = record { max_queue_depth = 4; waiters = 1 };
        }))
unfolding leave_queue
Waits-served_example = Waits-served 3 1 1 three third one_ended

abbrev pieces : List Piece
pieces =
    record { is_cancelled = false; chunk = record { deltas = some (codes "It is ") ∷ [] } }
    ∷ record { is_cancelled = false; chunk = record { deltas = none ∷ [] } }
    ∷ record { is_cancelled = false; chunk = record { deltas = some (codes "4.") ∷ [] } }
    ∷ []

abbrev arrivals : List Arrival
arrivals =
    record { asked_at = 10; item = some (delta (codes "It is ")) }
    ∷ record { asked_at = 11; item = some (delta (codes "4.")) }
    ∷ record { asked_at = 12; item = some done }
    ∷ []

consume-produce_example :
    (concat (consume (λ n. []) 90 100 arrivals).deltas ≡ codes "It is 4.")
    × ((consume (λ n. []) 90 100 arrivals).ending ≡ exhausted)
unfolding produce extract_delta is_empty concat
consume-produce_example =
    consume-produce (λ n. []) 90 100 arrivals pieces none
      (omega arith, (omega arith, (omega arith, tt))) (refl, (refl, (refl, tt))) refl

abbrev sum : ToolCall
sum = record {
  id = "c1";
  name = "calculator";
  arguments = ("expression", text (codes "2 + 2")) ∷ [];
}

abbrev asked : ChatMessage
asked = record {
  role = assistant;
  content = codes "Let me see.";
  tool_calls = sum ∷ [];
  tool_call_id = none;
}

-- Prints and reads the one object of the test.
abbrev json : Json
json = record { dumps = λ fields. codes "{}"; loads = λ s. some (inl sum.arguments) }

parse_completion-to_wire_example :
    ((parse_completion json (answer (message_to_wire json asked))).content ≡ codes "Let me see.")
    × ((parse_completion json (answer (message_to_wire json asked))).tool_calls ≡ sum ∷ [])
unfolding is_empty
parse_completion-to_wire_example =
    parse_completion-to_wire json asked ((refl, refl), tt) ((refl, refl), tt)

-- A world is the number of calls; the wait for each runs out.
abbrev engine : Engine ℕ
engine = record {
  is_file = λ path w. true;
  import_llama = λ w. none;
  construct = λ s w. (built (record { chat_format = none }), w);
  behind = λ w. begins;
  create = λ format messages kwargs tools w. (times_out, w + 1);
}

abbrev client : Client
client = record {
  settings = record default_model { chat_format = some "plain" };
  llama = some (record { chat_format = some "chatml" });
  unfinished = none;
  load_error = none;
  gate = record { max_queue_depth = 4; waiters = 2 };
}

complete-restores_example :
    let r = complete engine json (λ n. []) (asked ∷ []) [] none none none client 0 in
    (settle r.client ≡ restored client (record { chat_format = some "chatml" }))
    × (WasGivenUp engine json (λ n. []) (timeout_or none default_model.request_timeout_s) r.outcome
        ⊎ ((r.client ≡ client)
            ⊎ (r.client ≡ restored client (record { chat_format = some "chatml" }))))
complete-restores_example =
    complete-restores engine json (λ n. []) (asked ∷ []) [] none none none client 0 _ refl

-- The call still runs, under its own template.
given_up :
    (complete engine json (λ n. []) (asked ∷ []) [] none none none client 0).client
    ≡ record client {
      llama = some (record { chat_format = some "plain" });
      unfinished = some (some "chatml");
    }
unfolding complete run in_slot load after_load with_model call_on with_chat_format is_given_up
    enter_queue leave_queue is_empty
given_up = refl
