-- ===== src/Lib.antt =====
-- BAT, an assistant that serves many tenants: what its core promises, and why it keeps it.
--
-- The program. A request presents a key that stands for a tenant and a principal (bat/api/security.py,
-- bat/api/deps.py, bat/domain/tenancy.py) and takes a turn (bat/api/routers/messages.py) in
-- a session of that tenant (bat/domain/conversation.py). Two limits stand in front of the turn: a
-- token bucket for its rate and a ceiling for the runs at one time, within one process
-- (bat/ratelimit.py) or shared through Redis (bat/adapters/ratelimit_redis.py). The agent
-- (bat/services/agent/loop.py) puts the prompt together, offers tools to the model, runs the tools
-- that the model asks for and emits the events of bat/ports/agent.py. Every tool call passes the
-- executor (bat/services/agent/tools.py) and its policy (bat/ports/tools.py). Sessions and
-- transcripts are kept by a store with a partition for each tenant
-- (bat/adapters/session_store_memory.py) or in two tables that all processes share
-- (bat/adapters/session_store_postgres.py); documents are cut into chunks
-- (bat/services/rag/chunking.py) that a vector store keeps in a namespace for each tenant
-- (bat/adapters/vector_memory.py, bat/adapters/vector_chroma.py), and the memory pipeline
-- (bat/services/rag/pipeline.py) puts what it finds there into the prompt. The model is llama.cpp in
-- the process, behind a queue (bat/adapters/llama_cpp_client.py); without one, a stand-in answers
-- (bat/adapters/agent_reference.py). The tools are those of bat/tools/builtin.py, one of which runs
-- programs (bat/services/agent/sandbox.py). What a deployment is built of (bat/api/app.py) follows
-- from its settings (bat/settings.py), which refuse what is unsafe in production; sessions, memory
-- and health have endpoints of their own (bat/api/routers), and every error leaves through
-- bat/api/errors.py. The same agent serves one user on a desktop (core/brain.py, main.py).
--
-- The files.
--   Prelude    what the others share: Boolean tests, lists measured by native numbers, Python's
--              dictionaries as association lists, texts as lists of code points.
--   Domain     Errors, Tenancy and Conversation after the files of bat/domain; a `BatError` that is
--              raised is a `Result`. Tenancy/Checks is about them.
--   Tools      Policy (bat/ports/tools.py); Arguments, Registry and Executor
--              (bat/services/agent/tools.py): `execute` threads the audit trail and a world `W` that
--              only a tool's own run may change. Safety and Audit have the claims.
--   Sessions   Store and Order: a method of `InMemorySessionStore` is a function of the store, the
--              clock's reading and the drawn id. Calls has the methods as calls of one tenant.
--              Calls, History and Listing have the claims; Invariant and Purge are lemmas of them
--              and of Postgres.
--   Postgres   Tables and Store (bat/adapters/session_store_postgres.py): a table is the list of its
--              rows, and a statement what it does to the rows; the order of texts and what `jsonb`
--              gives back are a parameter. Calls has the methods as the calls that Sessions has.
--              Agreement is when tables and dictionaries stand for the same, and Refines compares
--              sequences of calls; the other files are the lemmas of single statements.
--   RateLimit  Bucket and Concurrency (bat/ratelimit.py), Redis (the Lua scripts and what is round
--              them). Budget, Concurrency and Leases have the claims; runs that start and end in
--              any order are a step relation with reachability.
--   Agent      Events (bat/ports/agent.py, bat/ports/llm.py); Prompt, Observe and Loop
--              (bat/services/agent/loop.py): `run` is a function of a world to the events, the
--              exception that is left, if any, and the world after. The model, the memory and the
--              executor are parameters that may return, raise, time out, crash or be cancelled. Rule
--              is the induction over the turns of a run; Terminal, Bounds, Steps, Replay and Offer
--              are about runs. Reference (bat/adapters/agent_reference.py) is the stand-in.
--   Rag        Chunking (bat/services/rag/chunking.py), Vectors (bat/ports/retrieval.py,
--              bat/adapters/vector_memory.py) and Pipeline (bat/services/rag/pipeline.py). The
--              embedder, the cosine of floats, the digest of an id and the print of a score are
--              parameters. Bounds, Isolation and Context are about them. Chroma and Collections
--              (bat/adapters/vector_chroma.py) are the store over a client that is a parameter, and
--              Stored is what it reads back; Embedder is bat/adapters/llama_cpp_embedder.py.
--   Api        Turn and Stream (bat/api/routers/messages.py): one turn over the store, the limiter and
--              the run, answered at once or streamed; Reply has the claims. What the keepalive
--              wrapper yields is an input of the stream. Access (bat/api/security.py,
--              bat/api/deps.py): the context of a request, with SHA-256 a parameter. Problems
--              (bat/api/errors.py, bat/api/middleware.py) and Disclosure: responses to errors.
--              Sessions and Memory (bat/api/routers/sessions.py, bat/api/routers/memory.py,
--              bat/api/schemas.py): the endpoints, each with its scope and bounds; Boundary is what
--              they let a caller do.
--   Config     Settings, Fields and Checks (bat/settings.py): the records with their defaults, and
--              the faults that refuse them. Hardening and Slots: what accepted settings mean in production.
--   Builtin    Calculator (the evaluator of bat/tools/builtin.py on exact integers, with floats
--              a parameter), Sandbox (bat/services/agent/sandbox.py) and Tools. Exact, Allowlist and
--              Deployment are about them.
--   Model      Queue, Wire, Client and Stream (bat/adapters/llama_cpp_client.py): callers that
--              come and go are steps of a relation, llama.cpp and the file system are a parameter
--              on a world, and what arrives of a stream, and when, is an input. A call that is
--              given up keeps its chat template in force until the inference thread is done with
--              it. Loading, Fairness, RoundTrip, Restore and Delivery are about them.
--   Application Build (the `build_` functions of bat/api/app.py) and Health
--              (bat/api/routers/health.py).
--   Desktop    Brain (core/brain.py): a turn over the run of the agent; Turns is what it answers and
--              keeps. Console (main.py): the lines that the user types.
--   Tests      the claims at concrete inputs.
--
-- Bounds and units. Times are in microseconds and natural numbers, and the fractions of
-- settings, scores and distances in thousandths. A bucket counts tokens in units for which the
-- rate is a whole number for each microsecond, so a refill that the program computes in floats
-- is exact here; where a reading of the clock from before the last would take tokens away, below
-- 0 too, the bucket has what is owed beside its tokens. A value of metadata is a scalar or a
-- nested value, known by its text, and a cursor is what it decodes to, the empty text, or
-- malformed. The loop of the agent recurs on the steps that are left, which is the program's own
-- bound; the windows of an unbroken text recur on a fuel, which is its length, and so do the
-- batches of the embedder, on the number of texts. Texts are ASCII where white space or letters
-- are told apart. A session's id stands for the number that its hexadecimal digits spell, which
-- keeps the order.
--
-- What is not modelled. The wiring of the web framework, the loop that purges sessions, logging
-- (bat/observability.py) and the command line (bat/cli.py) are input and output. Of the parts that
-- are here: the text encoding of cursors, what the `details` of an error hold, log lines, metadata
-- that no code reads, Redis' expiry of idle keys, what the Postgres driver may raise beyond a pool
-- that does not open, row-level security, the construction of Chroma's client, the loading of the
-- embedder and its stand-in by hashing, the search for CUDA libraries, the kill of a child process
-- and the limits that the operating system sets it. The remains of the former program
-- (core/config.py, memory, tools) are left out.
pub mod Prelude
pub mod Domain
pub mod Tools
pub mod Sessions
pub mod RateLimit
pub mod Agent
pub mod Rag
pub mod Api
pub mod Builtin
pub mod Model
pub mod Config
pub mod Application
pub mod Desktop
pub mod Postgres
pub mod Tests
