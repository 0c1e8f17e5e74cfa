-- ===== src/Tests.antt =====
-- Runs at concrete inputs: the theorems applied, and the functions tested.
mod Tools
mod Postgres
mod Sessions
mod RateLimit
mod Agent
mod Rag
mod Model
mod Config
mod Builtin
mod Api
