-- ===== src/Builtin.antt =====
-- bat/tools/builtin.py and bat/services/agent/sandbox.py: the tools that come with the program.
-- Calculator has the evaluator, Sandbox the run of a program in a child process, Tools the three
-- tools; Allowlist and Exact have the evaluator's claims and Deployment those of the tools under a
-- policy.
pub mod Calculator
pub mod Allowlist
pub mod Exact
pub mod Sandbox
pub mod Tools
pub mod Deployment
