-- ===== src/Tools.antt =====
-- The tool layer: capability policy (bat/ports/tools.py), registry, argument checks and executor
-- (bat/services/agent/tools.py).
pub mod Policy
pub mod Arguments
pub mod Registry
pub mod Executor
pub mod Safety
pub mod Audit
