-- ===== src/Agent.antt =====
-- The agent: its event stream (bat/ports/agent.py), its loop (bat/services/agent/loop.py) and
-- the runner that stands in for it (bat/adapters/agent_reference.py).
pub mod Events
pub mod Prompt
pub mod Observe
pub mod Loop
pub mod Rule
pub mod Shape
pub mod Terminal
pub mod Bounds
pub mod Replay
pub mod Steps
pub mod Offer
pub mod Reference
