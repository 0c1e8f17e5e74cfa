-- ===== src/Sessions.antt =====
-- The in-process session store (bat/adapters/session_store_memory.py).
pub mod Store
pub mod Order
pub mod Listing
pub mod Invariant
pub mod Purge
pub mod Calls
pub mod History
