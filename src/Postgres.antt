-- ===== src/Postgres.antt =====
-- bat/adapters/session_store_postgres.py: the session store over Postgres. Tables has the rows,
-- Store the methods with their statements, Calls the methods as calls of one tenant. The other
-- files compare it with the store of bat/adapters/session_store_memory.py: Rows, Sorting and Trim
-- have the lists of rows, Agreement when tables and dictionaries agree, Writes and Appends the
-- statements that write, Listing and Reads the methods that read, Purge the sweep, Changes the
-- methods that write, and Refines sequences of them.
pub mod Tables
pub mod Store
pub mod Calls
pub mod Rows
pub mod Sorting
pub mod Trim
pub mod Agreement
pub mod Writes
pub mod Appends
pub mod Listing
pub mod Reads
pub mod Purge
pub mod Changes
pub mod Refines
