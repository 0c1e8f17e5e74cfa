-- ===== src/Api.antt =====
-- What a request gets and how it takes a turn (bat/api/security.py, bat/api/deps.py,
-- bat/api/routers/messages.py), the other endpoints (bat/api/routers/sessions.py,
-- bat/api/routers/memory.py, bat/api/schemas.py) and the responses to errors (bat/api/errors.py,
-- bat/api/middleware.py).
pub mod Access
pub mod Turn
pub mod Stream
pub mod Reply
pub mod Sessions
pub mod Memory
pub mod Boundary
pub mod Problems
pub mod Disclosure
