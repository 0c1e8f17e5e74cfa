-- ===== src/Application.antt =====
-- bat/api/app.py and bat/api/routers/health.py: which parts a deployment is built of, and what it
-- says of itself.
pub mod Build
pub mod Health
