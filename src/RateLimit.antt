-- ===== src/RateLimit.antt =====
-- Rate limiting and concurrency control (bat/ratelimit.py, bat/adapters/ratelimit_redis.py).
pub mod Bucket
pub mod Budget
pub mod Concurrency
pub mod Redis
pub mod Leases
