-- ===== src/Domain.antt =====
-- The domain layer: errors, tenancy and conversations (bat/domain).
pub mod Errors
pub mod Tenancy
pub mod Conversation
