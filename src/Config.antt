-- ===== src/Config.antt =====
-- bat/settings.py: the configuration of a deployment. Settings has its records, Fields and Checks
-- what a value has to pass, and Hardening and Slots what follows for the other parts.
pub mod Settings
pub mod Fields
pub mod Checks
pub mod Hardening
pub mod Slots
