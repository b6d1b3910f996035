-- ===== src/Sandbox.antt =====
-- backend/app/sandbox: the sandboxes that a meeting's personas speak from.
pub mod Leases
pub mod Reaper
pub mod Tokens
pub mod Client
