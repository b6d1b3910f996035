-- ===== src/Runtime.antt =====
-- sandbox/runtime/runtime: the server inside a sandbox, which is bound to one persona and serves its
-- turns.
pub mod Capabilities
pub mod Cache
pub mod Server
pub mod Prompt
pub mod Turn
pub mod Tools
mod Tests
