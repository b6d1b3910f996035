-- ===== src/Runtime/Tools.antt =====
-- sandbox/runtime/runtime/tools: what the tools of a persona do around the services that they call.
pub mod Metrics
pub mod Policy
pub mod CodeExec
pub mod Retrieval
pub mod Artifacts
mod Tests
