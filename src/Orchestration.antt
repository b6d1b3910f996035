-- ===== src/Orchestration.antt =====
-- backend/app/orchestration: the ladder of model calls, the chair, the attendees' turns and the
-- meeting graph that joins them.
pub mod LlmCall
pub mod State
pub mod Recovery
pub mod Supervisor
pub mod TurnCache
pub mod Agents
pub mod Graph
