-- ===== src/Engine.antt =====
-- pkg/engine: the registry of targets and the execution of trigger requests.
pub mod Registry
pub mod Requests
pub mod Responses
pub mod Plans
pub mod Execution
