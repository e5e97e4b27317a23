-- ===== src/Handlers/Tools.antt =====
-- handlers/tools.go: the search tools.
pub mod Types
pub mod Output
pub mod Calls
pub mod Safety
pub mod Errors
pub mod Results
pub mod Fidelity
pub mod Answered
