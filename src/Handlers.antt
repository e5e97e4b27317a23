-- ===== src/Handlers.antt =====
-- handlers: the tool handlers and the HTTP middleware.
pub mod Sanitize
pub mod ClientIp
pub mod RateLimit
pub mod Middleware
pub mod Redact
pub mod Tools
pub mod Metrics
pub mod Guidance
pub mod AccessLog
pub mod Registration
pub mod ToolCall
pub mod Observability
pub mod Collectors
