-- ===== src/Searxng.antt =====
-- infrastructure/searxng: the client of the SearXNG search API.
pub mod Wire
pub mod Query
pub mod Client
