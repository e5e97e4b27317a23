-- ===== src/Tests.antt =====
-- The theorems at concrete inputs, and runs of the definitions.
mod Samples
mod ToolCalls
mod Limiter
mod Upstream
mod Texts
mod Chains
mod Startups
mod Redaction
mod Calls
mod Slogs
mod Runs
mod Processes
mod Registries
mod Evictions
mod Secrets
mod Upstreams
mod Capacities
mod Results
