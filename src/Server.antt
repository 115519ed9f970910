-- ===== src/Server.antt =====
-- src/pilot_langgraph/server.py: the worker server.
pub mod Stats
pub mod RateLimiter
pub mod Types
pub mod Invoke
pub mod Registry
pub mod Dispatch
pub mod Calls
pub mod Lifecycle
pub mod Request
pub mod Introspect
