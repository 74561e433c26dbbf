-- ===== src/Security.antt =====
-- The security services: security/*.py.
pub mod Model
pub mod Gateway
pub mod Documents
pub mod Policies
pub mod Sync
pub mod DataFlow
pub mod Access
pub mod Response
pub mod Network
pub mod Executor
pub mod Credentials
mod Samples
mod Tests
