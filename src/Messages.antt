-- ===== src/Messages.antt =====
-- Messages between terminals and approvals of commands: services/inbox_service.py and
-- services/approval_service.py.
pub mod Inbox
pub mod Approvals
pub mod Delivery
pub mod Decided
mod Tests
