-- ===== src/Security/Sync.antt =====
-- security/service.py: the synchronization with the ACR daemon, and what is known of its proofs.
pub mod Chains
pub mod Daemon
pub mod Ingest
pub mod Pages
pub mod Linked
pub mod Posture
pub mod Canary
pub mod Proofs
