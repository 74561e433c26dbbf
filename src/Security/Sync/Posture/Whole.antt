-- ===== src/Security/Sync/Posture/Whole.antt =====
-- A whole synchronization and the chains that the stored events come from.
use agent_factor.Base.{Option}
use agent_factor.Security.Sync.Daemon.{Daemon, Posture}
