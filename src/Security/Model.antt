-- ===== src/Security/Model.antt =====
-- The security tables of clients/database.py that the services write, the state that they share,
-- and what they take from the machine. `created_at` is the place of a row in its table.
mod Rows
pub mod Keeps
unfoldable pub use Rows.*
use agent_factor.Base.{ℕ, ◌+◌, ◌*◌, String, Bool, Option, List}
use agent_factor.Base.{Result, ok, err, Exec}
use agent_factor.Json.{Json}

pub record Db : Type 0 where
  pub decisions : List ActionDecision
  pub grants : List ExecutionGrant
  pub alerts : List RiskAlert
  pub servers : List McpServer
  pub tools : List McpToolVersion
  pub results : List ExecutionResult
  pub sessions : List NativeSession
  pub policies : List SecurityPolicy
  pub revisions : List PolicyRevision
  pub bundles : List PolicyBundle
  pub declassifications : List Declassification
  pub leases : List CredentialLease
  pub bindings : List RoleBinding
  pub responses : List ResponseAction
  pub endpoints : List Endpoint
  pub rollouts : List PolicyRollout
  pub rollout_targets : List RolloutTarget
  pub integrations : List Integration
  pub events : List SecurityEvent
  pub event_links : List EventLink
  pub cursors : List SyncCursor
  pub proofs : List CapabilityProof

-- The gateway's configuration file.
pub data ConfigFile : Type 0 where
  absent unreadable : ConfigFile
  contents : String → ConfigFile

-- `drawn` counts the random values that were drawn: a rollback does not give them back.
pub record State : Type 0 where
  pub db : Db
  pub config_file : ConfigFile
  pub drawn : ℕ

-- What the services take from the machine: `os.path.realpath`, SHA-256 in hexadecimal, `json.dumps`
-- (`none` where it raises) and `json.loads`, and the n-th value of `uuid4().hex` and of
-- `token_urlsafe(32)`.
pub record Machine : Type 0 where
  pub realpath : String → String
  pub sha256_hex : String → String
  pub dumps : Json → Option String
  pub loads : String → Option Json
  pub uuid_hex : ℕ → String
  pub token_urlsafe : ℕ → String

abbrev pub seconds : ℕ → ℕ
seconds n = n * 1000000

-- `with session_scope() as db:` commits what the block wrote when it ends, and an exception rolls
-- all of it back: a block is a function that returns its value with the new tables, or raises.
abbrev pub commit : {A : Type 0} → State → Result (A × Db) → Result A × State
commit s (ok (a, db')) = (ok a, record s { db = db' })
commit s (err e n) = (err e n, s)

unfoldable pub session_scope : {A : Type 0} → (Db → Result (A × Db)) → Exec State A
session_scope body s = commit s (body s.db)

-- A method draws a fixed number of random values: the numbers from the result on.
abbrev pub draw : ℕ → Exec State ℕ
draw n s = (ok s.drawn, record s { drawn = s.drawn + n })
