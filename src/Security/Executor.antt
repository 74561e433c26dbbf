-- ===== src/Security/Executor.antt =====
-- security/executor.py: native sessions, the paths that they may name, and the authorization of an
-- action of theirs. The execution itself is the operating system's.
pub mod Network
pub mod Sessions
pub mod Reopening
pub mod Creation
pub mod Actions
use agent_factor.Base.{
  ℕ, ◌+◌, String, ◌<>◌, Bool, true, false, not, ◌||◌, ◌&&◌, Option, none, some, List, [], ◌∷◌,
}
use agent_factor.Base.{
  ◌==◌, contains, string_eq, if◌then◌else◌, find?, update_where, ltb, leb, str_length, has_nul,
}
use agent_factor.Base.{Result, ok, err, Exec, pure, raise, lift, continue, and_then, ◌>>=◌, ◌>>◌}
use agent_factor.Json.{Fields}
use agent_factor.Store.{get, add}
use agent_factor.Security.Model.{
  Db, State, Machine, NativeSession, SessionStatus, session_scope, draw, seconds, block,
}
use agent_factor.Security.Gateway.Action.{
  SecurityAction, Surface, Principal, Agent, native, is_abs, join_path,
}
use agent_factor.Security.Gateway.Policy.{within}
use agent_factor.Security.Gateway.Decisions.{Decision, Consumed, evaluate, consume, is_block}

-- `NativeSessionCreateRequest`
pub record CreateRequest : Type 0 where
  pub principal : Principal
  pub project_id : String
  pub workspace_path : String
  pub agent : Agent
  pub ttl_seconds : ℕ

pub record Created : Type 0 where
  pub id : String
  pub token : String
  pub workspace_digest : String
  pub expires_at : ℕ

-- What the service asks of the file system: the path that `expanduser` and a strict `resolve` give,
-- `is_dir`, and the directory of the control data.
pub record FileSystem : Type 0 where
  pub resolve_strict : String → Option String
  pub is_dir : String → Bool
  pub control_root : String

abbrev pub is_live_status : SessionStatus → Bool
is_live_status SessionStatus.active = true
is_live_status _ = false

-- One path is the other, or one of its parents.
abbrev pub conflicts : String → String → Bool
conflicts workspace control_root = within workspace control_root || within control_root workspace

-- The session that a token opens, at a time.
unfoldable pub opens : String → String → ℕ → NativeSession → Bool
opens session_id token_hash now s =
    s.id == session_id
    && s.token_hash == token_hash
    && is_live_status s.status
    && ltb now s.expires_at

abbrev pub close_row : ℕ → NativeSession → NativeSession
close_row now s = record s { status = SessionStatus.closed; ended_at = some now }

-- The block of `close_session`
unfoldable pub close_rows : ℕ → String → Db → Result (Unit {0} × Db)
close_rows now session_id db = elim (get (λ s. s.id) session_id db.sessions) [
  | none ↦ err "native_session_not_found" 404
  | some s ↦ ok (
    tt,
    record db { sessions = update_where (λ s. s.id == session_id) (close_row now) db.sessions },
  )
]

-- The block of `create_session`: the identifier and the hash of the token are unique columns.
unfoldable pub create_rows : NativeSession → Db → Result (Unit {0} × Db)
create_rows row db = and_then (add (λ s. s.id) row db.sessions) (λ sessions.
    and_then (add (λ s. s.token_hash) row db.sessions)
      (λ same. ok (tt, record db { sessions = sessions })))

module _ (machine : Machine) where
  open machine use {realpath, sha256_hex, uuid_hex, token_urlsafe}

  -- `_token_hash`, and `_path_digest` of the text of a path
  abbrev pub text_digest : String → String
  text_digest text = "sha256:" <> sha256_hex text

  abbrev pub session_row : CreateRequest → String → String → String → ℕ → NativeSession
  session_row r session_id token workspace expires_at = record {
    id = session_id;
    token_hash = text_digest token;
    principal_id = r.principal.id;
    project_id = r.project_id;
    workspace_path = workspace;
    workspace_digest = text_digest workspace;
    agent_name = r.agent.name;
    agent_version = r.agent.version;
    status = SessionStatus.active;
    taint_labels = [];
    expires_at = expires_at;
    ended_at = none;
  }

  -- `create_session`
  unfoldable pub create_session : FileSystem → ℕ → CreateRequest → Exec State Created
  create_session fs now r = elim (fs.resolve_strict r.workspace_path) [
    | none ↦ raise "FileNotFoundError" 500
    | some workspace ↦
        if not (fs.is_dir workspace)
        then raise "native_workspace_invalid" 400
        else if conflicts workspace fs.control_root
        then raise "native_workspace_conflicts_with_control_data" 400
        else (do
          n ← draw 2
          let token = token_urlsafe n
          let session_id = "native_session_" <> uuid_hex (n + 1)
          let expires_at = now + seconds r.ttl_seconds
          session_scope (create_rows (session_row r session_id token workspace expires_at))
          pure (record {
            id = session_id;
            token = token;
            workspace_digest = text_digest workspace;
            expires_at = expires_at;
          }))
  ]

  -- The query of `_session`
  unfoldable pub session_query : String → String → ℕ → Db → Result (NativeSession × Db)
  session_query session_id token now db =
      elim (find? (opens session_id (text_digest token) now) db.sessions) [
        | none ↦ err "native_session_unauthorized" 403
        | some session ↦ ok (session, db)
      ]

  -- `_session`
  unfoldable pub native_session : ℕ → String → String → Exec State NativeSession
  native_session now session_id token =
      if token == "" || ltb 256 (str_length token)
      then raise "native_session_unauthorized" 403
      else session_scope (session_query session_id token now)

  -- `close_session`
  unfoldable pub close_session : ℕ → String → String → Exec State (Unit {0})
  close_session now session_id token = do
    session ← native_session now session_id token
    session_scope (close_rows now session.id)

  -- `_scoped_path`
  unfoldable pub scoped_path : String → String → Result String
  scoped_path workspace path =
      if has_nul path
      then err "native_path_invalid" 400
      else let candidate = realpath (if is_abs path then path else join_path workspace path) in
        if within candidate workspace then ok candidate else err "native_path_outside_workspace" 403

  -- The action that `_authorize` asks about.
  unfoldable pub native_action : NativeSession → Surface → String → String → Fields → SecurityAction
  native_action session surface operation resource params = record {
    principal = record { id = session.principal_id; authn = "native-session-token" };
    endpoint_id = "agentfactor-local";
    agent = record { name = session.agent_name; version = session.agent_version };
    integration_mode = native;
    context = record {
      project_id = session.project_id;
      session_id = session.id;
      cwd = session.workspace_path;
      tool_call_id = none;
    };
    action = record {
      surface = surface;
      operation = operation;
      resource = resource;
      params = params;
    };
  }

  -- `_authorize`: the clock is read for the decision and again for the consumption. A decision that
  -- does not block has a token.
  unfoldable pub authorize_native :
      (now later : ℕ) → SecurityAction → Exec State (Decision × Consumed)
  authorize_native now later action = do
    decision ← evaluate machine now action
    elim decision.execution_grant [
      | none ↦ raise "native_action_blocked" 403
      | some g ↦ (do consumed ← consume machine later g.token action; pure (decision, consumed))
    ]
