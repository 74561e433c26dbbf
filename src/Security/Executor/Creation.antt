-- ===== src/Security/Executor/Creation.antt =====
-- A session that was created is opened by its token.
use agent_factor.Base.{ℕ, ◌+◌, ◌<◌, String, true, false, ◌||◌, ◌≡◌, refl, arith, some}
use agent_factor.Base.{[], ◌∷◌, ◌++◌, ◌==◌, string_eq, find?, ltb, str_length}
use agent_factor.Base.{ok, Option-cases, inl, inr, ==-refl, find?-append}
use agent_factor.Store.{add, has_key}
use agent_factor.Security.Model.{Db, State, Machine, NativeSession, session_scope, seconds}
use agent_factor.Security.Executor.{
  FileSystem, CreateRequest, Created, opens, text_digest, session_row, create_rows, create_session,
  native_session, session_query, conflicts,
}
use agent_factor.Security.Executor.Sessions.{opens-absent}

create_rows-ok :
    (row : NativeSession) (db db' : Db) (u : Unit {0})
    → create_rows row db ≡ ok (u, db')
    → (has_key (λ s. s.id) row.id db.sessions ≡ false)
      × (has_key (λ s. s.token_hash) row.token_hash db.sessions ≡ false)
      × (db'.sessions ≡ db.sessions ++ row ∷ [])
unfolding create_rows add
create_rows-ok row db db' u h = (ground arith, ground arith, ground arith)

module _ (machine : Machine) (fs : FileSystem) (now : ℕ) (r : CreateRequest) (s : State)
    (c : Created) where
  -- A session is created for a directory that exists and that neither holds the control data nor
  -- lies in it; its row is new, active, without labels, and has the hash of the token only.
  pub record IsCreated (t : State) : Type 0 where
    pub workspace : String
    pub resolved : fs.resolve_strict r.workspace_path ≡ some workspace
    pub directory : fs.is_dir workspace ≡ true
    pub apart : conflicts workspace fs.control_root ≡ false
    pub rows :
        t.db.sessions
        ≡ s.db.sessions ++ session_row machine r c.id c.token workspace c.expires_at ∷ []
    pub fresh : has_key (λ x. x.id) c.id s.db.sessions ≡ false
    pub expiry : c.expires_at ≡ now + seconds r.ttl_seconds

  pub create_session-IsCreated :
      (create_session machine fs now r s).0 ≡ ok c → IsCreated (create_session machine fs now r s).1
  unfolding create_session session_scope create_rows add
  create_session-IsCreated h = elim (Option-cases (fs.resolve_strict r.workspace_path)) [
    | inl e ↦ absurd (ground arith)
    | inr (workspace, e) ↦ record {
      workspace = workspace;
      resolved = e;
      directory = ground arith;
      apart = ground arith;
      rows = ground arith;
      fresh = ground arith;
      expiry = ground arith;
    }
  ]

  -- Until it expires, a session that was created is opened by the token that its creator got, and
  -- has the creator's workspace and principal.
  pub create_then_open :
      (later : ℕ)
      → (create_session machine fs now r s).0 ≡ ok c
      → (c.token == "" || ltb 256 (str_length c.token)) ≡ false
      → later < now + seconds r.ttl_seconds
      → (x : NativeSession) × ((native_session machine later c.id c.token
            (create_session machine fs now r s).1).0
          ≡ ok x)
        × (x.principal_id ≡ r.principal.id)
        × (fs.resolve_strict r.workspace_path ≡ some x.workspace_path)
        × (x.taint_labels ≡ [])
  unfolding native_session session_query session_scope opens find?
  create_then_open later h fits valid =
      let i = create_session-IsCreated h in
      let row = session_row machine r c.id c.token i.workspace c.expires_at in
      let hash = text_digest machine c.token in
      (
        row,
        ground (
          arith,
          i.rows,
          i.expiry,
          opens-absent c.id hash later s.db.sessions i.fresh,
          find?-append (opens c.id hash later) s.db.sessions (row ∷ []),
          ==-refl c.id,
          ==-refl hash,
        ),
        refl,
        i.resolved,
        refl,
      )
