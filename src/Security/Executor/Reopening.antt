-- ===== src/Security/Executor/Reopening.antt =====
-- What the response `unblock` does to a session that was closed.
use agent_factor.Base.{ℕ, ◌<◌, String, true, false, ◌||◌, ◌≡◌, refl, arith, Option, some}
use agent_factor.Base.{List, [], ◌∷◌, ◌==◌, string_eq, find?, update_where, ltb, str_length}
use agent_factor.Base.{ok}
use agent_factor.Store.{get, get-update_where, UniqueKeys}
use agent_factor.Security.Model.{State, Machine, NativeSession, SessionStatus, session_scope}
use agent_factor.Security.Executor.{
  opens, text_digest, session_query, native_session, close_row, close_session,
}
use agent_factor.Security.Response.{Response, set_status, session_status}
use agent_factor.Security.Executor.Sessions.{
  session_status-rows, session_query-ok, close_session-eq, close_rows-sessions, opens-absent,
}

abbrev key : NativeSession → String
key s = s.id

abbrev by_id : String → List NativeSession → Option NativeSession
by_id session_id rows = get key session_id rows

-- The row that a token opens is the row of the identifier.
opens-get :
    (session_id token_hash : String) (now : ℕ) (rows : List NativeSession) (x : NativeSession)
    → UniqueKeys key rows
    → find? (opens session_id token_hash now) rows ≡ some x
    → by_id session_id rows ≡ some x
unfolding find? get opens
opens-get session_id token_hash now [] x u h = absurd (ground arith)
opens-get session_id token_hash now (r ∷ rows) x (fresh, u) h =
    let absent = opens-absent session_id token_hash now rows in
    let rest = opens-get session_id token_hash now rows x u in ground (arith, absent, rest)

get-opens :
    (session_id token_hash : String) (now : ℕ) (rows : List NativeSession) (x : NativeSession)
    → by_id session_id rows ≡ some x
    → opens session_id token_hash now x ≡ true
    → find? (opens session_id token_hash now) rows ≡ some x
unfolding find? get opens
get-opens session_id token_hash now [] x h o = absurd (ground arith)
get-opens session_id token_hash now (r ∷ rows) x h o =
    ground (arith, get-opens session_id token_hash now rows x)

module _ (machine : Machine) where
  get-native_session :
      (later : ℕ) (session_id token : String) (t : State) (y : NativeSession)
      → (token == "" || ltb 256 (str_length token)) ≡ false
      → by_id session_id t.db.sessions ≡ some y
      → opens session_id (text_digest machine token) later y ≡ true
      → native_session machine later session_id token t ≡ (ok y, t)
  unfolding native_session session_query session_scope
  get-native_session later session_id token t y fit h o =
      ground (arith, get-opens session_id (text_digest machine token) later t.db.sessions y h o)

  token-fits :
      (now : ℕ) (session_id token : String) (s : State) (x : NativeSession)
      → (native_session machine now session_id token s).0 ≡ ok x
      → (token == "" || ltb 256 (str_length token)) ≡ false
  unfolding native_session
  token-fits now session_id token s x h = ground arith

  -- The row after closing and unblocking.
  reopened-row :
      (closing unblocking : ℕ) (session_id token actor_id reason : String) (s : State)
      (x : NativeSession) (r : Response)
      → by_id session_id s.db.sessions ≡ some x
      → (close_session machine closing session_id token s).0 ≡ ok tt
      → (session_status machine unblocking session_id false actor_id reason
          (close_session machine closing session_id token s).1).0
        ≡ ok r
      → by_id session_id
          (session_status machine unblocking session_id false actor_id reason
            (close_session machine closing session_id token s).1).1.db.sessions
        ≡ some (record x { status = SessionStatus.active; ended_at = some closing })
  reopened-row closing unblocking session_id token actor_id reason s x r got c b =
      let t = (close_session machine closing session_id token s).1 in
      let same = close_session-eq machine closing session_id token s c in
      let closed_rows : t.db.sessions
          ≡ update_where (λ y. y.id == session_id) (close_row closing) s.db.sessions =
        rw same (close_rows-sessions machine closing session_id s (rw same at c)) in
      rw
        (session_status-rows machine unblocking session_id actor_id reason false t r b, closed_rows)
        (ground (
          arith,
          got,
          get-update_where key session_id (set_status SessionStatus.active) (λ y. refl)
              (update_where (λ y. y.id == session_id) (close_row closing) s.db.sessions),
          get-update_where key session_id (close_row closing) (λ y. refl) s.db.sessions,
        ))

  -- A session that its token opens, that is closed, and that is then unblocked, is opened by that
  -- token again until it expires, although it has an end.
  pub unblock-reopens :
      (now closing unblocking later : ℕ) (session_id token actor_id reason : String) (s : State)
      (x : NativeSession) (r : Response)
      → UniqueKeys key s.db.sessions
      → (native_session machine now session_id token s).0 ≡ ok x
      → (close_session machine closing session_id token s).0 ≡ ok tt
      → (session_status machine unblocking session_id false actor_id reason
          (close_session machine closing session_id token s).1).0
        ≡ ok r
      → later < x.expires_at
      → (native_session machine later session_id token
          (session_status machine unblocking session_id false actor_id reason
            (close_session machine closing session_id token s).1).1).0
        ≡ ok (record x { ended_at = some closing })
  unfolding opens
  unblock-reopens now closing unblocking later session_id token actor_id reason s x r u e c b
        valid =
      let (found, same, match) = session_query-ok machine now session_id token s x e in
      let got = opens-get session_id (text_digest machine token) now s.db.sessions x u found in
      let t = (close_session machine closing session_id token s).1 in
      let open_row : record x { status = SessionStatus.active; ended_at = some closing }
          ≡ record x { ended_at = some closing } =
        ground (arith, match) in
      let answer =
        get-native_session later session_id token
          (session_status machine unblocking session_id false actor_id reason t).1
          (record x { status = SessionStatus.active; ended_at = some closing })
          (token-fits now session_id token s x e)
          (reopened-row closing unblocking session_id token actor_id reason s x r got c b)
          (ground (arith, match)) in
      rw (answer, open_row) refl
