-- ===== src/Security/Executor/Sessions.antt =====
-- The life of a native session: created, blocked, closed, and what opens it.
use agent_factor.Base.{ℕ, String, Bool, true, false, not, ◌&&◌, ◌≡◌, refl, arith, none, some}
use agent_factor.Base.{List, [], ◌∷◌, ◌==◌, string_eq, find?, update_where, if◌then◌else◌, any}
use agent_factor.Base.{ok, err, Result-cases, Option-cases, inl, inr, find?-passes}
use agent_factor.Store.{has_key}
use agent_factor.Security.Model.{State, Machine, NativeSession, SessionStatus, session_scope}
use agent_factor.Security.Executor.{
  opens, text_digest, session_query, native_session, close_row, close_rows, close_session,
  is_live_status,
}
use agent_factor.Security.Response.{
  Response, record_response, set_status, session_rows, session_status,
}

-- No row of the session is active.
abbrev pub is_shut : String → List NativeSession → Bool
is_shut session_id rows = not (any (λ s. s.id == session_id && is_live_status s.status) rows)

shut-find? :
    (session_id token_hash : String) (now : ℕ) (rows : List NativeSession)
    → is_shut session_id rows ≡ true
    → find? (opens session_id token_hash now) rows ≡ none
unfolding find? any opens
shut-find? session_id token_hash now [] h = refl
shut-find? session_id token_hash now (r ∷ rows) h =
    ground (arith, shut-find? session_id token_hash now rows)

update-shut :
    (session_id : String) (f : NativeSession → NativeSession)
    → ((s : NativeSession) → (is_live_status (f s).status ≡ false) × ((f s).id ≡ s.id))
    → (rows : List NativeSession)
    → is_shut session_id (update_where (λ s. s.id == session_id) f rows) ≡ true
unfolding update_where any
update-shut session_id f dead [] = refl
update-shut session_id f dead (r ∷ rows) =
    let (status, same) = dead r in ground (arith, update-shut session_id f dead rows, status, same)

-- Without a row of the identifier no token opens anything.
pub opens-absent :
    (session_id token_hash : String) (now : ℕ) (rows : List NativeSession)
    → has_key (λ x. x.id) session_id rows ≡ false
    → find? (opens session_id token_hash now) rows ≡ none
unfolding find? any opens has_key
opens-absent session_id token_hash now [] h = refl
opens-absent session_id token_hash now (r ∷ rows) h =
    ground (arith, opens-absent session_id token_hash now rows)

module _ (machine : Machine) where
  -- A session that is shut is opened by no token, at no time.
  pub shut-native_session :
      (later : ℕ) (session_id token : String) (t : State)
      → is_shut session_id t.db.sessions ≡ true
      → native_session machine later session_id token t ≡ (err "native_session_unauthorized" 403, t)
  unfolding native_session session_query session_scope
  shut-native_session later session_id token t h =
      ground (arith, shut-find? session_id (text_digest machine token) later t.db.sessions h)

  pub session_query-ok :
      (now : ℕ) (session_id token : String) (s : State) (x : NativeSession)
      → (native_session machine now session_id token s).0 ≡ ok x
      → (find? (opens session_id (text_digest machine token) now) s.db.sessions ≡ some x)
        × ((native_session machine now session_id token s).1 ≡ s)
        × (opens session_id (text_digest machine token) now x ≡ true)
  unfolding native_session session_query session_scope
  session_query-ok now session_id token s x h =
      elim (Option-cases (find? (opens session_id (text_digest machine token) now) s.db.sessions)) [
        | inl e ↦ absurd (ground arith)
        | inr (y, e) ↦ (
          ground arith,
          ground arith,
          ground (
            arith,
            find?-passes (opens session_id (text_digest machine token) now) s.db.sessions y e,
          ),
        )
      ]

  pub close_session-eq :
      (now : ℕ) (session_id token : String) (s : State)
      → (close_session machine now session_id token s).0 ≡ ok tt
      → close_session machine now session_id token s ≡ session_scope (close_rows now session_id) s
  unfolding close_session opens
  close_session-eq now session_id token s h =
      elim (Result-cases (native_session machine now session_id token s).0) [
        | inr (e, n, e₁) ↦ absurd (ground arith)
        | inl (x, e) ↦
            let (found, same, match) = session_query-ok now session_id token s x e in
            let named : x.id ≡ session_id = ground (arith, match) in ground (arith, e, same, named)
      ]

  pub close_rows-sessions :
      (now : ℕ) (session_id : String) (s : State)
      → (session_scope (close_rows now session_id) s).0 ≡ ok tt
      → (session_scope (close_rows now session_id) s).1.db.sessions
        ≡ update_where (λ x. x.id == session_id) (close_row now) s.db.sessions
  unfolding session_scope close_rows
  close_rows-sessions now session_id s h = ground arith

  -- After a session was closed, no token opens it, at any time.
  pub close_session-shut :
      (now : ℕ) (session_id token : String) (s : State)
      → (close_session machine now session_id token s).0 ≡ ok tt
      → is_shut session_id (close_session machine now session_id token s).1.db.sessions ≡ true
  close_session-shut now session_id token s h =
      let same = close_session-eq now session_id token s h in
      rw (same, close_rows-sessions now session_id s (rw same at h))
        (update-shut session_id (close_row now) (λ x. (refl, refl)) s.db.sessions)

  -- Once a session was closed by its own token, no token opens it at any time, as long as no step
  -- in between writes the table of sessions.
  pub close_session-unauthorized :
      (now later : ℕ) (session_id token other : String) (s t : State)
      → (close_session machine now session_id token s).0 ≡ ok tt
      → t.db.sessions ≡ (close_session machine now session_id token s).1.db.sessions
      → native_session machine later session_id other t ≡ (err "native_session_unauthorized" 403, t)
  close_session-unauthorized now later session_id token other s t h same =
      shut-native_session later session_id other t
        (rw same (close_session-shut now session_id token s h))

  pub session_status-rows :
      (now : ℕ) (session_id actor_id reason : String) (blocked : Bool) (s : State) (r : Response)
      → (session_status machine now session_id blocked actor_id reason s).0 ≡ ok r
      → (session_status machine now session_id blocked actor_id reason s).1.db.sessions
        ≡ update_where
            (λ x. x.id == session_id)
            (set_status (if blocked then SessionStatus.blocked_session else SessionStatus.active))
            s.db.sessions
  unfolding session_status session_scope session_rows record_response
  session_status-rows now session_id actor_id reason true s r h = ground arith
  session_status-rows now session_id actor_id reason false s r h = ground arith

  -- Once a session was blocked, no token opens it at any time, as long as no step in between writes
  -- the table of sessions.
  block_session-unauthorized :
      (now later : ℕ) (session_id actor_id reason token : String) (s t : State) (r : Response)
      → (session_status machine now session_id true actor_id reason s).0 ≡ ok r
      → t.db.sessions ≡ (session_status machine now session_id true actor_id reason s).1.db.sessions
      → native_session machine later session_id token t ≡ (err "native_session_unauthorized" 403, t)
  block_session-unauthorized now later session_id actor_id reason token s t r h same =
      shut-native_session later session_id token t (
        rw (same, session_status-rows now session_id actor_id reason true s r h)
          (update-shut session_id (set_status SessionStatus.blocked_session) (λ x. (refl, refl))
            s.db.sessions))
