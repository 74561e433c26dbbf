-- ===== src/Security/DataFlow/Taint.antt =====
-- What happens to the labels of a session.
use agent_factor.Base.{
  ℕ, String, Bool, false, ◌≡◌, refl, arith, ◌||◌, ◌&&◌, none, some, List, ◌++◌, ◌∙◌,
}
use agent_factor.Base.{◌==◌, contains, string_eq, sorted_set}
use agent_factor.Base.{contains-append, contains-sorted_set}
use agent_factor.Base.{ok, err, Result-cases, Bool-cases, inl, inr}
use agent_factor.Store.{get, get-update_where, get-update_where-ne}
use agent_factor.Security.Model.{Db, State, NativeSession, session_scope}
use agent_factor.Security.DataFlow.{find_session, set_labels, write_labels, taint_session}

-- The session exists and has the label.
unfoldable pub has_label : String → String → Db → Bool
has_label session_id label db = elim (get (λ r. r.id) session_id db.sessions) [
  | none ↦ false
  | some session ↦ contains session.taint_labels label
]

find_session-eq-ok :
    (session_id : String) (db : Db) (x : NativeSession)
    → find_session session_id db ≡ ok x
    → get (λ r. r.id) session_id db.sessions ≡ some x
unfolding find_session
find_session-eq-ok session_id db x h = ground arith

-- The labels after a write.
pub has_label-write_labels :
    (session_id label : String) (labels : List String) (db : Db) (x : NativeSession)
    → find_session session_id db ≡ ok x
    → has_label session_id label (write_labels session_id labels db) ≡ contains labels label
unfolding has_label write_labels
has_label-write_labels session_id label labels db x h = ground (
  arith,
  find_session-eq-ok session_id db x h,
  get-update_where (λ r. r.id) session_id (set_labels labels) (λ r. refl) db.sessions,
)

-- The other sessions keep theirs.
pub has_label-write_labels-ne :
    (session_id other label : String) (labels : List String) (db : Db)
    → (other == session_id) ≡ false
    → has_label other label (write_labels session_id labels db) ≡ has_label other label db
unfolding has_label write_labels
has_label-write_labels-ne session_id other label labels db h = ground (
  arith,
  get-update_where-ne (λ r. r.id) session_id (set_labels labels) (λ r. refl) other db.sessions h,
)

-- The sessions after the call: the session's own labels grow by exactly those that are added, and are
-- what the caller gets; nothing else of its row changes, and no other row. Only the table of
-- sessions is written.
pub record IsTainted (session_id : String) (labels stored : List String) (db db' : Db)
    : Type 0 where
  pub only : db' ≡ record db { sessions = db'.sessions }
  pub own :
      (x : NativeSession) × (get (λ r. r.id) session_id db.sessions ≡ some x)
      × (get (λ r. r.id) session_id db'.sessions ≡ some (record x { taint_labels = stored }))
  pub others :
      (other : String)
      → (other == session_id) ≡ false
      → get (λ r. r.id) other db'.sessions ≡ get (λ r. r.id) other db.sessions
  pub reply : (l : String) → has_label session_id l db' ≡ contains stored l
  pub union :
      (other l : String)
      → has_label other l db' ≡ (has_label other l db || other == session_id && contains labels l)
  pub evidence : db'.declassifications ≡ db.declassifications

pub has_label-find_session :
    (session_id label : String) (db : Db) (x : NativeSession)
    → find_session session_id db ≡ ok x
    → has_label session_id label db ≡ contains x.taint_labels label
unfolding has_label
has_label-find_session session_id label db x h =
    ground (arith, find_session-eq-ok session_id db x h)

abbrev tainted : List String → NativeSession → List String
tainted labels x = sorted_set (x.taint_labels ++ labels)

write_tainted-IsTainted :
    (session_id : String) (labels : List String) (db : Db) (x : NativeSession)
    → find_session session_id db ≡ ok x
    → IsTainted session_id labels
        (tainted labels x)
        db
        (write_labels session_id (tainted labels x) db)
unfolding write_labels
write_tainted-IsTainted session_id labels db x found = record {
  only = refl;
  own = (
    x,
    find_session-eq-ok session_id db x found,
    get-update_where (λ r. r.id) session_id (set_labels (tainted labels x)) (λ r. refl) db.sessions
        ∙ rw (find_session-eq-ok session_id db x found) refl,
  );
  others = λ other differ.
      get-update_where-ne (λ r. r.id) session_id (set_labels (tainted labels x)) (λ r. refl) other
        db.sessions differ;
  reply = λ l. has_label-write_labels session_id l (tainted labels x) db x found;
  union = λ other l. elim (Bool-cases (other == session_id)) [
    | inl same ↦ ground (
      arith,
      has_label-write_labels session_id l (tainted labels x) db x found,
      has_label-find_session session_id l db x found,
      contains-sorted_set l (x.taint_labels ++ labels),
      contains-append x.taint_labels labels l,
    )
    | inr differ ↦
        ground (arith, has_label-write_labels-ne session_id other l (tainted labels x) db differ)
  ];
  evidence = refl;
}

taint_session-eq :
    (session_id : String) (labels stored : List String) (s : State)
    → (taint_session session_id labels s).0 ≡ ok stored
    → (x : NativeSession) × (find_session session_id s.db ≡ ok x)
      × (stored ≡ tainted labels x)
      × ((taint_session session_id labels s).1.db ≡ write_labels session_id (tainted labels x) s.db)
unfolding taint_session session_scope
taint_session-eq session_id labels stored s h = elim (Result-cases (find_session session_id s.db)) [
  | inr (e, n, missing) ↦ absurd (ground arith)
  | inl (x, found) ↦ (x, found, ground arith, ground arith)
]

-- A taint that succeeds adds exactly the given labels to the session, changes nothing else of its row,
-- no row of another session and no other table, and answers the labels that are stored.
pub taint_session-IsTainted :
    (session_id : String) (labels stored : List String) (s : State)
    → (taint_session session_id labels s).0 ≡ ok stored
    → IsTainted session_id labels stored s.db (taint_session session_id labels s).1.db
taint_session-IsTainted session_id labels stored s h =
    let (x, found, e, e₁) = taint_session-eq session_id labels stored s h in
    rw (e, e₁) (write_tainted-IsTainted session_id labels s.db x found)

-- A taint that raises changes nothing.
pub taint_session-failed :
    (session_id : String) (labels : List String) (s : State) (code : String) (n : ℕ)
    → (taint_session session_id labels s).0 ≡ err code n
    → (taint_session session_id labels s).1.db ≡ s.db
unfolding taint_session session_scope
taint_session-failed session_id labels s code n h = ground arith
