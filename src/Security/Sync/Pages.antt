-- ===== src/Security/Sync/Pages.antt =====
-- `_sync_workspace` of service.py: the pages of events of one workspace, each checked against the
-- chain that is stored and committed with the cursor.
pub mod Chain
pub mod Rounds
use agent_factor.Base.{
  ℕ, zero, suc, ◌+◌, String, Bool, true, false, not, ◌&&◌, ◌||◌, Option, none, some, List, [], ◌∷◌,
  ◌++◌,
}
use agent_factor.Base.{◌==◌, string_eq, nat_eq, if◌then◌else◌, find?, any, ltb, leb, update_where}
use agent_factor.Base.{Result, ok, err, guard, and_then, then_do}
use agent_factor.Base.{Exec, pure, raise, lift, gets, continue, ◌>>=◌, ◌>>◌}
use agent_factor.Store.{get}
use agent_factor.Store.Upsert.{upsert}
use agent_factor.Security.Model.{Db, State, SecurityEvent, SyncCursor, session_scope}
use agent_factor.Security.Sync.Daemon.{
  Daemon, DaemonEvent, EventPage, Workspace, answer, sync_error, control_protocol_version,
}
use agent_factor.Security.Sync.Ingest.{ingest_event}

abbrev pub cursor_value : Option SyncCursor → ℕ
cursor_value none = 0
cursor_value (some c) = c.last_sequence

-- The cursor of a workspace, or 0.
unfoldable pub cursor_of : String → Db → ℕ
cursor_of workspace_id db = cursor_value (get (λ c. c.integration_id) workspace_id db.cursors)

abbrev pub is_stored : String → ℕ → SecurityEvent → Bool
is_stored workspace_id sequence e = e.integration_id == workspace_id && e.sequence == sequence

-- The loop of `_validate_event_chain`: the sequence goes up by one and each hash names the one
-- before. The result is the last sequence.
unfoldable pub check_chain : ℕ → String → List DaemonEvent → Result ℕ
check_chain after hash [] = ok after
check_chain after hash (e ∷ es) =
    let rest = check_chain e.sequence e.event_hash es in
    if e.sequence == after + 1 && e.previous_hash == hash then rest else err sync_error 500

-- The hash that the page has to go on from.
unfoldable pub expected_hash : String → ℕ → Db → Result String
expected_hash workspace_id after db =
    if after == 0 then ok "" else elim (find? (is_stored workspace_id after) db.events) [
      | none ↦ err sync_error 500
      | some previous ↦ ok previous.event_hash
    ]

-- `_validate_event_chain`
unfoldable pub validate_event_chain : String → ℕ → EventPage → Db → Result (Unit {0})
validate_event_chain workspace_id after page db =
    and_then (expected_hash workspace_id after db) (λ hash.
      and_then (check_chain after hash page.events)
        (λ last. guard (page.next_sequence == last) sync_error 500))

-- The loop that stores the events of a page.
unfoldable pub ingest_events : Workspace → List DaemonEvent → Db → Result (ℕ × Db)
ingest_events workspace [] db = ok (0, db)
ingest_events workspace (e ∷ es) db =
    and_then (ingest_event workspace e db)
      (λ one. and_then (ingest_events workspace es one.1) (λ rest. ok (one.0 + rest.0, rest.1)))

unfoldable pub write_cursor : String → ℕ → List SyncCursor → List SyncCursor
write_cursor workspace_id sequence rows =
    upsert (λ c. c.integration_id) workspace_id
      (record { integration_id = workspace_id; last_sequence = sequence })
      (λ c. record c { last_sequence = sequence }) rows

-- The transaction that stores a page.
unfoldable pub store_page : Workspace → EventPage → Db → Result (ℕ × Db)
store_page workspace page db = and_then (ingest_events workspace page.events db) (λ ingested. ok (
  ingested.0,
  record ingested.1 {
    cursors = write_cursor workspace.workspace_id page.next_sequence ingested.1.cursors;
  },
))

-- After a page the loop ends, or goes on from the next sequence.
pub data Round : Type 0 where
  ends : ℕ → Round
  goes_on : (next ingested : ℕ) → Round

abbrev pub no_events : List DaemonEvent → Bool
no_events [] = true
no_events (e ∷ es) = false

unfoldable pub next_round : EventPage → ℕ → Result Round
next_round page ingested =
    if not page.has_more
    then ok (ends ingested)
    else if no_events page.events
    then err sync_error 500
    else ok (goes_on page.next_sequence ingested)

-- The page is about the workspace, and the cursor does not go back.
unfoldable pub check_page : Workspace → ℕ → EventPage → Result (Unit {0})
check_page workspace after page =
    then_do
      (guard
        (page.protocol_version == control_protocol_version
          && page.workspace_id == workspace.workspace_id
          && page.project_id == workspace.project_id)
        sync_error 500)
      (guard (leb after page.next_sequence) sync_error 500)

module _ (daemon : Daemon) (workspace : Workspace) (limit : ℕ) where
  -- One round of the loop.
  unfoldable pub sync_page : ℕ → Exec State Round
  sync_page after = do
    page ← lift (answer (daemon.events workspace.workspace_id after limit))
    lift (check_page workspace after page)
    db ← gets (λ s. s.db)
    lift (validate_event_chain workspace.workspace_id after page db)
    ingested ← session_scope (store_page workspace page)
    lift (next_round page ingested)

  -- What follows a round: the loop is left by a return or a raise, or goes on.
  unfoldable pub resume :
      ℕ
      → Result Round × State
      → (ℕ → ℕ → State → Option (Result ℕ × State))
      → Option (Result ℕ × State)
  resume ingested (ok (ends more), s) loop = some (ok (ingested + more), s)
  resume ingested (ok (goes_on next more), s) loop = loop next (ingested + more) s
  resume ingested (err e n, s) loop = some (err e n, s)

  -- `while True`, for at most `fuel` rounds; `none` means that these were not enough.
  unfoldable pub sync_pages : ℕ → ℕ → ℕ → State → Option (Result ℕ × State)
  sync_pages zero after ingested s = none
  sync_pages (suc fuel) after ingested s = resume ingested (sync_page after s) (sync_pages fuel)

abbrev pub smaller : ℕ → ℕ → ℕ
smaller a b = if leb a b then a else b

-- `_sync_workspace`
unfoldable pub sync_workspace : Daemon → ℕ → Workspace → ℕ → State → Option (Result ℕ × State)
sync_workspace daemon fuel workspace maximum_page_size s =
    sync_pages daemon workspace (smaller 200 maximum_page_size) fuel
      (cursor_of workspace.workspace_id s.db) 0 s
