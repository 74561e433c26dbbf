-- ===== src/Security/Sync/Pages/Chain.antt =====
-- What a round of the loop has checked of its page.
use agent_factor.Base.{ℕ, ◌≤◌, ◌<◌, String, true, false, ◌≡◌, arith, List, [], ◌∷◌}
use agent_factor.Base.{string_eq, nat_eq}
use agent_factor.Base.{ok, and_then-eq-ok, bind-eq-ok, lift-eq-ok, continue-eq-ok}
use agent_factor.Security.Model.{Db, State, session_scope}
use agent_factor.Security.Model.Keeps.{session_scope-eq-ok}
use agent_factor.Security.Sync.Daemon.{
  Daemon, DaemonEvent, EventPage, Workspace, Reply, reply, answer,
}
use agent_factor.Security.Sync.Pages.{
  check_chain, expected_hash, validate_event_chain, store_page, Round, goes_on, next_round,
  check_page, sync_page, no_events,
}

-- A chain ends at or behind its start, and behind it where it is not empty.
pub check_chain-le :
    (after : ℕ) (hash : String) (es : List DaemonEvent) (last : ℕ)
    → check_chain after hash es ≡ ok last
    → after ≤ last
unfolding check_chain
check_chain-le after hash [] last h = ground arith
check_chain-le after hash (e ∷ es) last h =
    ground (arith, check_chain-le e.sequence e.event_hash es last)

pub check_chain-lt :
    (after : ℕ) (hash : String) (es : List DaemonEvent) (last : ℕ)
    → check_chain after hash es ≡ ok last
    → no_events es ≡ false
    → after < last
unfolding check_chain
check_chain-lt after hash [] last h e = ground arith
check_chain-lt after hash (e ∷ es) last h _ =
    ground (arith, check_chain-le e.sequence e.event_hash es last)

-- What a page was checked for before it was stored.
abbrev pub Checked : String → ℕ → EventPage → Db → Type 0
Checked workspace_id after page db =
    (hash : String) × (expected_hash workspace_id after db ≡ ok hash)
    × (check_chain after hash page.events ≡ ok page.next_sequence)

pub validate-Checked :
    (workspace_id : String) (after : ℕ) (page : EventPage) (db : Db)
    → validate_event_chain workspace_id after page db ≡ ok tt
    → Checked workspace_id after page db
unfolding validate_event_chain
validate-Checked workspace_id after page db h =
    let (hash, e, h1) = and_then-eq-ok (expected_hash workspace_id after db) _ h in
    let (last, f, h2) = and_then-eq-ok (check_chain after hash page.events) _ h1 in
    (hash, e, ground (arith, f, h2))

pub next_round-goes_on :
    (page : EventPage) (ingested next more : ℕ)
    → next_round page ingested ≡ ok (goes_on next more)
    → (page.has_more ≡ true) × (page.next_sequence ≡ next) × (no_events page.events ≡ false)
unfolding next_round
next_round-goes_on page ingested next more h = ground arith

answer-eq-ok : {A : Type 0} (r : Reply A) (a : A) → answer r ≡ ok a → r ≡ reply a
answer-eq-ok r a h = ground arith

module _ (daemon : Daemon) (workspace : Workspace) (limit after : ℕ) (s s' : State) where
  -- A round that returns.
  abbrev pub RoundOf : Round → Type 0
  RoundOf round =
      (page : EventPage) × (ingested : ℕ) × (daemon.events workspace.workspace_id after limit
        ≡ reply page)
      × Checked workspace.workspace_id after page s.db
      × (store_page workspace page s.db ≡ ok (ingested, s'.db))
      × (next_round page ingested ≡ ok round)

  pub sync_page-RoundOf :
      (round : Round) → sync_page daemon workspace limit after s ≡ (ok round, s') → RoundOf round
  unfolding sync_page
  sync_page-RoundOf round h =
      let (page, e1, h1) =
        continue-eq-ok (answer (daemon.events workspace.workspace_id after limit)) _ s s' round h in
      let (_, e2, h2) = continue-eq-ok (check_page workspace after page) _ s s' round h1 in
      let (_, e3, h3) =
        continue-eq-ok (validate_event_chain workspace.workspace_id after page s.db) _ s s' round
          h2 in
      let (ingested, s1, e4, h4) =
        bind-eq-ok (session_scope (store_page workspace page)) _ s s' round h3 in
      let (f, same) = lift-eq-ok (next_round page ingested) s1 s' round h4 in
      (
        page,
        ingested,
        answer-eq-ok (daemon.events workspace.workspace_id after limit) page e1,
        validate-Checked workspace.workspace_id after page s.db e3,
        rw same (session_scope-eq-ok (store_page workspace page) s s1 ingested e4),
        f,
      )

  -- A round after which the loop goes on has stored at least one event, so the cursor has grown.
  pub goes_on-lt :
      (next more : ℕ)
      → sync_page daemon workspace limit after s ≡ (ok (goes_on next more), s')
      → (page : EventPage) × (daemon.events workspace.workspace_id after limit ≡ reply page)
        × (page.has_more ≡ true)
        × (page.next_sequence ≡ next)
        × (after < next)
  unfolding next_round
  goes_on-lt next more h =
      let (page, ingested, e, (hash, _, chain), _, f) = sync_page-RoundOf (goes_on next more) h in
      let (more_events, names, some_events) = next_round-goes_on page ingested next more f in
      (
        page,
        e,
        more_events,
        names,
        rw (← names) (check_chain-lt after hash page.events page.next_sequence chain some_events),
      )
