-- ===== src/Security/Sync/Linked/Committed.antt =====
-- Every page that is committed goes on with the chain of its workspace, so every round of every loop does.
use mathlib.Core.Path.{subst}
use agent_factor.Base.{
  ℕ, String, false, ◌≡◌, refl, arith, Option, none, some, List, sym, inl, inr, ◌⊎◌,
}
use agent_factor.Base.{◌==◌, ==-refl, string_eq, nat_eq, Bool-cases, filter}
use agent_factor.Base.{ok, and_then-eq-ok, Result-cases}
use agent_factor.Store.{get}
use agent_factor.Store.Upsert.{upserted, get-upsert, get-upsert-ne}
use agent_factor.Security.Model.{Db, State, SyncCursor, session_scope}
use agent_factor.Security.Sync.Daemon.{answer, Daemon, EventPage, Workspace}
use agent_factor.Security.Sync.Pages.{
  ingest_events, store_page, write_cursor, cursor_of, cursor_value, sync_page, check_page,
  validate_event_chain,
}
use agent_factor.Security.Sync.Pages.Chain.{Checked, validate-Checked}
use agent_factor.Security.Sync.Linked.Kept.{
  ingest_events-Ready, ingest_events_other, ingest_events-known, ingest_events-cursors,
}
use agent_factor.Security.Sync.Linked.{IsLinked, IsLinked-Ready, Ready, known_in, of_workspace}
use agent_factor.Security.Sync.Chains.{Stores-mono}

module _ (w : String) (sequence : ℕ) where
  cursor_value-upserted :
      (c : Option SyncCursor)
      → (upserted
          (λ c. c.integration_id)
          (record { integration_id = w; last_sequence = sequence })
          (λ c. record c { last_sequence = sequence })
          c).last_sequence
        ≡ sequence
  cursor_value-upserted none = refl
  cursor_value-upserted (some c) = refl

  -- The cursor that was written is read, and those of other workspaces stay.
  get-write_cursor :
      (rows : List SyncCursor)
      → cursor_value (get (λ c. c.integration_id) w (write_cursor w sequence rows)) ≡ sequence
  unfolding write_cursor
  get-write_cursor rows = ground (
    arith,
    get-upsert (λ c. c.integration_id) w (record { integration_id = w; last_sequence = sequence })
        (λ c. record c { last_sequence = sequence }) (λ c. refl) rows (==-refl w),
    cursor_value-upserted (get (λ c. c.integration_id) w rows),
  )

  get-write_cursor-ne :
      (v : String) (rows : List SyncCursor)
      → (v == w) ≡ false
      → get (λ c. c.integration_id) v (write_cursor w sequence rows)
        ≡ get (λ c. c.integration_id) v rows
  unfolding write_cursor
  get-write_cursor-ne v rows differ =
      get-upsert-ne (λ c. c.integration_id) w
        (record { integration_id = w; last_sequence = sequence })
        (λ c. record c { last_sequence = sequence }) (λ c. refl) v rows (==-refl w) differ

module _ (workspace : Workspace) where
  store_page-parts :
      (page : EventPage) (n : ℕ) (db db' : Db)
      → store_page workspace page db ≡ ok (n, db')
      → (db1 : Db) × (ingest_events workspace page.events db ≡ ok (n, db1))
        × (db' ≡ record db1 {
          cursors = write_cursor workspace.workspace_id page.next_sequence db1.cursors;
        })
  unfolding store_page
  store_page-parts page n db db' h =
      let ((k, db1), f, h1) = and_then-eq-ok (ingest_events workspace page.events db) _ h in
      (db1, ground (arith, f, h1), ground (arith, h1))

  module _ (page : EventPage) (n : ℕ) (db db' : Db)
      (h : store_page workspace page db ≡ ok (n, db')) where
    -- A page that was stored moves the cursor to its end.
    pub store_page-cursor : cursor_of workspace.workspace_id db' ≡ page.next_sequence
    unfolding cursor_of
    store_page-cursor =
        let (db1, f, e) = store_page-parts page n db db' h in
        rw e (get-write_cursor workspace.workspace_id page.next_sequence db1.cursors)

    -- The rows of its workspace come from a longer chain, which ends at the cursor.
    store_page_own :
        Checked workspace.workspace_id (cursor_of workspace.workspace_id db) page db
        → IsLinked workspace.workspace_id db
        → IsLinked workspace.workspace_id db'
    store_page_own (hash, expected, chain) linked =
        let (db1, f, e) = store_page-parts page n db db' h in
        let (g, ready) =
          ingest_events-Ready workspace page.events (cursor_of workspace.workspace_id db)
            page.next_sequence hash n db db1 chain f
            (IsLinked-Ready workspace.workspace_id db hash expected linked) in
        (
          g,
          rw store_page-cursor (
              subst (λ d. Ready workspace.workspace_id page.next_sequence g d.events) (sym e)
                ready),
        )

    -- The chains of other workspaces stay as they are.
    store_page_other :
        (v : String) → (workspace.workspace_id == v) ≡ false → IsLinked v db → IsLinked v db'
    unfolding cursor_of
    store_page_other v other (g, (chain, c, st)) =
        let (db1, f, e) = store_page-parts page n db db' h in
        let rows = ingest_events_other workspace v page.events n db db1 other f in
        let cursors = ingest_events-cursors workspace page.events n db db1 f in
        let kept =
          get-write_cursor-ne workspace.workspace_id page.next_sequence v db1.cursors
            (ground (arith, other)) in
        (
          g,
          (
            chain,
            rw (e, kept, cursors) c,
            rw (e, rows)
                (Stores-mono (known_in v db.events) (known_in v db1.events) chain
                  (filter (of_workspace v) db.events)
                  (ingest_events-known workspace v page.events n db db1 f) st),
          ),
        )

    store_page-IsLinked :
        (v : String)
        → Checked workspace.workspace_id (cursor_of workspace.workspace_id db) page db
        → IsLinked v db
        → IsLinked v db'
    store_page-IsLinked v checked linked = elim (Bool-cases (workspace.workspace_id == v)) [
      | inl own ↦
          let same : workspace.workspace_id ≡ v = ground (arith, own) in
          subst (λ x. IsLinked x db') same
            (store_page_own checked (subst (λ x. IsLinked x db) (sym same) linked))
      | inr other ↦ store_page_other v other linked
    ]

  -- What a round leaves: the tables as they were, or with a page that was checked and stored.
  abbrev Stored : ℕ → Db → Db → Type 0
  Stored after db db' =
      (db' ≡ db)
      ⊎ ((page : EventPage) × (n : ℕ) × Checked workspace.workspace_id after page db
          × (store_page workspace page db ≡ ok (n, db')))

  sync_page-Stored :
      (daemon : Daemon) (limit after : ℕ) (s : State)
      → Stored after s.db (sync_page daemon workspace limit after s).1.db
  unfolding sync_page session_scope
  sync_page-Stored daemon limit after s =
      elim (Result-cases (answer (daemon.events workspace.workspace_id after limit))) [
        | inr (_, _, e) ↦ rw e (inl refl)
        | inl (page, e) ↦ rw e (elim (Result-cases (check_page workspace after page)) [
          | inr (_, _, f) ↦ rw f (inl refl)
          | inl (_, f) ↦
              rw f
                (elim (Result-cases (validate_event_chain workspace.workspace_id after page s.db)) [
                  | inr (_, _, g) ↦ rw g (inl refl)
                  | inl (_, g) ↦ rw g (elim (Result-cases (store_page workspace page s.db)) [
                    | inr (_, _, k) ↦ rw k (inl refl)
                    | inl ((n, db'), k) ↦ rw k (
                        inr (page, n, validate-Checked workspace.workspace_id after page s.db g, k))
                  ])
                ])
        ])
      ]

  -- A round keeps it for every workspace, whether it returns or raises.
  pub sync_page-IsLinked :
      (daemon : Daemon) (limit : ℕ) (s : State) (v : String)
      → IsLinked v s.db
      → IsLinked v (sync_page daemon workspace limit (cursor_of workspace.workspace_id s.db) s).1.db
  sync_page-IsLinked daemon limit s v linked =
      elim (sync_page-Stored daemon limit (cursor_of workspace.workspace_id s.db) s) [
        | inl same ↦ rw same linked
        | inr (page, n, checked, h) ↦ store_page-IsLinked page n s.db _ h v checked linked
      ]
