-- ===== src/Security/Sync/Linked/Kept.antt =====
-- The events of a page keep the rows in step with the loop that checks them.
use mathlib.Core.Path.{subst}
use mathlib.Core.List.{append-nil}
use agent_factor.Base.{ℕ, ◌+◌, String, true, false, ◌≡◌, arith, List, [], ◌∷◌, ◌++◌, ◌∙◌, inl, inr}
use agent_factor.Base.{◌==◌, ==-refl, string_eq, nat_eq, filter, filter-append, any-append}
use agent_factor.Base.{ok, and_then-eq-ok}
use agent_factor.Security.Model.{Db, SecurityEvent}
use agent_factor.Security.Sync.Daemon.{DaemonEvent, Workspace}
use agent_factor.Security.Sync.Ingest.{ingest_event, is_known, source}
use agent_factor.Security.Sync.Pages.{check_chain, ingest_events}
use agent_factor.Security.Sync.Chains.{Chain-append, Stores-append, Stores-skip, Stores-mono}
use agent_factor.Security.Sync.Linked.{
  of_workspace, known_in, Ready, Ingested, ingest_event-Ingested,
}

filter_one :
    (v : String) (r : SecurityEvent)
    → (r.integration_id == v) ≡ true
    → filter (of_workspace v) (r ∷ []) ≡ r ∷ []
unfolding filter
filter_one v r h = ground arith

filter_none :
    (v : String) (r : SecurityEvent)
    → (r.integration_id == v) ≡ false
    → filter (of_workspace v) (r ∷ []) ≡ []
unfolding filter
filter_none v r h = ground arith

module _ (workspace : Workspace) where
  -- No identifier is forgotten.
  Ingested-known :
      (v : String) (e : DaemonEvent) (events events' : List SecurityEvent)
      → Ingested workspace e events events'
      → (id : String) → known_in v events id ≡ true
      → known_in v events' id ≡ true
  Ingested-known v e events events' (inl (same, _)) id k = rw same k
  Ingested-known v e events events' (inr (r, more, _, _)) id k =
      ground (arith, more, any-append (is_known (source v) id) events (r ∷ []), k)

  -- The next event of the chain is stored, or known.
  Ingested-Ready :
      (e : DaemonEvent) (a : ℕ) (hash : String) (events events' : List SecurityEvent)
      → Ingested workspace e events events'
      → e.sequence ≡ a + 1
      → e.previous_hash ≡ hash
      → Ready workspace.workspace_id a hash events
      → Ready workspace.workspace_id e.sequence e.event_hash events'
  Ingested-Ready e a hash events events' (inl (same, known)) next names (chain, c, st) = rw same (
    chain ++ e ∷ [],
    Chain-append 0 "" chain a hash e c next names,
    Stores-skip (known_in workspace.workspace_id events) chain
        (filter (of_workspace workspace.workspace_id) events) e st known,
  )
  Ingested-Ready e a hash events events' (inr (r, more, of, is_row)) next names (chain, c, st) =
      let v = workspace.workspace_id in
      let rows : filter (of_workspace v) events' ≡ filter (of_workspace v) events ++ r ∷ [] =
        ground (
          arith,
          more,
          filter-append (of_workspace v) events (r ∷ []),
          filter_one v r (rw of (==-refl v)),
        ) in
      (
        chain ++ e ∷ [],
        Chain-append 0 "" chain a hash e c next names,
        rw rows (
            Stores-append (known_in v events') chain (filter (of_workspace v) events) e r
              (Stores-mono (known_in v events) (known_in v events') chain
                (filter (of_workspace v) events)
                (Ingested-known v e events events' (inr (r, more, of, is_row))) st)
              is_row),
      )

  -- The rows of another workspace stay.
  Ingested-filter :
      (v : String) (e : DaemonEvent) (events events' : List SecurityEvent)
      → (workspace.workspace_id == v) ≡ false
      → Ingested workspace e events events'
      → filter (of_workspace v) events' ≡ filter (of_workspace v) events
  Ingested-filter v e events events' other (inl (same, _)) = rw same
  Ingested-filter v e events events' other (inr (r, more, of, _)) = ground (
    arith,
    more,
    filter-append (of_workspace v) events (r ∷ []),
    filter_none v r (rw of other),
    append-nil (filter (of_workspace v) events),
  )

  ingest_step :
      (e : DaemonEvent) (es : List DaemonEvent) (n : ℕ) (db db' : Db)
      → ingest_events workspace (e ∷ es) db ≡ ok (n, db')
      → (one more : ℕ) × (db1 : Db) × (ingest_event workspace e db ≡ ok (one, db1))
        × (ingest_events workspace es db1 ≡ ok (more, db'))
  unfolding ingest_events
  ingest_step e es n db db' h =
      let ((one, db1), f, h1) = and_then-eq-ok (ingest_event workspace e db) _ h in
      let ((more, db2), g, h2) = and_then-eq-ok (ingest_events workspace es db1) _ h1 in
      (one, more, db1, f, ground (arith, g, h2))

  -- The events of a page, in the order of its chain.
  pub ingest_events-Ready :
      (es : List DaemonEvent) (a last : ℕ) (hash : String) (n : ℕ) (db db' : Db)
      → check_chain a hash es ≡ ok last
      → ingest_events workspace es db ≡ ok (n, db')
      → Ready workspace.workspace_id a hash db.events
      → (hash' : String) × Ready workspace.workspace_id last hash' db'.events
  unfolding check_chain ingest_events
  ingest_events-Ready [] a last hash n db db' c h r =
      let at : a ≡ last = ground (arith, c) in
      let same : db ≡ db' = ground (arith, h) in
      (
        hash,
        subst (λ k. Ready workspace.workspace_id k hash db'.events) at
            (subst (λ d. Ready workspace.workspace_id a hash d.events) same r),
      )
  ingest_events-Ready (e ∷ es) a last hash n db db' c h r =
      let (one, more, db1, f, g) = ingest_step e es n db db' h in
      let (rows, _) = ingest_event-Ingested workspace e db db1 one f in
      ingest_events-Ready es e.sequence last e.event_hash more db1 db' (ground (arith, c)) g (
        Ingested-Ready e a hash db.events db1.events rows (ground (arith, c)) (ground (arith, c)) r)

  pub ingest_events_other :
      (v : String) (es : List DaemonEvent) (n : ℕ) (db db' : Db)
      → (workspace.workspace_id == v) ≡ false
      → ingest_events workspace es db ≡ ok (n, db')
      → filter (of_workspace v) db'.events ≡ filter (of_workspace v) db.events
  unfolding ingest_events
  ingest_events_other v [] n db db' other h = ground (arith, h)
  ingest_events_other v (e ∷ es) n db db' other h =
      let (one, more, db1, f, g) = ingest_step e es n db db' h in
      let (rows, _) = ingest_event-Ingested workspace e db db1 one f in
      ingest_events_other v es more db1 db' other g
      ∙ Ingested-filter v e db.events db1.events other rows

  pub ingest_events-known :
      (v : String) (es : List DaemonEvent) (n : ℕ) (db db' : Db)
      → ingest_events workspace es db ≡ ok (n, db')
      → (id : String) → known_in v db.events id ≡ true
      → known_in v db'.events id ≡ true
  unfolding ingest_events
  ingest_events-known v [] n db db' h id k =
      let same : db ≡ db' = ground (arith, h) in
      subst (λ (d : Db). known_in v d.events id ≡ true) same k
  ingest_events-known v (e ∷ es) n db db' h id k =
      let (one, more, db1, f, g) = ingest_step e es n db db' h in
      let (rows, _) = ingest_event-Ingested workspace e db db1 one f in
      ingest_events-known v es more db1 db' g id (Ingested-known v e db.events db1.events rows id k)

  pub ingest_events-cursors :
      (es : List DaemonEvent) (n : ℕ) (db db' : Db)
      → ingest_events workspace es db ≡ ok (n, db')
      → db'.cursors ≡ db.cursors
  unfolding ingest_events
  ingest_events-cursors [] n db db' h = ground (arith, h)
  ingest_events-cursors (e ∷ es) n db db' h =
      let (one, more, db1, f, g) = ingest_step e es n db db' h in
      let (_, same) = ingest_event-Ingested workspace e db db1 one f in
      ingest_events-cursors es more db1 db' g ∙ same
