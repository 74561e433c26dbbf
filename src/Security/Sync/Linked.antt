-- ===== src/Security/Sync/Linked.antt =====
-- The chain of events that the stored events of a workspace come from.
pub mod Kept
pub mod Committed
pub mod Looped
use mathlib.Core.Path.{subst}
use agent_factor.Base.{
  ℕ, ◌+◌, String, Bool, true, ◌≡◌, refl, arith, List, [], ◌∷◌, ◌++◌, ◌∙◌, inl, inr, ◌⊎◌,
}
use agent_factor.Base.{
  ◌==◌, string_eq, nat_eq, if◌then◌else◌, find?, filter, any, find?-filter, Bool-cases,
  Option-cases,
}
use agent_factor.Base.{Result, ok, err, and_then-eq-ok}
use agent_factor.Security.Model.{Db, SecurityEvent}
use agent_factor.Security.Sync.Daemon.{DaemonEvent, Workspace}
use agent_factor.Security.Sync.Chains.{Chain, Chain-same, IsRowOf, Stores, Stores-last}
use agent_factor.Security.Sync.Ingest.{
  ingest_event, event_row, check_event, new_decision, source, is_known,
}
use agent_factor.Security.Sync.Pages.{expected_hash, is_stored, cursor_of}

abbrev pub of_workspace : String → SecurityEvent → Bool
of_workspace v e = e.integration_id == v

-- An event with this identifier is stored for the workspace.
abbrev pub known_in : String → List SecurityEvent → String → Bool
known_in v events id = any (is_known (source v) id) events

-- The stored events of the workspace come from a chain from the start to this sequence and this hash.
abbrev pub Ready : String → ℕ → String → List SecurityEvent → Type 0
Ready v t g events =
    (chain : List DaemonEvent) × Chain 0 "" chain t g
    × Stores (known_in v events) chain (filter (of_workspace v) events)

-- The stored events of the workspace come from a chain from the start to the cursor.
abbrev pub IsLinked : String → Db → Type 0
IsLinked v db = (g : String) × Ready v (cursor_of v db) g db.events

-- The hash that is expected behind the cursor is that of the end of the chain.
expected-last :
    (v : String) (db : Db) (hash g : String) (chain : List DaemonEvent)
    → expected_hash v (cursor_of v db) db ≡ ok hash
    → Chain 0 "" chain (cursor_of v db) g
    → Stores (known_in v db.events) chain (filter (of_workspace v) db.events)
    → g ≡ hash
unfolding expected_hash
expected-last v db hash g chain h c st = elim (Bool-cases (cursor_of v db == 0)) [
  | inl start ↦
      ground (arith, start, h, Chain-same 0 "" chain (cursor_of v db) g c (ground (arith, start)))
  | inr later ↦ elim (Option-cases (find? (is_stored v (cursor_of v db)) db.events)) [
    | inl e ↦ absurd (ground (arith, later, e, h))
    | inr (r, e) ↦
        let same =
          Stores-last (known_in v db.events) 0 "" chain (cursor_of v db) g
            (filter (of_workspace v) db.events) r c st
            (find?-filter (λ x. x.sequence == cursor_of v db) (of_workspace v) db.events ∙ e) in
        ground (arith, later, e, h, same)
  ]
]

pub IsLinked-Ready :
    (v : String) (db : Db) (hash : String)
    → expected_hash v (cursor_of v db) db ≡ ok hash
    → IsLinked v db
    → Ready v (cursor_of v db) hash db.events
IsLinked-Ready v db hash h (g, (chain, c, st)) = (
  chain,
  subst (λ x. Chain 0 "" chain (cursor_of v db) x) (expected-last v db hash g chain h c st) c,
  st,
)

-- The events after an ingest: those before, where the event is known, or one more.
abbrev pub Ingested : Workspace → DaemonEvent → List SecurityEvent → List SecurityEvent → Type 0
Ingested workspace e events events' =
    ((events' ≡ events) × (known_in workspace.workspace_id events e.event_id ≡ true))
    ⊎ ((r : SecurityEvent) × (events' ≡ events ++ r ∷ [])
        × (r.integration_id ≡ workspace.workspace_id)
        × IsRowOf e r)

pub ingest_event-Ingested :
    (workspace : Workspace) (e : DaemonEvent) (db db' : Db) (n : ℕ)
    → ingest_event workspace e db ≡ ok (n, db')
    → Ingested workspace e db.events db'.events × (db'.cursors ≡ db.cursors)
unfolding ingest_event event_row
ingest_event-Ingested workspace e db db' n h =
    let (_, _, h1) = and_then-eq-ok (check_event workspace e) _ h in
    elim (Bool-cases (any (is_known (source workspace.workspace_id) e.event_id) db.events)) [
      | inl known ↦ (inl (ground (arith, known, h1), known), ground (arith, known, h1))
      | inr new ↦
          let (decision, f, h2) =
            and_then-eq-ok (new_decision workspace e db.alerts) _ (rw new at h1) in
          (
            inr (
              event_row workspace e decision.0 decision.1,
              ground (arith, h2),
              refl,
              (refl, refl, refl, refl),
            ),
            ground (arith, h2),
          )
    ]
