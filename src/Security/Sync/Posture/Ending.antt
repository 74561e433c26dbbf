-- ===== src/Security/Sync/Posture/Ending.antt =====
-- A synchronization ends when the chains of the daemon do.
use agent_factor.Base.{ℕ, ◌+◌, ◌<◌, ◌≡◌, refl, arith, Option, none, some, List, [], ◌∷◌, inl, inr}
use agent_factor.Base.{Bool-cases}
use agent_factor.Base.{Result, ok, err, Result-cases}
use agent_factor.Security.Model.{State}
use agent_factor.Security.Sync.Daemon.{Daemon, Workspace, Posture}
use agent_factor.Security.Sync.Posture.{
  upsert_endpoint, upsert_integration, handle_failure, handle_loop, finish_sync, SyncReport, sync,
  read_posture, check_head, next_workspace, sync_workspaces,
}
use agent_factor.Security.Sync.Pages.{sync_workspace, smaller}
use agent_factor.Security.Sync.Pages.Rounds.{EndsAt, sync_workspace-ends}

-- `o` is an outcome, and not the end of the fuel.
abbrev pub Ends : {A : Type 0} → Option A → Type 0
Ends {A} o = (out : A) × (o ≡ some out)

next_workspace-ends :
    (ingested : ℕ) (r : Option (Result ℕ × State)) (loop : ℕ → State → Option (Result ℕ × State))
    → Ends r
    → ((n : ℕ) (s : State) → Ends (loop n s))
    → Ends (next_workspace ingested r loop)
unfolding next_workspace
next_workspace-ends ingested none loop (out, e) k = absurd (ground arith)
next_workspace-ends ingested (some (ok n, s)) loop e k = k (ingested + n) s
next_workspace-ends ingested (some (err e n, s)) loop _ k = ((err e n, s), refl)

module _ (daemon : Daemon) (fuel last : ℕ) (enough : last < fuel) where
  sync_workspaces-ends :
      (maximum_page_size : ℕ) (ws : List Workspace) (ingested : ℕ) (s : State)
      → ((w : Workspace) → EndsAt daemon w last (smaller 200 maximum_page_size))
      → Ends (sync_workspaces daemon fuel maximum_page_size ws ingested s)
  unfolding sync_workspaces
  sync_workspaces-ends maximum_page_size [] ingested s ends = ((ok ingested, s), refl)
  sync_workspaces-ends maximum_page_size (w ∷ ws) ingested s ends =
      elim (Bool-cases (check_head w)) [
        | inr bad ↦ rw bad ((err _ _, s), refl)
        | inl good ↦ rw good (
            next_workspace-ends ingested
              (sync_workspace daemon fuel w maximum_page_size
                (record s { db = upsert_integration w s.db }))
              (sync_workspaces daemon fuel maximum_page_size ws)
              (sync_workspace-ends daemon w last fuel maximum_page_size
                (record s { db = upsert_integration w s.db }) (ends w) (omega arith))
              (λ n s'. sync_workspaces-ends maximum_page_size ws n s' ends))
      ]

  handle_loop-ends :
      (now : ℕ) (posture : Posture) (o : Option (Result ℕ × State))
      → Ends o
      → Ends (handle_loop now daemon posture o)
  unfolding handle_loop
  handle_loop-ends now posture none (out, e) = absurd (ground arith)
  handle_loop-ends now posture (some x) e =
      (handle_failure now daemon (finish_sync posture x), refl)

  -- If no page announces more events at the sequence `last` or behind it, a synchronization with more
  -- than `last` rounds for each workspace returns or raises, from any state.
  pub sync-ends :
      (now : ℕ) (s : State)
      → ((w : Workspace) (limit : ℕ) → EndsAt daemon w last limit)
      → Ends (sync now daemon fuel s)
  unfolding sync
  sync-ends now s ends = elim (Result-cases (read_posture daemon)) [
    | inr (e, m, f) ↦ (handle_failure {A = SyncReport} now daemon (err e m, s), ground (arith, f))
    | inl ((c, posture), f) ↦
        let (out, e) =
          handle_loop-ends now posture
            (sync_workspaces daemon fuel c.maximum_page_size posture.workspaces 0
              (record s { db = upsert_endpoint now daemon (some c) "healthy" none s.db }))
            (sync_workspaces-ends c.maximum_page_size posture.workspaces 0
              (record s { db = upsert_endpoint now daemon (some c) "healthy" none s.db })
              (λ w. ends w (smaller 200 c.maximum_page_size))) in
        (out, ground (arith, f, e))
  ]
