-- ===== src/Security/Sync/Pages/Rounds.antt =====
-- The loop over the pages ends.
use agent_factor.Base.{ℕ, zero, suc, ◌+◌, ◌-◌, ◌<◌, true, ◌≡◌, refl, arith, Option, some}
use agent_factor.Base.{Result, ok, err}
use agent_factor.Security.Model.{State}
use agent_factor.Security.Sync.Daemon.{Daemon, EventPage, Workspace, reply}
use agent_factor.Security.Sync.Pages.{
  Round, ends, goes_on, sync_page, resume, sync_pages, sync_workspace, smaller, cursor_of,
}
use agent_factor.Security.Sync.Pages.Chain.{goes_on-lt}

module _ (daemon : Daemon) (workspace : Workspace) (last : ℕ) where
  -- A daemon whose chain of the workspace ends at `last` announces no events after it.
  abbrev pub EndsAt : ℕ → Type 0
  EndsAt limit =
      (after : ℕ) (page : EventPage)
      → daemon.events workspace.workspace_id after limit ≡ reply page
      → page.has_more ≡ true
      → page.next_sequence < last

  module _ (limit : ℕ) where
    -- What follows a round ends, if the loop does where it goes on.
    resume-ends :
        (ingested : ℕ) (r : Result Round × State) (loop : ℕ → ℕ → State → Option (Result ℕ × State))
        → ((next more : ℕ) (s : State)
            → r ≡ (ok (goes_on next more), s)
            → (out : Result ℕ × State) × (loop next (ingested + more) s ≡ some out))
        → (out : Result ℕ × State) × (resume daemon workspace limit ingested r loop ≡ some out)
    unfolding resume
    resume-ends ingested (ok (ends more), s) loop h = ((ok (ingested + more), s), refl)
    resume-ends ingested (ok (goes_on next more), s) loop h = h next more s refl
    resume-ends ingested (err e n, s) loop h = ((err e n, s), refl)

    sync_pages-ends :
        (fuel after ingested : ℕ) (s : State)
        → EndsAt limit
        → last - after < fuel
        → (out : Result ℕ × State) × (sync_pages daemon workspace limit fuel after ingested s
            ≡ some out)
    unfolding sync_pages
    sync_pages-ends zero after ingested s ends_at h = absurd (omega arith)
    sync_pages-ends (suc fuel) after ingested s ends_at h =
        resume-ends ingested (sync_page daemon workspace limit after s)
          (sync_pages daemon workspace limit fuel)
          (λ next more s' e.
            let (page, answered, more_events, names, grown) =
              goes_on-lt daemon workspace limit after s s' next more e in
            sync_pages-ends fuel next (ingested + more) s' ends_at
              (omega (arith, ends_at after page answered more_events)))

  -- The loop ends within as many rounds as events are missing, and one, whatever the pages hold: the
  -- synchronization of a workspace returns or raises.
  pub sync_workspace-ends :
      (fuel maximum_page_size : ℕ) (s : State)
      → EndsAt (smaller 200 maximum_page_size)
      → last - cursor_of workspace.workspace_id s.db < fuel
      → (out : Result ℕ × State) × (sync_workspace daemon fuel workspace maximum_page_size s
          ≡ some out)
  unfolding sync_workspace
  sync_workspace-ends fuel maximum_page_size s ends_at h =
      sync_pages-ends (smaller 200 maximum_page_size) fuel (cursor_of workspace.workspace_id s.db) 0
        s ends_at h
