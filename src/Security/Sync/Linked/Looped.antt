-- ===== src/Security/Sync/Linked/Looped.antt =====
-- The loop over the pages, and the chains that the stored events come from.
use mathlib.Core.Path.{subst}
use mathlib.Core.Option.{some-injective}
use agent_factor.Base.{ℕ, zero, suc, ◌+◌, String, ◌≡◌, refl, arith, Option, some, ap, ◌∙◌}
use agent_factor.Base.{string_eq, nat_eq}
use agent_factor.Base.{Result, ok, err}
use agent_factor.Security.Model.{State}
use agent_factor.Security.Sync.Daemon.{Daemon, Workspace}
use agent_factor.Security.Sync.Pages.{
  cursor_of, sync_page, sync_pages, sync_workspace, resume, Round, ends, goes_on, smaller,
}
use agent_factor.Security.Sync.Pages.Chain.{sync_page-RoundOf, next_round-goes_on}
use agent_factor.Security.Sync.Linked.{IsLinked}
use agent_factor.Security.Sync.Linked.Committed.{store_page-cursor, sync_page-IsLinked}

module _ (daemon : Daemon) (workspace : Workspace) (limit : ℕ) where
  -- A round after which the loop goes on has moved the cursor to where it goes on.
  goes_on-cursor :
      (after next more : ℕ) (s s' : State)
      → sync_page daemon workspace limit after s ≡ (ok (goes_on next more), s')
      → cursor_of workspace.workspace_id s'.db ≡ next
  goes_on-cursor after next more s s' h =
      let (page, n, _, _, stored, f) =
        sync_page-RoundOf daemon workspace limit after s s' (goes_on next more) h in
      let (_, names, _) = next_round-goes_on page n next more f in
      store_page-cursor workspace page n s.db s'.db stored ∙ names

  -- What holds after each round holds after the loop.
  resume-keeps :
      (P : State → Type 0) (ingested : ℕ) (r : Result Round × State)
      (loop : ℕ → ℕ → State → Option (Result ℕ × State)) (out : Result ℕ × State)
      → P r.1
      → ((next more : ℕ) (s : State)
          → r ≡ (ok (goes_on next more), s)
          → P s
          → loop next (ingested + more) s ≡ some out
          → P out.1)
      → resume daemon workspace limit ingested r loop ≡ some out
      → P out.1
  unfolding resume
  resume-keeps P ingested (ok (ends more), s) loop out p k h =
      subst P (ap (λ (o : Result ℕ × State). o.1) (some-injective _ out h)) p
  resume-keeps P ingested (ok (goes_on next more), s) loop out p k h = k next more s refl p h
  resume-keeps P ingested (err e n, s) loop out p k h =
      subst P (ap (λ (o : Result ℕ × State). o.1) (some-injective _ out h)) p

  sync_pages-IsLinked :
      (v : String) (fuel after ingested : ℕ) (s : State) (out : Result ℕ × State)
      → cursor_of workspace.workspace_id s.db ≡ after
      → IsLinked v s.db
      → sync_pages daemon workspace limit fuel after ingested s ≡ some out
      → IsLinked v out.1.db
  unfolding sync_pages
  sync_pages-IsLinked v zero after ingested s out at linked h = absurd (ground arith)
  sync_pages-IsLinked v (suc fuel) after ingested s out at linked h =
      resume-keeps (λ x. IsLinked v x.db) ingested (sync_page daemon workspace limit after s)
        (sync_pages daemon workspace limit fuel) out
        (subst (λ a. IsLinked v (sync_page daemon workspace limit a s).1.db) at
          (sync_page-IsLinked workspace daemon limit s v linked))
        (λ next more s' e kept rest.
          sync_pages-IsLinked v fuel next (ingested + more) s' out
            (goes_on-cursor after next more s s' e) kept rest)
        h

-- The synchronization of any workspace keeps it that the stored events of every workspace come from a
-- chain that ends at the cursor, whatever the daemon answers, and whether it returns or raises.
pub sync_workspace-IsLinked :
    (daemon : Daemon) (fuel : ℕ) (workspace : Workspace) (maximum_page_size : ℕ) (v : String)
    (s : State) (out : Result ℕ × State)
    → IsLinked v s.db
    → sync_workspace daemon fuel workspace maximum_page_size s ≡ some out
    → IsLinked v out.1.db
unfolding sync_workspace
sync_workspace-IsLinked daemon fuel workspace maximum_page_size v s out linked h =
    sync_pages-IsLinked daemon workspace (smaller 200 maximum_page_size) v fuel
      (cursor_of workspace.workspace_id s.db) 0 s out refl linked h
