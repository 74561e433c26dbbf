-- ===== src/Work/Tests.antt =====
-- The theorems about the work graph at concrete inputs.
mod Conflicts
mod Proofs
use agent_factor.Base.{
  true, not, ◌||◌, ◌≡◌, ◌≢◌, refl, none, some, [], ◌∷◌, ◌++◌, all, filter, find?, update_where,
  if◌then◌else◌, ok, string_eq, option_eq, transaction, ◌==◌,
}
use agent_factor.Store.{get, has_key}
use agent_factor.Work.Graph.{
  WorkItem, WorkItemStatus, ready, in_progress, needs_verification, done, feature, git_commit,
  Graph, UpdateItem, unset, is_done,
}
use agent_factor.Work.Items.{
  claim_row, is_claimable, claim_work_item, is_unblocked, list_available_work_items, holds_any,
  requirements, is_proven, needs_proof, update_rows, update_work_item, opens_window,
  open_proof_window, apply_update, timeout_minutes,
}
use agent_factor.Work.Claims.{claim_work_item-once, available-claim}
use agent_factor.Work.Gate.{update_work_item-proven, opened}

abbrev task : WorkItemStatus → WorkItem
task status = record {
  id = "w1";
  project_id = "p";
  title = "Title";
  description = "";
  type = feature;
  status = status;
  priority = 3;
  owner_terminal_id = none;
  acceptance_criteria = [];
  files_of_interest = [];
  proof_requirements = some (git_commit ∷ []);
  complexity = 3;
  updated_at = 0;
}

abbrev graph : WorkItemStatus → Graph
graph status = record {
  items = task status ∷ [];
  edges = [];
  windows = [];
  next_edge = 1;
  next_window = 1;
}

abbrev move : WorkItemStatus → UpdateItem
move status = record {
  title = none;
  description = none;
  status = some status;
  priority = none;
  owner_terminal_id = unset;
  acceptance_criteria = none;
  files_of_interest = none;
  proof_requirements = unset;
  complexity = none;
}

claim_work_item-once_example :
    ((claim_row 5 "t1" (task ready)).owner_terminal_id ≡ some "t1")
    × (in_progress ≡ in_progress)
    × ((claim_work_item 6 "w1" "t2" (claim_work_item 5 "w1" "t1" (graph ready)).1).0
        ≢ ok (claim_row 6 "t2" (task ready)))
unfolding claim_work_item transaction get find? string_eq option_eq
claim_work_item-once_example =
    claim_work_item-once 5 6 "w1" "t1" "t2" (graph ready)
      (claim_work_item 5 "w1" "t1" (graph ready)).1 (claim_row 5 "t1" (task ready))
      (claim_row 6 "t2" (task ready)) refl refl

available-claim_example :
    (((task ready).project_id == "p") ≡ true)
    × (is_unblocked "p" (graph ready) (task ready) ≡ true)
    × ((claim_work_item 5 "w1" "t1" (graph ready)).0 ≡ ok (claim_row 5 "t1" (task ready)))
unfolding list_available_work_items filter get find? string_eq option_eq is_claimable is_unblocked
    all has_key
available-claim_example = available-claim 5 "p" "w1" "t1" (graph ready) (task ready) (refl, tt) refl

update_work_item-proven_example :
    (is_done done
      || not (holds_any (requirements (some (git_commit ∷ []))))
      || is_proven "w1" (graph done))
    ≡ true
unfolding update_work_item update_rows transaction get find? string_eq needs_proof opens_window
    apply_update
update_work_item-proven_example =
    update_work_item-proven 5 "w1" (move done) (graph done) (task done)
      (apply_update 5 (move done) (task done)) refl refl refl
