-- ===== src/Work/Tests/Proofs.antt =====
-- The proof collector at concrete inputs.
use agent_factor.Base.{true, ◌≡◌, refl, none, some, [], ◌∷◌}
use agent_factor.Base.{
  string_eq, nat_eq, ℕ_discrete, all, any, find?, update_where, map_result, transaction,
}
use agent_factor.Json.{Json, object, field, str, end, get_field}
use agent_factor.Store.{get}
use agent_factor.Messages.Inbox.{Desk}
use agent_factor.Work.Graph.{
  WorkItem, WorkItemType, investigation, review, needs_verification, ProofWindow, open_window,
  closed_window,
}
use agent_factor.Work.Collector.{
  Collector, Clues, add_proof, add_rows, judge_window, close_window, set_proofs, end_window, emit,
  window_of, proof_type, proof_name, required_proofs, default_requirements, sufficient, outcome_of,
}
use agent_factor.Work.Collector.Closing.{Closes, add_proof-Closes}
use agent_factor.Work.Collector.Ticks.{tick}
use agent_factor.Work.Collector.Unproven.{IsUnproven}
use agent_factor.Work.Collector.Unproven.Passes.{tick-IsUnproven}

abbrev item_of : WorkItemType → WorkItem
item_of type = record {
  id = "w1";
  project_id = "p";
  title = "Title";
  description = "";
  type = type;
  status = needs_verification;
  priority = 3;
  owner_terminal_id = none;
  acceptance_criteria = [];
  files_of_interest = [];
  proof_requirements = none;
  complexity = 3;
  updated_at = 0;
}

abbrev window : ProofWindow
window = record {
  id = 1;
  work_item_id = "w1";
  expires_at = 100;
  status = open_window;
  proofs_collected = [];
  closed_at = none;
}

abbrev no_messages : Desk
no_messages = record {
  inbox = [];
  approvals = [];
  next_message = 1;
  next_approval = 1;
  sent = [];
  audit = [];
}

-- One item of the type, with one open window.
abbrev collecting : WorkItemType → Collector
collecting type = record {
  graph = record {
    items = item_of type ∷ [];
    edges = [];
    windows = window ∷ [];
    next_edge = 1;
    next_window = 2;
  };
  desk = no_messages;
  terminals = [];
  log = [];
  next_event = 1;
  cursor = 0;
  outcomes = [];
}

abbrev completion : Json
completion = object (field "type" (str "completion_signal") end)

abbrev after_completion : Collector
after_completion = (add_proof 5 1 completion (collecting investigation)).1

abbrev closed : ProofWindow
closed = record window {
  proofs_collected = completion ∷ [];
  status = closed_window;
  closed_at = some 5;
}

collecting-window : window_of 1 (collecting investigation) ≡ some window
unfolding window_of find? nat_eq ℕ_discrete
collecting-window = refl

-- The window of an investigation is closed by the signal that it is complete.
after_completion-window : window_of 1 after_completion ≡ some closed
unfolding add_proof add_rows transaction judge_window close_window set_proofs end_window emit
    window_of find? update_where get map_result proof_type get_field required_proofs
    default_requirements sufficient all proof_name outcome_of string_eq nat_eq ℕ_discrete
after_completion-window = refl

add_proof-Closes_example :
    Closes 5 1 completion
      (collecting investigation)
      window
      collecting-window
      refl
      after_completion.graph
add_proof-Closes_example =
    add_proof-Closes 5 1 completion (collecting investigation) window collecting-window refl closed
      after_completion-window refl

-- Nothing is known from outside, but commits that name the item.
abbrev clues : Clues
clues = record {
  int_of = λ j. some 3;
  isoformat = λ now. "now";
  similar = λ a b. true;
  occurs = λ part whole. true;
  commits = λ window_id. record { hash = "h"; subject = "w1"; body = ""; files = [] } ∷ [];
}

collecting-IsUnproven : IsUnproven "reviewer_signoff" 1 "w1" (collecting review).graph
unfolding all any required_proofs default_requirements proof_name string_eq nat_eq ℕ_discrete
collecting-IsUnproven = (refl, refl)

tick-IsUnproven_example :
    IsUnproven "reviewer_signoff" 1 "w1" (tick clues 5 (collecting review)).1.graph
unfolding string_eq
tick-IsUnproven_example =
    tick-IsUnproven "reviewer_signoff" 1 "w1" refl refl refl clues 5 (collecting review)
      collecting-IsUnproven
