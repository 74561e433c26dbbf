-- ===== src/Work/Collector.antt =====
-- services/proof_collector.py: what the collector adds to proof windows, closes and lets expire.
pub mod Closing
pub mod Ticks
pub mod Unproven
use agent_factor.Base.{
  ℕ, zero, suc, ◌+◌, ◌*◌, String, ◌<>◌, Bool, true, false, not, ◌&&◌, ◌||◌, Option, none, some,
  List, [], ◌∷◌, ◌++◌,
}
use agent_factor.Base.{
  ◌==◌, contains, string_eq, nat_eq, if◌then◌else◌, all, any, filter, find?, update_where, ltb,
  length, intersection, sorted_set, decimal, starts_with,
}
use agent_factor.Base.{
  Result, ok, err, Exec, pure, raise, and_then, map_result, transaction, continue,
}
use agent_factor.Base.{◌>>=◌, ◌>>◌}
use agent_factor.Json.{
  Json, null, number, str, array, object, Fields, end, field, Items, nil, cons, get_field,
  get_field_or, as_str?, as_list?, from_items,
}
use agent_factor.Store.{get}
use agent_factor.Messages.Inbox.{Desk, queue_message}
use agent_factor.Work.Graph.{
  WorkItem, WorkItemType, feature, bugfix, refactor, test, documentation, review, investigation,
  WorkItemStatus, done, in_progress, ProofType, git_commit, test_pass, bug_not_reproduced,
  reviewer_signoff, completion_signal, ProofWindow, WindowStatus, open_window, closed_window,
  expired_window, Graph,
}

-- A row of the log of events.
pub record EventRow : Type 0 where
  pub id : ℕ
  pub terminal_id : Option String
  pub type : String
  pub payload : Json

-- The columns of a terminal that are read here.
pub record TerminalRow : Type 0 where
  pub id : String
  pub provider : String
  pub agent_profile : Option String

pub record Commit : Type 0 where
  pub hash : String
  pub subject : String
  pub body : String
  pub files : List String

-- The tables, the cursor of the collector, and the outcomes it reported to the capability registry.
pub record Collector : Type 0 where
  pub graph : Graph
  pub desk : Desk
  pub terminals : List TerminalRow
  pub log : List EventRow
  pub next_event : ℕ
  pub cursor : ℕ
  pub outcomes : List (String × String × String)

-- What the collector takes from elsewhere: `int(…)` (a negative number as 0, `none` where it
-- raises), `isoformat`, whether `difflib` finds two texts more than 0.6 similar, `in` of texts, and
-- the commits since a window was opened, as `_parse_git_log` reads them from git.
pub record Clues : Type 0 where
  pub int_of : Json → Option ℕ
  pub isoformat : ℕ → String
  pub similar : String → String → Bool
  pub occurs : (part whole : String) → Bool
  pub commits : (window_id : ℕ) → List Commit

-- The value of a type of proof.
unfoldable pub proof_name : ProofType → String
proof_name git_commit = "git_commit"
proof_name test_pass = "test_pass"
proof_name bug_not_reproduced = "bug_not_reproduced"
proof_name reviewer_signoff = "reviewer_signoff"
proof_name completion_signal = "completion_signal"

-- `PROOF_REQUIREMENTS`
unfoldable pub default_requirements : WorkItemType → List ProofType
default_requirements feature = git_commit ∷ test_pass ∷ []
default_requirements bugfix = git_commit ∷ bug_not_reproduced ∷ []
default_requirements refactor = git_commit ∷ test_pass ∷ []
default_requirements test = git_commit ∷ []
default_requirements documentation = git_commit ∷ []
default_requirements review = reviewer_signoff ∷ []
default_requirements investigation = completion_signal ∷ []

-- `_required_proofs`: the column, where it holds a text
unfoldable pub required_proofs : WorkItem → List ProofType
required_proofs item = elim item.proof_requirements [
  | none ↦ default_requirements item.type
  | some required ↦ required
]

-- `proof["type"]`, which is a text in every proof.
unfoldable pub proof_type : Json → Result String
proof_type (object fields) = elim (get_field "type" fields) [
  | none ↦ err "KeyError" 500
  | some value ↦ elim (as_str? value) [ none ↦ err "TypeError" 500 | some t ↦ ok t ]
]
proof_type _ = err "TypeError" 500

-- The collected types cover what is required.
unfoldable pub sufficient : List ProofType → List String → Bool
sufficient required types = all (λ r. contains types (proof_name r)) required

abbrev pub is_open : WindowStatus → Bool
is_open open_window = true
is_open _ = false

abbrev pub at_window : ℕ → ProofWindow → Bool
at_window window_id w = w.id == window_id

unfoldable pub window_of : ℕ → Collector → Option ProofWindow
window_of window_id c = find? (at_window window_id) c.graph.windows

-- `emit`
unfoldable pub emit : String → Json → Collector → Collector
emit type payload c = record c {
  log =
      c.log
      ++ record { id = c.next_event; terminal_id = none; type = type; payload = payload } ∷ [];
  next_event = c.next_event + 1;
}

unfoldable pub set_proofs : ℕ → List Json → Collector → Collector
set_proofs window_id proofs c = record c {
  graph = record c.graph {
    windows =
        update_where (at_window window_id) (λ w. record w { proofs_collected = proofs })
          c.graph.windows;
  };
}

-- The window is closed or expires, and its item gets a status.
unfoldable pub end_window : ℕ → ℕ → WindowStatus → String → WorkItemStatus → Collector → Collector
end_window now window_id status item_id item_status c = record c {
  graph = record c.graph {
    windows =
        update_where (at_window window_id) (λ w. record w { status = status; closed_at = some now })
          c.graph.windows;
    items =
        update_where (λ i. i.id == item_id)
          (λ i. record i { status = item_status; updated_at = now }) c.graph.items;
  };
}

type_name : WorkItemType → String
type_name feature = "feature"
type_name bugfix = "bugfix"
type_name refactor = "refactor"
type_name test = "test"
type_name documentation = "documentation"
type_name review = "review"
type_name investigation = "investigation"

unfoldable pub or_empty : Option String → String
or_empty none = ""
or_empty (some s) = s

-- The outcome that is reported for the terminal of the item.
unfoldable pub outcome_of : WorkItem → Collector → Option (String × String × String)
unfolding type_name or_empty
outcome_of item c = elim item.owner_terminal_id [
  | none ↦ none
  | some owner ↦ elim (get (λ t. t.id) owner c.terminals) [
    | none ↦ none
    | some t ↦ some (t.provider, or_empty t.agent_profile, type_name item.type)
  ]
]

-- The window has all that it needs.
unfoldable pub close_window : ℕ → ProofWindow → WorkItem → List Json → Collector → Collector
close_window now w item proofs c =
    let closed = end_window now w.id closed_window item.id done c in
    let received =
      emit "WorkItemProofReceived"
        (object (
          field "work_item_id" (str w.work_item_id) (
            field "proof_window_id" (number (decimal w.id))
              (field "proofs" (array (from_items proofs)) end))))
        closed in
    emit "WorkItemStatusChanged"
      (object (
        field "work_item_id" (str w.work_item_id)
          (field "from_status" (str "needs_verification") (field "to_status" (str "done") end))))
      received

unfoldable pub judge_window :
    ℕ
    → ProofWindow
    → List Json
    → List String
    → Collector
    → Option (String × String × String) × Collector
judge_window now w proofs types c = elim (get (λ i. i.id) w.work_item_id c.graph.items) [
  | none ↦ (none, c)
  | some item ↦
      if sufficient (required_proofs item) types
      then (outcome_of item c, close_window now w item proofs c)
      else (none, c)
]

-- The block of `_add_proof`
unfoldable pub add_rows :
    ℕ → ℕ → Json → Collector → Result (Option (String × String × String) × Collector)
add_rows now window_id proof c = elim (window_of window_id c) [
  | none ↦ ok (none, c)
  | some w ↦
      if not (is_open w.status)
      then ok (none, c)
      else and_then (map_result proof_type w.proofs_collected) (λ types.
        and_then (proof_type proof) (λ t.
          if contains types t
          then ok (none, c)
          else let proofs = w.proofs_collected ++ proof ∷ [] in
            ok (judge_window now w proofs (types ++ t ∷ []) (set_proofs window_id proofs c))))
]

report : Option (String × String × String) → Exec Collector (Unit {0})
report none c = (ok tt, c)
report (some o) c = (ok tt, record c { outcomes = c.outcomes ++ o ∷ [] })

-- `_add_proof`
unfoldable pub add_proof : ℕ → ℕ → Json → Exec Collector (Unit {0})
unfolding report
add_proof now window_id proof = do
  outcome ← transaction (add_rows now window_id proof)
  report outcome
