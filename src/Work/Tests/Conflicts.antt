-- ===== src/Work/Tests/Conflicts.antt =====
-- Conflicts over a file at concrete inputs.
use agent_factor.Base.{String, ◌≡◌, refl, none, some, List, [], ◌∷◌}
use agent_factor.Base.{true, string_eq, option_eq, filter, any, find?, ok}
use agent_factor.Store.{get}
use agent_factor.Work.Graph.{WorkItem, feature, in_progress, WorkEdge, collaborates_on, Graph}
use agent_factor.Work.Conflicts.{
  is_candidate, candidates, collab_pairs, add_owner, add_files, file_owners, combinations,
  mapped_item, is_excused, conflicts_over, conflicts_of, detect_scope_conflicts,
}
use agent_factor.Work.Conflicts.Listed.{is_listed, lists, joins}
use agent_factor.Work.Conflicts.Found.{is_about, detect_scope_conflicts-finds}
use agent_factor.Work.Conflicts.Reported.{Reports, detect_scope_conflicts-Reports}

abbrev work : String → String → List String → WorkItem
work id terminal files = record {
  id = id;
  project_id = "p";
  title = "Title";
  description = "";
  type = feature;
  status = in_progress;
  priority = 3;
  owner_terminal_id = some terminal;
  acceptance_criteria = [];
  files_of_interest = files;
  proof_requirements = none;
  complexity = 3;
  updated_at = 0;
}

-- Three items of which two work together.
abbrev together : WorkEdge
together = record {
  id = 1;
  from_id = "w3";
  to_id = "w1";
  type = collaborates_on;
  created_by = "t";
  note = none;
}

abbrev busy : Graph
busy = record {
  items =
      work "w1" "t1" ("a.py" ∷ "b.py" ∷ [])
      ∷ work "w2" "t2" ("b.py" ∷ [])
      ∷ work "w3" "t3" ("a.py" ∷ [])
      ∷ [];
  edges = together ∷ [];
  windows = [];
  next_edge = 2;
  next_window = 1;
}

-- The first two share a file; the first and the third share one too, and work together.
detect-busy :
    detect_scope_conflicts "p" busy
    ≡ ok ((record { item_a = "w1"; item_b = "w2"; shared_file = "b.py" }) ∷ [])
unfolding detect_scope_conflicts candidates is_candidate collab_pairs add_owner add_files
    file_owners combinations mapped_item is_excused conflicts_over conflicts_of filter any find? get
    string_eq option_eq
detect-busy = refl

detect_scope_conflicts-Reports_example : Reports "p" busy (detect_scope_conflicts "p" busy)
detect_scope_conflicts-Reports_example = detect_scope_conflicts-Reports "p" busy

detect_scope_conflicts-finds_example :
    any
      (is_about "b.py" "w1" "w2")
      ((record { item_a = "w1"; item_b = "w2"; shared_file = "b.py" }) ∷ [])
    ≡ true
unfolding candidates is_candidate filter any find? get string_eq option_eq is_listed lists joins
detect_scope_conflicts-finds_example =
    detect_scope_conflicts-finds "p" busy "b.py" "w1" "w2" (work "w1" "t1" ("a.py" ∷ "b.py" ∷ []))
      (work "w2" "t2" ("b.py" ∷ []))
      ((record { item_a = "w1"; item_b = "w2"; shared_file = "b.py" }) ∷ []) refl refl refl refl
      refl refl refl detect-busy
