-- ===== src/Work/Conflicts.antt =====
-- `detect_scope_conflicts` of services/work_service.py: pairs of items of different terminals that
-- are interested in the same file.
pub mod Listed
pub mod Owners
pub mod Reported
pub mod Found
use agent_factor.Base.{
  String, Bool, true, false, ◌&&◌, ◌||◌, Option, none, some, List, [], ◌∷◌, ◌++◌, map,
}
use agent_factor.Base.{◌==◌, contains, string_eq, option_eq, if◌then◌else◌, filter, any}
use agent_factor.Base.{Result, ok, err, and_then}
use agent_factor.Store.{get}
use agent_factor.Work.Graph.{
  WorkItem, WorkItemStatus, ready, in_progress, WorkEdge, EdgeType, collaborates_on, Graph,
}

-- The status is IN_PROGRESS or READY.
abbrev pub is_live : WorkItemStatus → Bool
is_live ready = true
is_live in_progress = true
is_live _ = false

abbrev pub is_owned : Option String → Bool
is_owned none = false
is_owned (some _) = true

abbrev pub is_collaboration : EdgeType → Bool
is_collaboration collaborates_on = true
is_collaboration _ = false

-- The items that the conflicts are looked for among.
unfoldable pub is_candidate : String → WorkItem → Bool
is_candidate project_id i =
    i.project_id == project_id && is_live i.status && is_owned i.owner_terminal_id

unfoldable pub candidates : String → Graph → List WorkItem
candidates project_id g = filter (is_candidate project_id) g.items

-- `collab_pairs`: both directions of each edge that starts from a candidate.
unfoldable pub collab_pairs : List String → List WorkEdge → List (String × String)
collab_pairs item_ids [] = []
collab_pairs item_ids (e ∷ es) =
    let rest = collab_pairs item_ids es in
    if is_collaboration e.type && contains item_ids e.from_id
    then (e.from_id, e.to_id) ∷ (e.to_id, e.from_id) ∷ rest
    else rest

-- An entry of `file_owners`.
pub record FileOwners : Type 0 where
  pub file : String
  pub owners : List String

-- `file_owners.setdefault(f, []).append(item.id)`
unfoldable pub add_owner : String → String → List FileOwners → List FileOwners
add_owner f item_id [] = (record { file = f; owners = item_id ∷ [] }) ∷ []
add_owner f item_id (o ∷ os) =
    let rest = add_owner f item_id os in
    if o.file == f then (record o { owners = o.owners ++ item_id ∷ [] }) ∷ os else o ∷ rest

unfoldable pub add_files : String → List String → List FileOwners → List FileOwners
add_files item_id [] os = os
add_files item_id (f ∷ fs) os = add_files item_id fs (add_owner f item_id os)

unfoldable pub file_owners : List WorkItem → List FileOwners → List FileOwners
file_owners [] os = os
file_owners (i ∷ items) os = file_owners items (add_files i.id i.files_of_interest os)

-- `combinations(owners, 2)`
unfoldable pub combinations : List String → List (String × String)
combinations [] = []
combinations (a ∷ rest) = map (λ b. (a, b)) rest ++ combinations rest

pub record Conflict : Type 0 where
  pub item_a : String
  pub item_b : String
  pub shared_file : String

module _ (items : List WorkItem) (pairs : List (String × String)) where
  -- `item_map[…]`
  unfoldable pub mapped_item : String → Result WorkItem
  mapped_item item_id = elim (get (λ i. i.id) item_id items) [
    | none ↦ err "KeyError" 500
    | some i ↦ ok i
  ]

  unfoldable pub is_excused : String → String → WorkItem → WorkItem → Bool
  is_excused a b ia ib =
      ia.owner_terminal_id == ib.owner_terminal_id || any (λ p. p.0 == a && p.1 == b) pairs

  -- The conflicts over one file.
  unfoldable pub conflicts_over : String → List (String × String) → Result (List Conflict)
  conflicts_over f [] = ok []
  conflicts_over f ((a, b) ∷ ps) = and_then (mapped_item a) (λ ia. and_then (mapped_item b) (λ ib.
      and_then (conflicts_over f ps) (λ rest. ok (
        if is_excused a b ia ib
        then rest
        else (record { item_a = a; item_b = b; shared_file = f }) ∷ rest))))

  -- Fewer than two owners have no combination.
  unfoldable pub conflicts_of : List FileOwners → Result (List Conflict)
  conflicts_of [] = ok []
  conflicts_of (o ∷ os) =
      and_then (conflicts_over o.file (combinations o.owners))
        (λ found. and_then (conflicts_of os) (λ rest. ok (found ++ rest)))

unfoldable pub detect_scope_conflicts : String → Graph → Result (List Conflict)
detect_scope_conflicts project_id g =
    let items = candidates project_id g in
    conflicts_of items (collab_pairs (map (λ i. i.id) items) g.edges) (file_owners items [])
