-- ===== src/Work/Items.antt =====
-- The operations of services/work_service.py on items, edges and proof windows.
use agent_factor.Base.{
  ℕ, ◌+◌, ◌*◌, String, Bool, true, false, not, ◌&&◌, Option, none, some, List, [], ◌∷◌, ◌++◌,
}
use agent_factor.Base.{
  ◌==◌, string_eq, nat_eq, option_eq, if◌then◌else◌, any, all, filter, find?, update_where,
}
use agent_factor.Base.{Result, ok, err, Exec, pure, ◌>>=◌, ◌>>◌, and_then, transaction}
use agent_factor.Store.{get, add}
use agent_factor.Work.Graph.{
  WorkItemType, feature, bugfix, refactor, test, documentation, review, investigation, ready,
  in_progress, ProofType, WorkItem, WorkEdge, ProofWindow, open_window, Graph, CreateItem,
  UpdateItem, CreateEdge, Given, unset, given, is_ready, is_done, is_verifying, is_closed,
}

-- `PROOF_TIMEOUTS_MINUTES`
unfoldable pub timeout_minutes : WorkItemType → ℕ
timeout_minutes feature = 45
timeout_minutes bugfix = 20
timeout_minutes refactor = 30
timeout_minutes test = 15
timeout_minutes documentation = 15
timeout_minutes review = 60
timeout_minutes investigation = 10

abbrev pub minutes : ℕ → ℕ
minutes n = n * 60000000

-- `json.dumps(…) if req.proof_requirements else None`
abbrev pub non_empty : {A : Type 0} → Option (List A) → Option (List A)
non_empty (some (x ∷ xs)) = some (x ∷ xs)
non_empty _ = none

-- `_parse_json` of the column
abbrev pub requirements : Option (List ProofType) → List ProofType
requirements none = []
requirements (some ps) = ps

-- The truth of a list
abbrev pub holds_any : {A : Type 0} → List A → Bool
holds_any [] = false
holds_any (x ∷ xs) = true

-- `create_work_item`, with the identifier drawn for it
unfoldable pub create_work_item : String → ℕ → CreateItem → Exec Graph WorkItem
create_work_item id now r = transaction (λ db.
    let item : WorkItem = record {
      id = id;
      project_id = r.project_id;
      title = r.title;
      description = r.description;
      type = r.type;
      status = ready;
      priority = r.priority;
      owner_terminal_id = r.owner_terminal_id;
      acceptance_criteria = r.acceptance_criteria;
      files_of_interest = r.files_of_interest;
      proof_requirements = non_empty r.proof_requirements;
      complexity = r.complexity;
      updated_at = now;
    } in
    and_then (add (λ i. i.id) item db.items) (λ items. ok (item, record db { items = items })))

-- The closed windows of an item have collected some evidence.
unfoldable pub is_proven : String → Graph → Bool
is_proven item_id db =
    any (λ w. w.work_item_id == item_id && is_closed w.status && holds_any w.proofs_collected)
      db.windows

-- The transition to DONE asks for evidence.
unfoldable pub needs_proof : WorkItem → UpdateItem → Bool
needs_proof item r = elim r.status [
  | none ↦ false
  | some status ↦
      is_done status
      && not (is_done item.status)
      && holds_any (requirements item.proof_requirements)
]

abbrev or_keep : {A : Type 0} → Option A → A → A
or_keep none a = a
or_keep (some b) a = b

abbrev or_given : {A : Type 0} → Given A → A → A
or_given unset a = a
or_given (given b) a = b

-- The assignments of `update_work_item`
unfoldable pub apply_update : ℕ → UpdateItem → WorkItem → WorkItem
apply_update now r item = record item {
  title = or_keep r.title item.title;
  description = or_keep r.description item.description;
  status = or_keep r.status item.status;
  priority = or_keep r.priority item.priority;
  owner_terminal_id = or_given r.owner_terminal_id item.owner_terminal_id;
  acceptance_criteria = or_keep r.acceptance_criteria item.acceptance_criteria;
  files_of_interest = or_keep r.files_of_interest item.files_of_interest;
  proof_requirements = or_given r.proof_requirements item.proof_requirements;
  complexity = or_keep r.complexity item.complexity;
  updated_at = now;
}

-- `open_proof_window`
unfoldable pub open_proof_window : ℕ → String → Exec Graph (Option ProofWindow)
open_proof_window now item_id = transaction (λ db. elim (get (λ i. i.id) item_id db.items) [
  | none ↦ ok (none, db)
  | some item ↦
      let window : ProofWindow = record {
        id = db.next_window;
        work_item_id = item_id;
        expires_at = now + minutes (timeout_minutes item.type);
        status = open_window;
        proofs_collected = [];
        closed_at = none;
      } in
      ok (
        some window,
        record db { windows = db.windows ++ window ∷ []; next_window = db.next_window + 1 },
      )
])

-- The first block of `update_work_item`: the row before and after, or `None`.
unfoldable pub update_rows :
    ℕ → String → UpdateItem → Graph → Result (Option (WorkItem × WorkItem) × Graph)
update_rows now item_id r db = elim (get (λ i. i.id) item_id db.items) [
  | none ↦ ok (none, db)
  | some item ↦
      if needs_proof item r && not (is_proven item_id db)
      then err "ProofRequiredError" 500
      else ok (
        some (item, apply_update now r item),
        record db { items = update_where (λ i. i.id == item_id) (apply_update now r) db.items },
      )
]

-- The request moves the item to NEEDS_VERIFICATION.
unfoldable pub opens_window : WorkItem → UpdateItem → Bool
opens_window item r = elim r.status [
  | none ↦ false
  | some status ↦ is_verifying status && not (is_verifying item.status)
]

-- `update_work_item`: the window is opened in a transaction of its own.
unfoldable pub update_work_item : ℕ → String → UpdateItem → Exec Graph (Option WorkItem)
update_work_item now item_id r = do
  updated ← transaction (update_rows now item_id r)
  elim updated [
    | none ↦ pure none
    | some (before, after) ↦
        if opens_window before r
        then (open_proof_window now item_id >> pure (some after))
        else pure (some after)
  ]

abbrev pub claim_row : ℕ → String → WorkItem → WorkItem
claim_row now terminal_id item = record item {
  status = in_progress;
  owner_terminal_id = some terminal_id;
  updated_at = now;
}

-- The row may be claimed: it is ready, and nobody owns it.
unfoldable pub is_claimable : WorkItem → Bool
is_claimable item = is_ready item.status && item.owner_terminal_id == none

-- `claim_work_item`: the messages of the three errors all are a `ValueError`.
unfoldable pub claim_work_item : ℕ → String → String → Exec Graph WorkItem
unfolding option_eq
claim_work_item now item_id terminal_id = transaction (λ db.
    elim (get (λ i. i.id) item_id db.items) [
      | none ↦ err "not found" 500
      | some item ↦
          if not (is_ready item.status)
          then err "is not claimable" 500
          else if not (item.owner_terminal_id == none)
          then err "is already claimed" 500
          else ok (
            claim_row now terminal_id item,
            record db {
              items = update_where (λ i. i.id == item_id) (claim_row now terminal_id) db.items;
            },
          )
    ])

-- Every edge to the item comes from an item of the project that is done.
unfoldable pub is_unblocked : String → Graph → WorkItem → Bool
is_unblocked project_id db item =
    all
      (λ e. any (λ i. i.id == e.from_id && i.project_id == project_id && is_done i.status) db.items)
      (filter (λ e. e.to_id == item.id) db.edges)

-- `list_available_work_items`
unfoldable pub list_available_work_items : String → Graph → List WorkItem
list_available_work_items project_id db =
    filter (is_unblocked project_id db)
      (filter (λ i. i.project_id == project_id && is_claimable i) db.items)

-- `list_by_owner`
unfoldable pub list_by_owner : String → Graph → List WorkItem
list_by_owner terminal_id db = filter (λ i. i.owner_terminal_id == some terminal_id) db.items

-- `create_edge`
unfoldable pub create_edge : CreateEdge → Exec Graph WorkEdge
create_edge r = transaction (λ db.
    let edge : WorkEdge = record {
      id = db.next_edge;
      from_id = r.from_id;
      to_id = r.to_id;
      type = r.type;
      created_by = r.created_by;
      note = r.note;
    } in
    ok (edge, record db { edges = db.edges ++ edge ∷ []; next_edge = db.next_edge + 1 }))

-- `list_edges`
unfoldable pub list_edges : String → Graph → List WorkEdge
list_edges project_id db =
    filter (λ e. any (λ i. i.id == e.from_id && i.project_id == project_id) db.items) db.edges

-- `delete_work_item`, `delete_edge`
unfoldable pub delete_work_item : String → Exec Graph Bool
delete_work_item item_id = transaction (λ db. elim (get (λ i. i.id) item_id db.items) [
  | none ↦ ok (false, db)
  | some item ↦ ok (true, record db { items = filter (λ i. not (i.id == item_id)) db.items })
])

unfoldable pub delete_edge : ℕ → Exec Graph Bool
delete_edge edge_id = transaction (λ db. elim (find? (λ e. e.id == edge_id) db.edges) [
  | none ↦ ok (false, db)
  | some edge ↦ ok (true, record db { edges = filter (λ e. not (e.id == edge_id)) db.edges })
])
