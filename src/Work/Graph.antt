-- ===== src/Work/Graph.antt =====
-- The tables of the work graph (clients/database.py), and the requests of models/work.py. The JSON
-- columns are the lists that they encode.
use agent_factor.Base.{ℕ, String, Bool, true, false, Option, List}
use agent_factor.Json.{Json}

pub data WorkItemType : Type 0 where
  feature bugfix refactor test documentation review investigation : WorkItemType

pub data WorkItemStatus : Type 0 where
  ready blocked in_progress needs_verification done cancelled : WorkItemStatus

pub data EdgeType : Type 0 where
  blocks enables conflicts_with validates collaborates_on : EdgeType

pub data ProofType : Type 0 where
  git_commit test_pass bug_not_reproduced reviewer_signoff completion_signal : ProofType

pub record WorkItem : Type 0 where
  pub id : String
  pub project_id : String
  pub title : String
  pub description : String
  pub type : WorkItemType
  pub status : WorkItemStatus
  pub priority : ℕ
  pub owner_terminal_id : Option String
  pub acceptance_criteria : List String
  pub files_of_interest : List String
  pub proof_requirements : Option (List ProofType)
  pub complexity : ℕ
  pub updated_at : ℕ

pub record WorkEdge : Type 0 where
  pub id : ℕ
  pub from_id : String
  pub to_id : String
  pub type : EdgeType
  pub created_by : String
  pub note : Option String

pub data WindowStatus : Type 0 where
  open_window closed_window expired_window : WindowStatus

pub record ProofWindow : Type 0 where
  pub id : ℕ
  pub work_item_id : String
  pub expires_at : ℕ
  pub status : WindowStatus
  pub proofs_collected : List Json
  pub closed_at : Option ℕ

-- The tables, with the next value of the two automatic keys.
pub record Graph : Type 0 where
  pub items : List WorkItem
  pub edges : List WorkEdge
  pub windows : List ProofWindow
  pub next_edge : ℕ
  pub next_window : ℕ

-- `WorkItemCreateRequest`
pub record CreateItem : Type 0 where
  pub project_id : String
  pub title : String
  pub description : String
  pub type : WorkItemType
  pub priority : ℕ
  pub owner_terminal_id : Option String
  pub acceptance_criteria : List String
  pub files_of_interest : List String
  pub proof_requirements : Option (List ProofType)
  pub complexity : ℕ

-- A field that may be absent from the request (`model_fields_set`).
pub data Given {ℓ} (A : Type ℓ) : Type ℓ where
  unset : Given A
  given : A → Given A

-- `WorkItemUpdateRequest`
pub record UpdateItem : Type 0 where
  pub title : Option String
  pub description : Option String
  pub status : Option WorkItemStatus
  pub priority : Option ℕ
  pub owner_terminal_id : Given (Option String)
  pub acceptance_criteria : Option (List String)
  pub files_of_interest : Option (List String)
  pub proof_requirements : Given (Option (List ProofType))
  pub complexity : Option ℕ

-- `WorkEdgeCreateRequest`
pub record CreateEdge : Type 0 where
  pub from_id : String
  pub to_id : String
  pub type : EdgeType
  pub created_by : String
  pub note : Option String

abbrev pub is_ready : WorkItemStatus → Bool
is_ready ready = true
is_ready _ = false

abbrev pub is_done : WorkItemStatus → Bool
is_done done = true
is_done _ = false

abbrev pub is_verifying : WorkItemStatus → Bool
is_verifying needs_verification = true
is_verifying _ = false

abbrev pub is_closed : WindowStatus → Bool
is_closed closed_window = true
is_closed _ = false
