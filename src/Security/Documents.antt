-- ===== src/Security/Documents.antt =====
-- The part of a policy's document that `PolicyRevisionCreateRequest` of schemas.py fixes the shape of,
-- and the document that is active: `active_document` of dataflow.py.
use agent_factor.Base.{
  ℕ, String, Bool, true, false, Option, none, some, List, [], string_eq, if◌then◌else◌, find?,
}
use agent_factor.Base.{Result, ok, err, Exec, and_then, ◌≡◌, refl}
use agent_factor.Store.{get}
use agent_factor.Security.Model.{
  Db, State, PolicyStatus, PolicyRevision, RevisionStatus, session_scope, commit,
}

-- `DataResourceRule`
pub record DataRule : Type 0 where
  pub id : String
  pub resource_prefixes : List String
  pub labels : List String

-- `DataEgressRule`
pub record EgressRule : Type 0 where
  pub id : String
  pub surfaces : List String
  pub destination_prefixes : List String
  pub allowed_labels : List String

pub record DeclassificationRule : Type 0 where
  pub id : String
  pub purpose : String
  pub remove_labels : List String

pub record CredentialRule : Type 0 where
  pub id : String
  pub source_env : String
  pub allowed_surfaces : List String
  pub resource_prefixes : List String
  pub ttl_seconds : ℕ

pub record NetworkRoute : Type 0 where
  pub id : String
  pub schemes : List String
  pub host_patterns : List String
  pub ports : List ℕ
  pub allow_private_ips : Bool

-- `{}` has none of the rules.
pub record Document : Type 0 where
  pub data_rules : List DataRule
  pub egress_rules : List EgressRule
  pub declassification_rules : List DeclassificationRule
  pub credentials : List CredentialRule
  pub network_routes : List NetworkRoute

abbrev pub no_document : Document
no_document = record {
  data_rules = [];
  egress_rules = [];
  declassification_rules = [];
  credentials = [];
  network_routes = [];
}

abbrev pub is_active : PolicyStatus → Bool
is_active PolicyStatus.active = true
is_active _ = false

abbrev pub is_published : RevisionStatus → Bool
is_published RevisionStatus.published = true
is_published _ = false

-- `parse` is `json.loads` of the text of a document, and `none` where it raises.
module _ (parse : String → Option Document) where
  -- The document of a published revision, with its digest.
  unfoldable pub revision_document : Option PolicyRevision → Result (Document × String)
  revision_document none = err "active_policy_revision_missing" 503
  revision_document (some revision) =
      if is_published revision.status
      then elim (parse revision.document) [
        | none ↦ err "active_policy_document_invalid" 503
        | some document ↦ ok (document, revision.document_digest)
      ]
      else err "active_policy_revision_missing" 503

  -- The query of the active policy and of its revision.
  unfoldable pub active_rows : Db → Result (Document × String)
  active_rows db = elim (find? (λ p. is_active p.status) db.policies) [
    | none ↦ ok (no_document, "sha256:none")
    | some policy ↦ elim policy.active_revision_id [
      | none ↦ ok (no_document, "sha256:none")
      | some id ↦ revision_document (get (λ r. r.id) id db.revisions)
    ]
  ]

  -- `active_document`: it only reads.
  unfoldable pub active_document : Exec State (Document × String)
  active_document = session_scope (λ db. and_then (active_rows db) (λ value. ok (value, db)))

  read_only :
      {A : Type 0} (r : Result A) (s : State)
      → commit s (and_then r (λ value. ok (value, s.db))) ≡ (r, s)
  read_only (ok a) s = refl
  read_only (err e n) s = refl

  pub active_document-eq : (s : State) → active_document s ≡ (active_rows s.db, s)
  unfolding active_document session_scope
  active_document-eq s = read_only (active_rows s.db) s
