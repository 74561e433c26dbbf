-- ===== src/Security/DataFlow.antt =====
-- security/dataflow.py: labels of files, taint of sessions, egress, and declassification.
pub mod Egress
pub mod Taint
pub mod Declassify
pub mod Accounting
use agent_factor.Base.{
  ◌+◌, String, ◌<>◌, Bool, true, false, ◌||◌, ◌&&◌, Option, none, some, List, [], ◌∷◌, ◌++◌,
}
use agent_factor.Base.{
  ◌==◌, contains, string_eq, if◌then◌else◌, any, find?, starts_with_any, update_where,
}
use agent_factor.Base.{sorted_set, sort_by, difference, intersection}
use agent_factor.Base.{Result, ok, err, Exec, pure, raise, continue, and_then, ◌>>=◌, ◌>>◌}
use agent_factor.Store.{get, add}
use agent_factor.Security.Model.{Db, State, Machine, NativeSession, session_scope, draw}
use agent_factor.Security.Documents.{
  Document, DataRule, EgressRule, DeclassificationRule, active_document,
}
use agent_factor.Security.Gateway.Action.{is_abs}
use agent_factor.Security.Gateway.Policy.{directory, within}

pub record EgressReply : Type 0 where
  pub labels : List String
  pub rule_ids : List String
  pub policy_digest : Option String

pub record Declassified : Type 0 where
  pub removed_labels : List String
  pub remaining_labels : List String
  pub policy_digest : String

-- The labels that are public are never denied: `if not labels or labels == {"public"}`.
unfoldable pub is_public : List String → Bool
unfolding string_eq
is_public [] = true
is_public (l ∷ []) = l == "public"
is_public (l ∷ m ∷ ls) = false

-- A rule covers an egress by its surface and by a prefix of the destination.
unfoldable pub covers : String → String → EgressRule → Bool
covers surface destination rule =
    contains rule.surfaces surface && starts_with_any destination rule.destination_prefixes

-- The loop over the rules: the labels that they allow, and their identifiers.
unfoldable pub egress_allowed : String → String → List EgressRule → List String
egress_allowed surface destination [] = []
egress_allowed surface destination (rule ∷ rules) =
    let rest = egress_allowed surface destination rules in
    if covers surface destination rule then rule.allowed_labels ++ rest else rest

unfoldable pub egress_rule_ids : String → String → List EgressRule → List String
egress_rule_ids surface destination [] = []
egress_rule_ids surface destination (rule ∷ rules) =
    let rest = egress_rule_ids surface destination rules in
    if covers surface destination rule
    then (if rule.id == "" then rest else rule.id ∷ rest)
    else rest

-- The row of a session, or 404.
unfoldable pub find_session : String → Db → Result NativeSession
find_session session_id db = elim (get (λ r. r.id) session_id db.sessions) [
  | none ↦ err "native_session_not_found" 404
  | some session ↦ ok session
]

abbrev pub set_labels : List String → NativeSession → NativeSession
set_labels labels session = record session { taint_labels = labels }

-- `session.taint_labels = …`
unfoldable pub write_labels : String → List String → Db → Db
write_labels session_id labels db = record db {
  sessions = update_where (λ r. r.id == session_id) (set_labels labels) db.sessions;
}

-- `taint_session`
unfoldable pub taint_session : String → List String → Exec State (List String)
taint_session session_id labels = session_scope (λ db.
    and_then (find_session session_id db) (λ session.
      let current = sorted_set (session.taint_labels ++ labels) in
      ok (current, write_labels session_id current db)))

-- `session_labels`
unfoldable pub session_labels : String → Exec State (List String)
session_labels session_id = session_scope (λ db.
    and_then (find_session session_id db) (λ session. ok (sorted_set session.taint_labels, db)))

-- The decision over the rules of the active document.
unfoldable pub decide_egress :
    String → String → List String → Document × String → Exec State EgressReply
decide_egress surface destination labels (document, policy_digest) =
    let allowed = "public" ∷ egress_allowed surface destination document.egress_rules in
    elim (difference labels allowed) [
      | [] ↦ pure (record {
        labels = labels;
        rule_ids = sort_by (λ s. s) (egress_rule_ids surface destination document.egress_rules);
        policy_digest = some policy_digest;
      })
      | _ ∷ _ ↦ raise "sensitive_egress_blocked" 403
    ]

module _ (machine : Machine) where
  open machine use {realpath, sha256_hex, uuid_hex}

  -- `_path_matches`
  unfoldable pub path_matches : String → String → Bool
  path_matches resource prefix =
      if is_abs prefix then within resource (directory (realpath prefix)) else false

  -- A file may be covered by a prefix, and a directory tree may also hold one.
  unfoldable pub scope_matches : String → String → Bool
  scope_matches scope prefix = path_matches scope prefix || path_matches (realpath prefix) scope

  unfoldable pub rule_labels : (String → Bool) → List DataRule → List String
  rule_labels test [] = []
  rule_labels test (rule ∷ rules) =
      let rest = rule_labels test rules in
      if any test rule.resource_prefixes then rule.labels ++ rest else rest

  -- The part of `declassify` behind the lookup of the rule.
  unfoldable pub remove_labels :
      String → String → String → DeclassificationRule → String → Exec State Declassified
  remove_labels session_id rule_id purpose rule policy_digest = do
    n ← draw 1
    session_scope (λ db. and_then (find_session session_id db) (λ session.
        let removed = sorted_set (intersection session.taint_labels rule.remove_labels) in
        let remaining = sorted_set (difference session.taint_labels rule.remove_labels) in
        let changed = write_labels session_id remaining db in
        and_then
          (add (λ r. r.id)
            (record {
              id = "declassification_" <> uuid_hex n;
              session_id = session_id;
              rule_id = rule_id;
              purpose_digest = "sha256:" <> sha256_hex purpose;
              removed_labels = removed;
              policy_digest = policy_digest;
            })
            db.declassifications)
          (λ rows. ok (
            record {
              removed_labels = removed;
              remaining_labels = remaining;
              policy_digest = policy_digest;
            },
            record changed { declassifications = rows },
          ))))

  module _ (parse : String → Option Document) where
    -- `labels_for_path`
    unfoldable pub labels_for_path : String → Exec State (List String)
    labels_for_path path = do
      (document, _) ← active_document parse
      pure (rule_labels (path_matches (realpath path)) document.data_rules)

    -- `labels_for_scope`
    unfoldable pub labels_for_scope : String → Exec State (List String)
    labels_for_scope path = do
      (document, _) ← active_document parse
      pure (rule_labels (scope_matches (realpath path)) document.data_rules)

    -- `authorize_egress`
    unfoldable pub authorize_egress : String → String → String → Exec State EgressReply
    authorize_egress session_id surface destination = do
      labels ← session_labels session_id
      if is_public labels
          then pure (record { labels = labels; rule_ids = []; policy_digest = none })
          else (active_document parse >>= decide_egress surface destination labels)

    -- `declassify`
    unfoldable pub declassify : String → String → String → Exec State Declassified
    declassify session_id rule_id purpose = do
      (document, policy_digest) ← active_document parse
      elim (find? (λ rule. rule.id == rule_id) document.declassification_rules) [
        | none ↦ raise "declassification_not_authorized" 403
        | some rule ↦
            if rule.purpose == purpose
            then remove_labels session_id rule_id purpose rule policy_digest
            else raise "declassification_not_authorized" 403
      ]
