-- ===== src/Security/Tests/Flows.antt =====
-- The theorems about data flow and credentials at concrete inputs.
use agent_factor.Base.{true, ◌||◌, ◌≡◌, refl, some, [], ◌∷◌, ◌++◌, ok, err}
use agent_factor.Base.{
  string_eq, find?, sorted_set, sort_by, starts_with_any, any, all, if◌then◌else◌, difference,
  intersection, nat_eq, filter, str_length, every_char,
}
use agent_factor.Base.{ℕ_discrete}
use agent_factor.Store.{get, add, has_key}
use agent_factor.Security.Model.{State, session_scope}
use agent_factor.Security.Documents.{
  active_document, active_rows, revision_document, DeclassificationRule, Document,
}
use agent_factor.Security.DataFlow.{
  taint_session, session_labels, authorize_egress, declassify, find_session, write_labels,
  is_public, covers, remove_labels, Declassified, decide_egress, egress_allowed, egress_rule_ids,
}
use agent_factor.Security.DataFlow.Egress.{may_leave, egress_reply, authorize_egress-decides}
use agent_factor.Security.DataFlow.Taint.{has_label, IsTainted, taint_session-IsTainted}
use agent_factor.Security.DataFlow.Declassify.{
  IsDeclassified, IsAuthorized, declassify-IsDeclassified,
}
use agent_factor.Security.DataFlow.Accounting.{
  here, next, declassifies, has_evidence, Run-accounted,
}
use agent_factor.Security.Credentials.{checkout, rule_secret, in_scope, is_env_name}
use agent_factor.Security.Credentials.Checkout.{IsCheckout, checkout-IsCheckout}
use agent_factor.Security.Access.{setting}
use agent_factor.Security.Samples.{machine, flows, parse_flows, flowing, vouches, session_of}

-- Personal data does not leave for the network.
authorize_egress-decides_example :
    authorize_egress machine parse_flows "n1" "network" "https://inside/" flowing ≡ (
      if all (may_leave flows.egress_rules "network" "https://inside/") ("pii" ∷ [])
          then ok (
              egress_reply flows "sha256:flows" "network" "https://inside/"
                (sorted_set ("pii" ∷ [])))
          else err "sensitive_egress_blocked" 403,
      flowing,
    )
unfolding find_session active_rows revision_document get find? string_eq
authorize_egress-decides_example =
    authorize_egress-decides machine parse_flows "n1" "network" "https://inside/" flowing
      (session_of "n1" "t1" ("pii" ∷ [])) flows "sha256:flows" refl refl

egress_network :
    (authorize_egress machine parse_flows "n1" "network" "https://inside/" flowing).0
    ≡ err "sensitive_egress_blocked" 403
unfolding authorize_egress session_labels session_scope active_document active_rows
    revision_document get find? string_eq find_session is_public decide_egress difference filter
    egress_allowed covers starts_with_any sorted_set
egress_network = refl

abbrev inside_twice : Document
inside_twice = record flows { egress_rules = flows.egress_rules ++ flows.egress_rules }

-- Two covering rules with one identifier are both named.
decide_egress-repeats :
    (decide_egress "model" "https://inside/" ("pii" ∷ []) (inside_twice, "sha256:twice") flowing).0
    ≡ ok (record {
      labels = "pii" ∷ [];
      rule_ids = "inside" ∷ "inside" ∷ [];
      policy_digest = some "sha256:twice";
    })
unfolding decide_egress difference filter egress_allowed egress_rule_ids covers starts_with_any
    sort_by string_eq
decide_egress-repeats = refl

taint_session-IsTainted_example :
    IsTainted "n2"
      ("internal" ∷ "pii" ∷ [])
      ("internal" ∷ "pii" ∷ [])
      flowing.db
      (taint_session "n2" ("internal" ∷ "pii" ∷ []) flowing).1.db
unfolding taint_session session_scope find_session get find? string_eq sorted_set write_labels
taint_session-IsTainted_example =
    taint_session-IsTainted "n2" ("internal" ∷ "pii" ∷ []) ("internal" ∷ "pii" ∷ []) flowing refl

abbrev redacted : Declassified
redacted = record {
  removed_labels = "pii" ∷ [];
  remaining_labels = [];
  policy_digest = "sha256:flows";
}

declassify-IsDeclassified_example :
    (rule : DeclassificationRule) × IsAuthorized machine "n1" "redact" "redacted" parse_flows
      flowing.db rule
    × IsDeclassified "n1" rule redacted flowing.db
        (declassify machine parse_flows "n1" "redact" "redacted" flowing).1.db
unfolding declassify remove_labels session_scope active_document active_rows revision_document get
    find? string_eq find_session difference intersection filter sorted_set add has_key any
    write_labels
declassify-IsDeclassified_example =
    declassify-IsDeclassified machine "n1" "redact" "redacted" parse_flows flowing redacted refl

abbrev after_redaction : State
after_redaction = (declassify machine parse_flows "n1" "redact" "redacted" flowing).1

Run-accounted_example :
    (has_label "n1" "pii" after_redaction.db || has_evidence "n1" "pii" after_redaction.db) ≡ true
unfolding has_label get find? string_eq
Run-accounted_example =
    Run-accounted machine parse_flows "n1" "pii" refl
      (next here (declassifies "n1" "redact" "redacted"))

checkout-IsCheckout_example :
    IsCheckout machine
      (vouches "alice")
      parse_flows
      5
      "key"
      "n1"
      "model"
      "https://inside/v1"
      "MODEL_KEY"
      "credential_lease_0"
      flowing
      (checkout machine
        (vouches "alice")
        parse_flows
        5
        "key"
        "n1"
        "model"
        "https://inside/v1"
        flowing).1
unfolding checkout session_scope active_document active_rows revision_document get find? string_eq
    rule_secret in_scope starts_with_any is_env_name setting add has_key any str_length every_char
    nat_eq ℕ_discrete
checkout-IsCheckout_example =
    checkout-IsCheckout machine (vouches "alice") parse_flows 5 "key" "n1" "model"
      "https://inside/v1" flowing "MODEL_KEY" "credential_lease_0" refl
