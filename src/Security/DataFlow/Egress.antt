-- ===== src/Security/DataFlow/Egress.antt =====
-- What an egress is allowed by.
use agent_factor.Base.{
  String, Bool, true, false, ◌≡◌, refl, arith, ◌||◌, ◌&&◌, Option, none, some, List, [], ◌∷◌,
}
use agent_factor.Base.{
  ◌==◌, contains, string_eq, if◌then◌else◌, any, all, sorted_set, sort_by, ok, err,
}
use agent_factor.Base.{contains-append, is_empty-difference, all-sorted_set, all-cong}
use agent_factor.Security.Model.{State, Machine, NativeSession, session_scope}
use agent_factor.Security.Documents.{Document, EgressRule, active_rows, active_document}
use agent_factor.Security.DataFlow.{
  EgressReply, is_public, covers, egress_allowed, egress_rule_ids, find_session, session_labels,
  decide_egress, authorize_egress,
}

-- A label may leave when it is public, or when a rule that covers the egress allows it.
abbrev pub may_leave : List EgressRule → String → String → String → Bool
may_leave rules surface destination label =
    label == "public"
    || any (λ rule. covers surface destination rule && contains rule.allowed_labels label) rules

-- The reply to an egress that is allowed: the covering rules by their identifiers, sorted, and as often
-- as the document repeats them.
abbrev pub egress_reply : Document → String → String → String → List String → EgressReply
egress_reply document policy_digest surface destination labels =
    if is_public labels
    then record { labels = labels; rule_ids = []; policy_digest = none }
    else record {
      labels = labels;
      rule_ids = sort_by (λ s. s) (egress_rule_ids surface destination document.egress_rules);
      policy_digest = some policy_digest;
    }

contains-egress_allowed :
    (surface destination label : String) (rules : List EgressRule)
    → contains (egress_allowed surface destination rules) label
      ≡ any (λ rule. covers surface destination rule && contains rule.allowed_labels label) rules
unfolding egress_allowed any
contains-egress_allowed surface destination label [] = refl
contains-egress_allowed surface destination label (rule ∷ rules) = ground (
  arith,
  contains-egress_allowed surface destination label rules,
  contains-append rule.allowed_labels (egress_allowed surface destination rules) label,
)

is_public-all :
    (p : String → Bool)
    → p "public" ≡ true
    → (ls : List String) → is_public ls ≡ true
    → all p ls ≡ true
unfolding is_public all
is_public-all p h [] e = refl
is_public-all p h (l ∷ []) e = ground arith
is_public-all p h (l ∷ m ∷ ls) e = ground arith

module _ (surface destination : String) (document : Document) (policy_digest : String)
    (labels : List String) where
  abbrev allowed_by : List String
  allowed_by = "public" ∷ egress_allowed surface destination document.egress_rules

  all-allowed :
      all (contains allowed_by) labels
      ≡ all (may_leave document.egress_rules surface destination) labels
  all-allowed =
      all-cong (contains allowed_by) (may_leave document.egress_rules surface destination)
        (λ l. ground (arith, contains-egress_allowed surface destination l document.egress_rules))
        labels

  decide_egress_lem :
      (s : State)
      → is_public labels ≡ false
      → decide_egress surface destination labels (document, policy_digest) s ≡ (
        if all (may_leave document.egress_rules surface destination) labels
            then ok (egress_reply document policy_digest surface destination labels)
            else err "sensitive_egress_blocked" 403,
        s,
      )
  unfolding decide_egress
  decide_egress_lem s h = ground (arith, all-allowed, is_empty-difference labels allowed_by)

module _ (machine : Machine) (parse : String → Option Document)
    (session_id surface destination : String) (s : State) (session : NativeSession)
    (document : Document) (policy_digest : String) where
  -- When the session exists and a document is active, an egress is allowed exactly when every label of
  -- the session is public or allowed by a rule that covers the surface and the destination; any
  -- other egress is refused with 403. The reply names the labels and, unless they are public, the
  -- sorted identifiers of the covering rules and the digest of the document. The tables stay as they
  -- are.
  pub authorize_egress-decides :
      find_session session_id s.db ≡ ok session
      → active_rows parse s.db ≡ ok (document, policy_digest)
      → authorize_egress machine parse session_id surface destination s ≡ (
        if all (may_leave document.egress_rules surface destination) session.taint_labels
            then ok (
                egress_reply document policy_digest surface destination
                  (sorted_set session.taint_labels))
            else err "sensitive_egress_blocked" 403,
        s,
      )
  unfolding authorize_egress session_labels session_scope active_document
  authorize_egress-decides found active =
      let may = may_leave document.egress_rules surface destination in
      let labels = sorted_set session.taint_labels in
      ground (
        arith,
        found,
        active,
        all-sorted_set may session.taint_labels,
        is_public-all may (ground arith) labels,
        decide_egress_lem surface destination document policy_digest labels s,
      )
