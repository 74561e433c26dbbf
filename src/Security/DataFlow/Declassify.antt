-- ===== src/Security/DataFlow/Declassify.antt =====
-- What a declassification takes from a session, and the evidence that it leaves.
use agent_factor.Base.{
  ℕ, String, ◌<>◌, not, ◌≡◌, refl, arith, ◌&&◌, Option, some, List, [], ◌∷◌, ◌++◌,
}
use agent_factor.Base.{◌==◌, contains, string_eq, sorted_set, difference, intersection, find?}
use agent_factor.Base.{contains-sorted_set, contains-difference, contains-intersection}
use agent_factor.Base.{ok, err, Result-cases, Option-cases, Bool-cases, inl, inr}
use agent_factor.Store.{add}
use agent_factor.Security.Model.{Db, State, Machine, NativeSession, Declassification, session_scope}
use agent_factor.Security.Documents.{
  Document, DeclassificationRule, active_rows, active_document-eq,
}
use agent_factor.Security.DataFlow.{
  find_session, write_labels, Declassified, remove_labels, declassify,
}
use agent_factor.Security.DataFlow.Taint.{
  has_label, has_label-write_labels, has_label-write_labels-ne, has_label-find_session,
}

-- A declassification takes exactly the labels of the rule from the session, answers what it took
-- and what stays, and leaves a row as evidence. The other sessions keep their labels.
pub record IsDeclassified (session_id : String) (rule : DeclassificationRule) (r : Declassified)
    (db db' : Db) : Type 0 where
  pub remaining : (l : String) → has_label session_id l db' ≡ contains r.remaining_labels l
  pub kept :
      (other l : String)
      → has_label other l db'
        ≡ (has_label other l db && not (other == session_id && contains rule.remove_labels l))
  pub removed :
      (l : String)
      → contains r.removed_labels l ≡ (has_label session_id l db && contains rule.remove_labels l)
  pub row : Declassification
  pub evidence : db'.declassifications ≡ db.declassifications ++ row ∷ []
  pub of_session : row.session_id ≡ session_id
  pub of_labels : row.removed_labels ≡ r.removed_labels
  pub of_policy : row.policy_digest ≡ r.policy_digest

reply-eq :
    (r : Declassified) (a b : List String) (c : String)
    → r.removed_labels ≡ a
    → r.remaining_labels ≡ b
    → r.policy_digest ≡ c
    → r ≡ record { removed_labels = a; remaining_labels = b; policy_digest = c }
reply-eq r a b c e e₁ e₂ = ground (arith, e, e₁, e₂)

abbrev stays : List String → NativeSession → List String
stays labels x = sorted_set (difference x.taint_labels labels)

abbrev goes : List String → NativeSession → List String
goes labels x = sorted_set (intersection x.taint_labels labels)

module _ (machine : Machine) (session_id rule_id purpose : String) where
  abbrev evidence_row : ℕ → List String → String → Declassification
  evidence_row n labels policy_digest = record {
    id = "declassification_" <> machine.uuid_hex n;
    session_id = session_id;
    rule_id = rule_id;
    purpose_digest = "sha256:" <> machine.sha256_hex purpose;
    removed_labels = labels;
    policy_digest = policy_digest;
  }

  abbrev declassified : DeclassificationRule → String → ℕ → NativeSession → Db → Db
  declassified rule policy_digest n x db =
      record (write_labels session_id (stays rule.remove_labels x) db) {
        declassifications =
            db.declassifications ++ evidence_row n (goes rule.remove_labels x) policy_digest ∷ [];
      }

  remove_labels-eq :
      (rule : DeclassificationRule) (policy_digest : String) (s : State) (r : Declassified)
      → (remove_labels machine session_id rule_id purpose rule policy_digest s).0 ≡ ok r
      → (x : NativeSession) × (find_session session_id s.db ≡ ok x)
        × (r.removed_labels ≡ goes rule.remove_labels x)
        × (r.remaining_labels ≡ stays rule.remove_labels x)
        × (r.policy_digest ≡ policy_digest)
        × ((remove_labels machine session_id rule_id purpose rule policy_digest s).1.db
            ≡ declassified rule policy_digest s.drawn x s.db)
  unfolding remove_labels session_scope add write_labels
  remove_labels-eq rule policy_digest s r h = elim (Result-cases (find_session session_id s.db)) [
    | inr (e, n, missing) ↦ absurd (ground arith)
    | inl (x, found) ↦ (x, found, ground arith, ground arith, ground arith, ground arith)
  ]

  removed-IsDeclassified :
      (rule : DeclassificationRule) (policy_digest : String) (n : ℕ) (x : NativeSession) (db : Db)
      → find_session session_id db ≡ ok x
      → IsDeclassified session_id rule
          (record {
            removed_labels = goes rule.remove_labels x;
            remaining_labels = stays rule.remove_labels x;
            policy_digest = policy_digest;
          })
          db
          (declassified rule policy_digest n x db)
  unfolding write_labels has_label
  removed-IsDeclassified rule policy_digest n x db found = record {
    remaining = λ l. has_label-write_labels session_id l (stays rule.remove_labels x) db x found;
    kept = λ other l. elim (Bool-cases (other == session_id)) [
      | inl same ↦ ground (
        arith,
        has_label-write_labels session_id l (stays rule.remove_labels x) db x found,
        has_label-find_session session_id l db x found,
        contains-sorted_set l (difference x.taint_labels rule.remove_labels),
        contains-difference l x.taint_labels rule.remove_labels,
      )
      | inr differ ↦ ground (
        arith,
        has_label-write_labels-ne session_id other l (stays rule.remove_labels x) db differ,
      )
    ];
    removed = λ l. ground (
      arith,
      has_label-find_session session_id l db x found,
      contains-sorted_set l (intersection x.taint_labels rule.remove_labels),
      contains-intersection l x.taint_labels rule.remove_labels,
    );
    row = evidence_row n (goes rule.remove_labels x) policy_digest;
    evidence = refl;
    of_session = refl;
    of_labels = refl;
    of_policy = refl;
  }

  remove_labels-IsDeclassified :
      (rule : DeclassificationRule) (policy_digest : String) (s : State) (r : Declassified)
      → (remove_labels machine session_id rule_id purpose rule policy_digest s).0 ≡ ok r
      → IsDeclassified session_id rule r s.db
          (remove_labels machine session_id rule_id purpose rule policy_digest s).1.db
  remove_labels-IsDeclassified rule policy_digest s r h =
      let (x, found, e, e₁, e₂, e₃) = remove_labels-eq rule policy_digest s r h in
      rw (e₃, reply-eq r _ _ _ e e₁ e₂)
        (removed-IsDeclassified rule policy_digest s.drawn x s.db found)

  -- The rule that a declassification was authorized by.
  pub record IsAuthorized (parse : String → Option Document) (db : Db) (rule : DeclassificationRule)
      : Type 0 where
    pub document : Document
    pub policy_digest : String
    pub is_active : active_rows parse db ≡ ok (document, policy_digest)
    pub of_rule : find? (λ r. r.id == rule_id) document.declassification_rules ≡ some rule
    pub of_purpose : rule.purpose ≡ purpose

  declassify-eq :
      (parse : String → Option Document) (s : State) (r : Declassified)
      → (declassify machine parse session_id rule_id purpose s).0 ≡ ok r
      → (rule : DeclassificationRule) × (a : IsAuthorized parse s.db rule) × (declassify machine
            parse session_id rule_id purpose s
          ≡ remove_labels machine session_id rule_id purpose rule a.policy_digest s)
  unfolding declassify
  declassify-eq parse s r h =
      let same = active_document-eq parse s in
      elim (Result-cases (active_rows parse s.db)) [
        | inr (e, n, e₁) ↦ absurd (ground arith)
        | inl ((document, policy_digest), e) ↦
            elim (Option-cases
              (find? (λ rule. rule.id == rule_id) document.declassification_rules)) [
                | inl e₁ ↦ absurd (ground arith)
                | inr (rule, e₁) ↦ (
                  rule,
                  record {
                    document = document;
                    policy_digest = policy_digest;
                    is_active = e;
                    of_rule = e₁;
                    of_purpose = ground arith;
                  },
                  ground arith,
                )
              ]
      ]

  -- A declassification that succeeds was authorized by the first rule of that identifier in the active
  -- document, whose purpose is the one given; it takes exactly the labels of the rule from this session
  -- and from no other, answers what it took and what stays, and leaves one row of evidence.
  pub declassify-IsDeclassified :
      (parse : String → Option Document) (s : State) (r : Declassified)
      → (declassify machine parse session_id rule_id purpose s).0 ≡ ok r
      → (rule : DeclassificationRule) × IsAuthorized parse s.db rule
        × IsDeclassified session_id rule r s.db
            (declassify machine parse session_id rule_id purpose s).1.db
  declassify-IsDeclassified parse s r h =
      let (rule, a, same) = declassify-eq parse s r h in
      (rule, a, rw same (remove_labels-IsDeclassified rule a.policy_digest s r (rw same at h)))

  remove_labels-failed :
      (rule : DeclassificationRule) (policy_digest : String) (s : State) (code : String) (n : ℕ)
      → (remove_labels machine session_id rule_id purpose rule policy_digest s).0 ≡ err code n
      → (remove_labels machine session_id rule_id purpose rule policy_digest s).1.db ≡ s.db
  unfolding remove_labels session_scope
  remove_labels-failed rule policy_digest s code n h = ground arith

  -- A declassification that raises changes nothing.
  pub declassify-failed :
      (parse : String → Option Document) (s : State) (code : String) (n : ℕ)
      → (declassify machine parse session_id rule_id purpose s).0 ≡ err code n
      → (declassify machine parse session_id rule_id purpose s).1.db ≡ s.db
  unfolding declassify
  declassify-failed parse s code n h = elim (Result-cases (active_rows parse s.db)) [
    | inr (e, m, e₁) ↦ ground (arith, active_document-eq parse s)
    | inl ((document, policy_digest), e) ↦
        elim (Option-cases (find? (λ rule. rule.id == rule_id) document.declassification_rules)) [
          | inl e₁ ↦ ground (arith, active_document-eq parse s)
          | inr (rule, e₁) ↦
              ground (
                arith,
                active_document-eq parse s,
                remove_labels-failed rule policy_digest s code n,
              )
        ]
  ]
