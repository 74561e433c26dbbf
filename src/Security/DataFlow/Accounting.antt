-- ===== src/Security/DataFlow/Accounting.antt =====
-- Runs of the data-flow service: no label leaves a session without evidence.
use agent_factor.Base.{String, Bool, true, ◌≡◌, arith, ◌||◌, ◌&&◌, Option, List, [], ◌∷◌}
use agent_factor.Base.{◌==◌, contains, string_eq, any}
use agent_factor.Base.{any-append}
use agent_factor.Base.{Result-cases, inl, inr}
use agent_factor.Security.Model.{Db, State, Machine, Declassification}
use agent_factor.Security.Documents.{Document, DeclassificationRule}
use agent_factor.Security.DataFlow.{taint_session, Declassified, declassify}
use agent_factor.Security.DataFlow.Taint.{
  has_label, IsTainted, taint_session-IsTainted, taint_session-failed,
}
use agent_factor.Security.DataFlow.Declassify.{
  IsDeclassified, declassify-IsDeclassified, declassify-failed,
}

-- A row of the declassifications says that the label was taken from the session.
unfoldable pub has_evidence : String → String → Db → Bool
has_evidence session_id label db =
    any (λ d. d.session_id == session_id && contains d.removed_labels label) db.declassifications

-- What the other operations and services leave alone: the labels and the evidence.
pub record SameLabels (db db' : Db) : Type 0 where
  pub labels :
      (session_id label : String) → has_label session_id label db' ≡ has_label session_id label db
  pub evidence : db'.declassifications ≡ db.declassifications

module _ (machine : Machine) (parse : String → Option Document) where
  -- A call of the service, whatever it answers, or a step of something else.
  pub data Step : State → State → Type 0 where
    taints : {s : State} (id : String) (labels : List String) → Step s (taint_session id labels s).1
    declassifies :
        {s : State} (id rule_id purpose : String)
        → Step s (declassify machine parse id rule_id purpose s).1
    others : {s t : State} → SameLabels s.db t.db → Step s t

  pub data Run : State → State → Type 0 where
    here : {s : State} → Run s s
    next : {s t u : State} → Run s t → Step t u → Run s u

  module _ (session_id label : String) where
    -- The session has the label, or a row says that it was declassified.
    abbrev pub is_accounted : Db → Bool
    is_accounted db = has_label session_id label db || has_evidence session_id label db

    tainted_accounted :
        (id : String) (labels stored : List String) (db db' : Db)
        → IsTainted id labels stored db db'
        → is_accounted db ≡ true
        → is_accounted db' ≡ true
    unfolding has_evidence
    tainted_accounted id labels stored db db' t h =
        ground (arith, t.union session_id label, t.evidence)

    declassified_accounted :
        (id : String) (rule : DeclassificationRule) (r : Declassified) (db db' : Db)
        → IsDeclassified id rule r db db'
        → is_accounted db ≡ true
        → is_accounted db' ≡ true
    unfolding has_evidence any
    declassified_accounted id rule r db db' d h =
        let names = λ (row : Declassification).
          row.session_id == session_id && contains row.removed_labels label in
        ground (
          arith,
          d.kept session_id label,
          d.removed label,
          d.evidence,
          d.of_session,
          d.of_labels,
          any-append names db.declassifications (d.row ∷ []),
        )

    taint_accounted :
        (id : String) (labels : List String) (s : State)
        → is_accounted s.db ≡ true
        → is_accounted (taint_session id labels s).1.db ≡ true
    taint_accounted id labels s h = elim (Result-cases (taint_session id labels s).0) [
      | inl (stored, e) ↦
          tainted_accounted id labels stored s.db _ (taint_session-IsTainted id labels stored s e) h
      | inr (code, n, e) ↦ rw (taint_session-failed id labels s code n e) h
    ]

    declassify_accounted :
        (id rule_id purpose : String) (s : State)
        → is_accounted s.db ≡ true
        → is_accounted (declassify machine parse id rule_id purpose s).1.db ≡ true
    declassify_accounted id rule_id purpose s h =
        elim (Result-cases (declassify machine parse id rule_id purpose s).0) [
          | inl (r, e) ↦
              let (rule, a, d) = declassify-IsDeclassified machine id rule_id purpose parse s r e in
              declassified_accounted id rule r s.db _ d h
          | inr (code, n, e) ↦ rw (declassify-failed machine id rule_id purpose parse s code n e) h
        ]

    Step-accounted : {s t : State} → Step s t → is_accounted s.db ≡ true → is_accounted t.db ≡ true
    unfolding has_evidence
    Step-accounted (taints id labels) h = taint_accounted id labels _ h
    Step-accounted (declassifies id rule_id purpose) h = declassify_accounted id rule_id purpose _ h
    Step-accounted (others same) h = ground (arith, same.labels session_id label, same.evidence)

    -- In every run of taints, declassifications, and steps of others that leave the labels and the
    -- declassifications alone, a label that a session had is still on it, or a declassification row of
    -- that session names it.
    pub Run-accounted :
        {s t : State}
        → has_label session_id label s.db ≡ true
        → Run s t
        → (has_label session_id label t.db || has_evidence session_id label t.db) ≡ true
    Run-accounted h here = ground arith
    Run-accounted h (next run step) = Step-accounted step (Run-accounted h run)
