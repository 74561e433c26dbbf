-- ===== src/Security/Policies/Publication/Staged.antt =====
-- What the first transaction of `publish` finds or stages.
use agent_factor.Base.{
  ℕ, String, Bool, true, false, ◌&&◌, ◌≡◌, refl, arith, some, List, inl, inr, ◌∙◌,
}
use agent_factor.Base.{◌==◌, string_eq, option_eq, find?, Option-cases, Bool-cases}
use agent_factor.Base.{ok, and_then-eq-ok}
use agent_factor.Json.{Json}
use agent_factor.Store.{get, add, get-key}
use agent_factor.Security.Model.{Db, Machine, SecurityPolicy, PolicyRevision, PolicyBundle}
use agent_factor.Security.Access.{Identity}
use agent_factor.Security.Policies.{canonical, digest}
use agent_factor.Security.Policies.Publication.{
  Staging, current, staged, bundle_published, stage_document, stage_revision, bundle_row, stage,
  gateway_document,
}

-- What the first transaction has staged.
abbrev pub IsStaged : Db → String → String → PolicyBundle → Db → Type 0
IsStaged db policy_id revision_id row db' =
    (bundles : List PolicyBundle) × (policy : SecurityPolicy) × (revision : PolicyRevision) × (get
        (λ p. p.id) policy_id db.policies
      ≡ some policy)
    × (get (λ r. r.id) revision_id db.revisions ≡ some revision)
    × (row.revision_id ≡ revision_id)
    × (bundle_published row ≡ false)
    × (add (λ b. b.id) row db.bundles ≡ ok bundles)
    × (db' ≡ record db { bundles = bundles })

abbrev pub is_of : String → PolicyBundle → Bool
is_of revision_id b = b.revision_id == revision_id

-- What the first transaction finds, in either case.
abbrev pub StageResult : Db → String → String → Staging → Db → Type 0
StageResult db policy_id revision_id (current b) db' =
    (find? (λ x. is_of revision_id x && bundle_published x) db.bundles ≡ some b) × (db' ≡ db)
StageResult db policy_id revision_id (staged _ row) db' = IsStaged db policy_id revision_id row db'

pub eq_of_test : (a b : String) → (a == b) ≡ true → a ≡ b
eq_of_test a b h = ground arith

pub and_parts : (a b : Bool) → (a && b) ≡ true → (a ≡ true) × (b ≡ true)
and_parts a b h = ground arith

module _ (machine : Machine) (identity : Identity) (hmac_sha256 : String → String → String)
    (replaces : String → Bool) (now n : ℕ) where
  -- A bundle of the document is staged.
  stage_document-staged :
      (id : String) (document : Json) (db db' : Db) (x : Staging)
      → stage_document machine identity hmac_sha256 replaces now n id document db ≡ ok (x, db')
      → (doc : Json) × (row : PolicyBundle) × (bundles : List PolicyBundle) × (x ≡ staged doc row)
        × (db' ≡ record db { bundles = bundles })
        × (row.revision_id ≡ id)
        × (bundle_published row ≡ false)
        × (add (λ b. b.id) row db.bundles ≡ ok bundles)
  unfolding stage_document bundle_row
  stage_document-staged id document db db' x h =
      let (doc, _, h1) = and_then-eq-ok (gateway_document document) _ h in
      let (bundle_digest, _, h2) = and_then-eq-ok (digest machine _) _ h1 in
      let (config, _, h3) = and_then-eq-ok (canonical machine doc) _ h2 in
      let row : PolicyBundle =
        bundle_row machine identity hmac_sha256 replaces now n id bundle_digest config in
      let (bundles, e, h4) = and_then-eq-ok (add (λ b. b.id) row db.bundles) _ h3 in
      (doc, row, bundles, ground (arith, h4), ground (arith, h4), refl, refl, e)

  module _ (policy_id revision_id : String) (db db' : Db) (x : Staging) (policy : SecurityPolicy)
      (revision : PolicyRevision)
      (policy_found : get (λ p. p.id) policy_id db.policies ≡ some policy)
      (revision_found : get (λ r. r.id) revision_id db.revisions ≡ some revision) where
    stage_revision-StageResult :
        stage_revision machine identity hmac_sha256 replaces now n revision db ≡ ok (x, db')
        → StageResult db policy_id revision_id x db'
    unfolding stage_revision
    stage_revision-StageResult h = elim (Option-cases (machine.loads revision.document)) [
      | inl e ↦ absurd (ground (arith, e))
      | inr (document, e) ↦
          let (doc, row, bundles, ex, rows, names, fresh, added) =
            stage_document-staged revision.id document db db' x (ground (arith, e, h)) in
          let same : revision.id ≡ revision_id =
            eq_of_test revision.id revision_id
              (get-key (λ r. r.id) revision_id db.revisions revision revision_found) in
          rw ex (
            bundles,
            policy,
            revision,
            policy_found,
            revision_found,
            names ∙ same,
            fresh,
            added,
            rows,
          )
    ]

    stage_found :
        stage machine identity hmac_sha256 replaces now n policy_id revision_id db ≡ ok (x, db')
        → StageResult db policy_id revision_id x db'
    unfolding stage
    stage_found h =
        elim (Option-cases (find? (λ b. is_of revision_id b && bundle_published b) db.bundles)) [
          | inl e ↦ stage_revision-StageResult (ground (arith, e, policy_found, revision_found, h))
          | inr (existing, e) ↦ elim (Bool-cases (policy.active_revision_id == some revision_id)) [
            | inl same ↦
                let ex : x ≡ current existing =
                  ground (arith, e, policy_found, revision_found, same, h) in
                rw ex (e, ground (arith, e, policy_found, revision_found, same, h))
            | inr other ↦
                stage_revision-StageResult
                  (ground (arith, e, policy_found, revision_found, other, h))
          ]
        ]

  -- The outcomes of the first transaction that succeed.
  pub stage-StageResult :
      (policy_id revision_id : String) (db db' : Db) (x : Staging)
      → stage machine identity hmac_sha256 replaces now n policy_id revision_id db ≡ ok (x, db')
      → StageResult db policy_id revision_id x db'
  unfolding stage
  stage-StageResult policy_id revision_id db db' x h =
      elim (Option-cases (get (λ p. p.id) policy_id db.policies)) [
        | inl e ↦ absurd (ground (arith, e))
        | inr (policy, e) ↦ elim (Option-cases (get (λ r. r.id) revision_id db.revisions)) [
          | inl f ↦ absurd (ground (arith, e, f))
          | inr (revision, f) ↦ stage_found policy_id revision_id db db' x policy revision e f h
        ]
      ]
