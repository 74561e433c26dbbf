-- ===== src/Security/Policies/Rollouts/Cohorts.antt =====
-- Which endpoints a rollout takes.
use agent_factor.Base.{
  ℕ, ◌+◌, ◌≤◌, ◌<◌, String, Bool, ◌&&◌, ◌≡◌, refl, arith, none, some, List, [], ◌∷◌, inl, inr, ◌∙◌,
  ◌≢◌, suc, ◌<>◌, true, ◌++◌,
}
use agent_factor.Base.{
  ◌==◌, string_eq, nat_eq, find?, ltb, any, sort_by, any-sort_by, Option-cases, length,
}
use agent_factor.Base.{ok, all, ==-refl, and_then-eq-ok}
use agent_factor.Store.{get, has_key, add, add-eq-ok}
use agent_factor.Security.Model.{
  Db, State, Machine, PolicyBundle, PolicyRevision, PolicyRollout, RolloutTarget, Endpoint,
}
use agent_factor.Security.Model.Keeps.{session_scope-eq-ok}
use agent_factor.Security.Policies.Publication.{bundle_published}
use agent_factor.Security.Policies.Rollouts.Targets.{ArePending, add_targets-ArePending}
use agent_factor.Security.Policies.Rollouts.{
  RolloutPlan, cohort, select, add_targets, plan_rollout, rollout_rows, create_rollout,
}

-- The plan takes the endpoint.
abbrev pub takes : RolloutPlan → String → Bool
takes plan endpoint_id = any (λ (t : String × ℕ). t.0 == endpoint_id) plan.targets

-- The bundle that a rollout of the revision is of.
abbrev pub IsRolledOut : String → String → Db → PolicyBundle → Type 0
IsRolledOut policy_id revision_id db bundle =
    ((revision : PolicyRevision) × (get (λ r. r.id) revision_id db.revisions ≡ some revision)
      × ((revision.policy_id == policy_id) ≡ true))
    × (find? (λ b. b.revision_id == revision_id && bundle_published b) db.bundles ≡ some bundle)
    × (bundle.signature ≢ none)

-- What a rollout answers and stores: the planned rollout of the bundle, and a pending row for each of
-- its targets, which are the endpoints whose cohort is below the percentage.
pub record Takes (machine : Machine) (bundle : PolicyBundle) (percentage : ℕ) (actor_id : String)
    (db : Db) (plan : RolloutPlan) (db' : Db) : Type 0 where
  pub of_bundle : plan.rollout.bundle_id ≡ bundle.id
  pub share : plan.rollout.percentage ≡ percentage
  pub planned : plan.rollout.status ≡ "planned"
  pub author : plan.rollout.created_by ≡ actor_id
  pub selection :
      (endpoint_id : String)
      → takes plan endpoint_id ≡ (
          has_key (λ e. e.id) endpoint_id db.endpoints
          && ltb (cohort machine bundle.bundle_digest endpoint_id) percentage)
  pub cohorts :
      all (λ (t : String × ℕ). t.1 == cohort machine bundle.bundle_digest t.0) plan.targets ≡ true
  pub stored : db'.rollouts ≡ db.rollouts ++ plan.rollout ∷ []
  pub new : List RolloutTarget
  pub rows : db'.rollout_targets ≡ db.rollout_targets ++ new
  pub pending : ArePending plan.rollout.id plan.targets new
  pub only : db' ≡ record db { rollouts = db'.rollouts; rollout_targets = db'.rollout_targets }

module _ (machine : Machine) where
  pub cohort-lt :
      (bundle_digest endpoint_id : String) → cohort machine bundle_digest endpoint_id < 100
  unfolding cohort
  cohort-lt bundle_digest endpoint_id = omega arith

  any-select :
      (bundle_digest : String) (percentage : ℕ) (endpoint_id : String) (es : List Endpoint)
      → any (λ (t : String × ℕ). t.0 == endpoint_id) (select machine bundle_digest percentage es)
        ≡ (any (λ e. e.id == endpoint_id) es
            && ltb (cohort machine bundle_digest endpoint_id) percentage)
  unfolding select any
  any-select bundle_digest percentage endpoint_id [] = refl
  any-select bundle_digest percentage endpoint_id (e ∷ es) =
      ground (arith, any-select bundle_digest percentage endpoint_id es)

  select-cohorts :
      (bundle_digest : String) (percentage : ℕ) (es : List Endpoint)
      → all
          (λ (t : String × ℕ). t.1 == cohort machine bundle_digest t.0)
          (select machine bundle_digest percentage es)
        ≡ true
  unfolding select all
  select-cohorts bundle_digest percentage [] = refl
  select-cohorts bundle_digest percentage (e ∷ es) = ground (
    arith,
    select-cohorts bundle_digest percentage es,
    ==-refl {A = ℕ} (cohort machine bundle_digest e.id),
  )

  plan_rollout-Takes :
      (n percentage : ℕ) (actor_id : String) (bundle : PolicyBundle) (db db' : Db)
      (plan : RolloutPlan)
      → plan_rollout machine n percentage actor_id bundle db ≡ ok (plan, db')
      → (bundle.signature ≢ none) × Takes machine bundle percentage actor_id db plan db'
  unfolding plan_rollout has_key
  plan_rollout-Takes n percentage actor_id bundle db db' plan h =
      elim (Option-cases bundle.signature) [
        | inl e ↦ absurd (ground (arith, e, h))
        | inr (text, e) ↦
            let rollout : PolicyRollout = record {
              id = "policy_rollout_" <> machine.uuid_hex n;
              bundle_id = bundle.id;
              percentage = percentage;
              status = "planned";
              created_by = actor_id;
            } in
            let endpoints = sort_by (λ e. e.id) db.endpoints in
            let (rollouts, added, h₁) =
              and_then-eq-ok (add (λ r. r.id) rollout db.rollouts) _ (rw e at h) in
            let (targets, filled, h₂) =
              and_then-eq-ok
                (add_targets machine (suc n) rollout.id
                  (select machine bundle.bundle_digest percentage endpoints) db.rollout_targets)
                _ h₁ in
            let (new, kept, are) =
              add_targets-ArePending machine (suc n) rollout.id _ db.rollout_targets targets
                filled in
            let planned : plan ≡ record {
              rollout = rollout;
              targets = select machine bundle.bundle_digest percentage endpoints;
            } =
              ground (arith, h₂) in
            let kept_db : db' ≡ record db { rollouts = rollouts; rollout_targets = targets } =
              ground (arith, h₂) in
            (
              λ f. ground (arith, e, f),
              rw (planned, kept_db)
                  record {
                    of_bundle = refl;
                    share = refl;
                    planned = refl;
                    author = refl;
                    selection = λ endpoint_id.
                        any-select bundle.bundle_digest percentage endpoint_id endpoints
                        ∙ rw
                            (any-sort_by (λ (e : Endpoint). e.id) (λ e. e.id == endpoint_id)
                              db.endpoints)
                            refl;
                    cohorts = select-cohorts bundle.bundle_digest percentage endpoints;
                    stored = (add-eq-ok (λ r. r.id) rollout db.rollouts rollouts added).1;
                    new = new;
                    rows = kept;
                    pending = are;
                    only = refl;
                  },
            )
      ]

  module _ (policy_id revision_id : String) (percentage : ℕ) (actor_id : String) where
    rollout_rows-Takes :
        (n : ℕ) (db db' : Db) (plan : RolloutPlan)
        → rollout_rows machine n policy_id revision_id percentage actor_id db ≡ ok (plan, db')
        → (bundle : PolicyBundle) × IsRolledOut policy_id revision_id db bundle
          × Takes machine bundle percentage actor_id db plan db'
    unfolding rollout_rows
    rollout_rows-Takes n db db' plan h =
        elim (Option-cases (get (λ r. r.id) revision_id db.revisions)) [
          | inl e ↦ absurd (ground (arith, e))
          | inr (revision, e) ↦
              elim (Option-cases
                (find? (λ b. b.revision_id == revision_id && bundle_published b) db.bundles)) [
                  | inl f ↦ absurd (ground (arith, e, f))
                  | inr (bundle, f) ↦
                      let (signed, taken) =
                        plan_rollout-Takes n percentage actor_id bundle db db' plan
                          (ground (arith, e, f, h)) in
                      (bundle, ((revision, e, ground (arith, e, f, h)), f, signed), taken)
                ]
        ]

    -- A rollout that succeeds is of a published and signed bundle of a revision of the policy. It is
    -- stored as planned, for that bundle and percentage, and takes exactly the endpoints whose cohort
    -- is below the percentage, each with its cohort and a pending row of the rollout; at 100 it takes
    -- every endpoint. No other row is added and no other table changes.
    pub create_rollout-Takes :
        (s s' : State) (plan : RolloutPlan)
        → create_rollout machine policy_id revision_id percentage actor_id s ≡ (ok plan, s')
        → (bundle : PolicyBundle) × IsRolledOut policy_id revision_id s.db bundle
          × Takes machine bundle percentage actor_id s.db plan s'.db
          × (100 ≤ percentage
              → (endpoint_id : String)
              → takes plan endpoint_id ≡ has_key (λ e. e.id) endpoint_id s.db.endpoints)
    unfolding create_rollout
    create_rollout-Takes s s' plan h =
        let (bundle, rolled, taken) = rollout_rows-Takes s.drawn s.db s'.db plan (
          session_scope-eq-ok _ (record s { drawn = s.drawn + (1 + length s.db.endpoints) }) s' plan
            h) in
        (
          bundle,
          rolled,
          taken,
          λ all endpoint_id.
              ground
                (arith, taken.selection endpoint_id, cohort-lt bundle.bundle_digest endpoint_id),
        )
