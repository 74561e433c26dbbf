-- ===== src/Security/Policies/Rollouts.antt =====
-- `create_rollout` of policy.py: the endpoints of the first cohorts get the bundle.
pub mod Targets
pub mod Cohorts
use agent_factor.Base.{
  ℕ, zero, suc, ◌+◌, ◌*◌, ◌-◌, ◌%◌, String, ◌<>◌, Bool, true, false, not, ◌&&◌, ◌||◌, Option, none,
  some, List, [], ◌∷◌,
}
use agent_factor.Base.{◌==◌, string_eq, nat_eq, if◌then◌else◌, find?, leb, any, sort_by, length}
use agent_factor.Base.{Result, ok, err, Exec, ◌>>=◌, and_then, gets, continue}
use Prim.Native.Char.{code}
use agent_factor.Store.{get, add, integrity_error}
use agent_factor.Security.Model.{
  Db, State, Machine, PolicyRevision, PolicyBundle, PolicyRollout, RolloutTarget, Endpoint,
  session_scope, draw,
}
use agent_factor.Security.Policies.Publication.{bundle_published}

-- `int(text[:k], 16)` of the lower case digits that `hexdigest` writes.
hex_digit : ℕ → ℕ
hex_digit c = if leb c b'9' then c - b'0' else c - b'a' + 10

hex_prefix : ℕ → String → ℕ → ℕ
unfolding hex_digit
hex_prefix zero text acc = acc
hex_prefix (suc k) String.[] acc = acc
hex_prefix (suc k) (String.◌∷◌ c text) acc = hex_prefix k text (acc * 16 + hex_digit (code c))

-- A target row is refused where its rollout has the endpoint.
unfoldable pub add_target : RolloutTarget → List RolloutTarget → Result (List RolloutTarget)
add_target row rows =
    if any (λ t. t.rollout_id == row.rollout_id && t.endpoint_id == row.endpoint_id) rows
    then err integrity_error 500
    else add (λ t. t.id) row rows

-- The dict that is returned: the rollout, and the endpoints with their cohorts.
pub record RolloutPlan : Type 0 where
  pub rollout : PolicyRollout
  pub targets : List (String × ℕ)

module _ (machine : Machine) where
  open machine use {sha256_hex, uuid_hex}

  -- The hash of the bundle and the endpoint, in a hundred parts.
  unfoldable pub cohort : String → String → ℕ
  unfolding hex_prefix
  cohort bundle_digest endpoint_id =
      hex_prefix 8 (sha256_hex (bundle_digest <> ":" <> endpoint_id)) 0 % 100

  -- The loop over the endpoints, whose cohort is below the percentage.
  unfoldable pub select : String → ℕ → List Endpoint → List (String × ℕ)
  select bundle_digest percentage [] = []
  select bundle_digest percentage (e ∷ es) =
      let rest = select bundle_digest percentage es in
      if leb percentage (cohort bundle_digest e.id)
      then rest
      else (e.id, cohort bundle_digest e.id) ∷ rest

  unfoldable pub add_targets :
      ℕ → String → List (String × ℕ) → List RolloutTarget → Result (List RolloutTarget)
  add_targets n rollout_id [] rows = ok rows
  add_targets n rollout_id ((endpoint_id, c) ∷ selected) rows =
      let row : RolloutTarget = record {
        id = "policy_rollout_target_" <> uuid_hex n;
        rollout_id = rollout_id;
        endpoint_id = endpoint_id;
        cohort = c;
        status = "pending";
      } in
      and_then (add_target row rows) (λ rows'. add_targets (suc n) rollout_id selected rows')

  -- The rollout of a published bundle, which has to be signed.
  unfoldable pub plan_rollout : ℕ → ℕ → String → PolicyBundle → Db → Result (RolloutPlan × Db)
  plan_rollout n percentage actor_id bundle db = elim bundle.signature [
    | none ↦ err "signed_policy_bundle_required" 409
    | some _ ↦
        let rollout : PolicyRollout = record {
          id = "policy_rollout_" <> uuid_hex n;
          bundle_id = bundle.id;
          percentage = percentage;
          status = "planned";
          created_by = actor_id;
        } in
        let selected = select bundle.bundle_digest percentage (sort_by (λ e. e.id) db.endpoints) in
        and_then (add (λ r. r.id) rollout db.rollouts) (λ rollouts.
          and_then (add_targets (suc n) rollout.id selected db.rollout_targets) (λ targets. ok (
            record { rollout = rollout; targets = selected },
            record db { rollouts = rollouts; rollout_targets = targets },
          )))
  ]

  unfoldable pub rollout_rows : ℕ → String → String → ℕ → String → Db → Result (RolloutPlan × Db)
  unfolding plan_rollout
  rollout_rows n policy_id revision_id percentage actor_id db =
      elim (get (λ r. r.id) revision_id db.revisions) [
        | none ↦ err "published_policy_bundle_not_found" 404
        | some revision ↦
            if not (revision.policy_id == policy_id)
            then err "published_policy_bundle_not_found" 404
            else elim (find? (λ b. b.revision_id == revision_id && bundle_published b) db.bundles) [
              | none ↦ err "published_policy_bundle_not_found" 404
              | some bundle ↦ plan_rollout n percentage actor_id bundle db
            ]
      ]

  -- `create_rollout`
  unfoldable pub create_rollout : String → String → ℕ → String → Exec State RolloutPlan
  create_rollout policy_id revision_id percentage actor_id = do
    endpoints ← gets (λ s. s.db.endpoints)
    n ← draw (1 + length endpoints)
    session_scope (rollout_rows n policy_id revision_id percentage actor_id)
