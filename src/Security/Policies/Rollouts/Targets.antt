-- ===== src/Security/Policies/Rollouts/Targets.antt =====
-- The rows that `create_rollout` stores for the endpoints it takes.
use mathlib.Core.List.{append-nil, append_assoc}
use agent_factor.Base.{
  ℕ, suc, String, ◌<>◌, Bool, true, ◌&&◌, ◌≡◌, refl, arith, List, [], ◌∷◌, ◌++◌, map, ◌∙◌, ap, inl,
  inr,
}
use agent_factor.Base.{◌==◌, ==-refl, string_eq, any, all, Bool-cases}
use agent_factor.Base.{ok, and_then-eq-ok}
use agent_factor.Store.{add-eq-ok}
use agent_factor.Security.Model.{Machine, RolloutTarget}
use agent_factor.Security.Policies.Rollouts.{add_target, add_targets}

-- The endpoint and the cohort of a row.
abbrev pub place : RolloutTarget → String × ℕ
place t = (t.endpoint_id, t.cohort)

abbrev pub is_pending : String → RolloutTarget → Bool
is_pending rollout_id t = t.rollout_id == rollout_id && t.status == "pending"

-- The rows `new` stand for the targets of the rollout, in their order, and are pending.
pub record ArePending (rollout_id : String) (targets : List (String × ℕ)) (new : List RolloutTarget)
    : Type 0 where
  pub places : map place new ≡ targets
  pub pending : all (is_pending rollout_id) new ≡ true

add_target-eq-ok :
    (row : RolloutTarget) (rows rows' : List RolloutTarget)
    → add_target row rows ≡ ok rows'
    → rows' ≡ rows ++ row ∷ []
unfolding add_target
add_target-eq-ok row rows rows' h =
    elim (Bool-cases
      (any (λ t. t.rollout_id == row.rollout_id && t.endpoint_id == row.endpoint_id) rows)) [
        | inl known ↦ absurd (ground (arith, known, h))
        | inr new ↦ (add-eq-ok (λ t. t.id) row rows rows' (rw new at h)).1
      ]

module _ (machine : Machine) where
  open machine use {uuid_hex}

  -- What is stored is what was stored, and a pending row for each target.
  pub add_targets-ArePending :
      (n : ℕ) (rollout_id : String) (targets : List (String × ℕ)) (rows rows' : List RolloutTarget)
      → add_targets machine n rollout_id targets rows ≡ ok rows'
      → (new : List RolloutTarget) × (rows' ≡ rows ++ new) × ArePending rollout_id targets new
  unfolding add_targets all
  add_targets-ArePending n rollout_id [] rows rows' h =
      ([], ground (arith, h, append-nil rows), record { places = refl; pending = refl })
  add_targets-ArePending n rollout_id ((endpoint_id, c) ∷ targets) rows rows' h =
      let row : RolloutTarget = record {
        id = "policy_rollout_target_" <> uuid_hex n;
        rollout_id = rollout_id;
        endpoint_id = endpoint_id;
        cohort = c;
        status = "pending";
      } in
      let (rows₁, added, rest) = and_then-eq-ok (add_target row rows) _ h in
      let (new, stored, are) = add_targets-ArePending (suc n) rollout_id targets rows₁ rows' rest in
      (
        row ∷ new,
        stored
            ∙ ap (λ l. l ++ new) (add_target-eq-ok row rows rows₁ added)
            ∙ append_assoc rows (row ∷ []) new,
        record {
          places = ap (λ l. (endpoint_id, c) ∷ l) are.places;
          pending =
              ground (
                arith,
                are.pending,
                ==-refl {A = String} rollout_id,
                ==-refl {A = String} "pending",
              );
        },
      )
