-- ===== src/Security/Sync/Proofs/Effective.antt =====
-- When an integration counts as verified.
use agent_factor.Base.{
  ℕ, Bool, true, false, not, ◌&&◌, ◌||◌, ◌≡◌, refl, arith, List, [], ◌∷◌, ◌↔◌, inl, inr,
}
use agent_factor.Base.{all, any, filter, ltb, leb, Bool-cases}
use agent_factor.Security.Model.{Integration, Assurance, CapabilityProof}
use agent_factor.Security.Sync.Proofs.{
  is_pass, is_fail, is_required, required_assurance, effective_assurance,
}

-- A proof that has passed and has not expired.
abbrev pub is_valid : ℕ → CapabilityProof → Bool
is_valid now p = is_pass p.status && ltb now p.expires_at

-- Every proof that is required is valid.
abbrev pub all_valid : ℕ → List CapabilityProof → Bool
all_valid now proofs = all (λ p. not p.required || is_valid now p) proofs

module _ (now : ℕ) where
  all-filter_required :
      (proofs : List CapabilityProof)
      → all (is_valid now) (filter is_required proofs) ≡ all_valid now proofs
  unfolding all filter
  all-filter_required [] = refl
  all-filter_required (p ∷ ps) = ground (arith, all-filter_required ps)

  any-filter_required :
      (proofs : List CapabilityProof)
      → filter is_required proofs ≡ []
      → any is_required proofs ≡ false
  unfolding any filter
  any-filter_required [] h = refl
  any-filter_required (p ∷ ps) h = ground (arith, any-filter_required ps)

  any-filter_some :
      (proofs ps : List CapabilityProof) (p : CapabilityProof)
      → filter is_required proofs ≡ p ∷ ps
      → any is_required proofs ≡ true
  unfolding any filter
  any-filter_some [] ps p h = ground arith
  any-filter_some (q ∷ qs) ps p h = elim (Bool-cases q.required) [
    | inl yes_required ↦ ground (arith, yes_required)
    | inr not_required ↦
        ground (arith, not_required, h, any-filter_some qs ps p (ground (arith, not_required, h)))
  ]

  all_valid-parts :
      (ps : List CapabilityProof)
      → all (is_valid now) ps
        ≡ (all (λ q. is_pass q.status) ps && not (any (λ q. leb q.expires_at now) ps))
  unfolding all any
  all_valid-parts [] = refl
  all_valid-parts (p ∷ ps) = ground (arith, all_valid-parts ps)

  passed-any_fail :
      (ps : List CapabilityProof)
      → all (λ q. is_pass q.status) ps ≡ true
      → any (λ q. is_fail q.status) ps ≡ false
  unfolding all any
  passed-any_fail [] h = refl
  passed-any_fail (p ∷ ps) h = ground (arith, passed-any_fail ps)

  all_nil : all (is_valid now) [] ≡ true
  unfolding all
  all_nil = refl

  module _ (i : Integration) where
    required-verified :
        (ps : List CapabilityProof)
        → (required_assurance now i ps ≡ Assurance.verified) ↔ (all (is_valid now) ps ≡ true)
    unfolding required_assurance
    required-verified ps = (
      λ h. ground (arith, h, all_valid-parts ps),
      λ h. ground (arith, h, all_valid-parts ps, passed-any_fail ps),
    )

    -- The integration counts as verified by these proofs.
    abbrev pub CountsVerified : List CapabilityProof → Type 0
    CountsVerified proofs =
        (all_valid now proofs ≡ true)
        × (any is_required proofs ≡ false → i.assurance ≡ Assurance.verified)

    effective_of :
        (proofs required : List CapabilityProof)
        → filter is_required proofs ≡ required
        → (effective_assurance now i proofs ≡ Assurance.verified) ↔ CountsVerified proofs
    unfolding effective_assurance
    effective_of proofs [] h = (
      λ v. (ground (arith, h, all-filter_required proofs, all_nil), λ _. ground (arith, h, v)),
      λ (valid, stored). ground (arith, h, stored (any-filter_required proofs h)),
    )
    effective_of proofs (p ∷ ps) h = (
      λ v. (
        ground (arith, h, v, all-filter_required proofs, (required-verified (p ∷ ps)).0),
        λ none_required. absurd (ground (arith, none_required, any-filter_some proofs ps p h)),
      ),
      λ (valid, stored).
          ground (arith, h, valid, all-filter_required proofs, (required-verified (p ∷ ps)).1),
    )

    -- An integration counts as verified exactly when every proof that is required has passed and has
    -- not expired, and, where none is required, the stored assurance says so.
    pub effective_assurance-CountsVerified :
        (proofs : List CapabilityProof)
        → (effective_assurance now i proofs ≡ Assurance.verified) ↔ CountsVerified proofs
    effective_assurance-CountsVerified proofs = effective_of proofs (filter is_required proofs) refl
