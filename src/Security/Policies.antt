-- ===== src/Security/Policies.antt =====
-- security/policy.py: policies, their revisions, the publication of a revision as a bundle, and
-- rollouts.
pub mod Revisions
pub mod Publication
pub mod Rollouts
pub mod Gateway
use agent_factor.Base.{String, ◌<>◌, Option, none, some, Result, ok, err, and_then}
use agent_factor.Json.{Json}
use agent_factor.Security.Model.{Machine}

module _ (machine : Machine) where
  open machine use {sha256_hex, dumps}

  -- `_canonical`
  unfoldable pub canonical : Json → Result String
  canonical value = elim (dumps value) [ none ↦ err "policy_document_invalid" 400 | some t ↦ ok t ]

  -- `_digest`
  unfoldable pub digest : Json → Result String
  unfolding canonical
  digest value = and_then (canonical value) (λ text. ok ("sha256:" <> sha256_hex text))

abbrev pub compiler_version : String
compiler_version = "agentfactor.policy-compiler/v1alpha1"
