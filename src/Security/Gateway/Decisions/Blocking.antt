-- ===== src/Security/Gateway/Decisions/Blocking.antt =====
-- A blocked action gets no grant; any other action gets exactly one.
use agent_factor.Base.{ℕ, ◌+◌, ◌<>◌, true, ◌≡◌, ◌≢◌, refl, arith, none, some, ◌⊎◌, inl, inr}
use agent_factor.Base.{[], ◌∷◌, ◌++◌, ok, Bool-cases}
use agent_factor.Json.{str}
use agent_factor.Security.Model.{Effect, block, State, Machine, ExecutionGrant, RiskAlert, seconds}
use agent_factor.Security.Gateway.Ids.{digest}
use agent_factor.Security.Gateway.Action.{SecurityAction}
use agent_factor.Security.Gateway.Policy.{match_policy}
use agent_factor.Security.Gateway.Decisions.{
  Grant, Decision, is_block, alert_row, grant_row, evaluate,
}
use agent_factor.Security.Gateway.Decisions.Issue.{issue, token_digest}
use agent_factor.Security.Gateway.Decisions.RoundTrip.{evaluation}

module _ (machine : Machine) (now : ℕ) (s t : State) (d : Decision) where
  -- No grant: the table is as it was, and one alert of the effect `block` names the decision.
  pub record IsBlocked : Type 0 where
    pub effect : d.effect ≡ block
    pub no_token : d.execution_grant ≡ none
    pub grants : t.db.grants ≡ s.db.grants
    pub alert : RiskAlert
    pub alerts : t.db.alerts ≡ s.db.alerts ++ alert ∷ []
    pub of_decision : alert.decision_id ≡ some d.id
    pub of_effect : alert.effect ≡ block

  -- One new grant, open for 60 seconds, with the hash of the token that the caller gets, bound to
  -- the decision and its fingerprint.
  pub record IsGranted : Type 0 where
    pub effect : d.effect ≢ block
    pub given : Grant
    pub token : d.execution_grant ≡ some given
    pub grant : ExecutionGrant
    pub grants : t.db.grants ≡ s.db.grants ++ grant ∷ []
    pub of_token : digest machine (str given.token) ≡ ok grant.token_hash
    pub of_decision : grant.decision_id ≡ d.id
    pub of_action : grant.action_fingerprint ≡ d.action_fingerprint
    pub of_policy : grant.policy_digest ≡ d.policy_digest
    pub expiry : grant.expires_at ≡ now + seconds 60
    pub fresh : grant.consumed_at ≡ none

is_block-eq : (e : Effect) → is_block e ≡ true → e ≡ block
is_block-eq e h = ground arith

-- A successful `evaluate` either blocks the action, or grants it once.
pub evaluate-blocks_or_grants :
    (machine : Machine) (now : ℕ) (a : SecurityAction) (s : State) (d : Decision)
    → (evaluate machine now a s).0 ≡ ok d
    → IsBlocked machine now s (evaluate machine now a s).1 d
      ⊎ IsGranted machine now s (evaluate machine now a s).1 d
unfolding token_digest
evaluate-blocks_or_grants machine now a s d h =
    let v = evaluation machine now a s d h in
    let m = match_policy v.config v.normalized in
    let i = issue machine now v.normalized v.config m s d (rw v.decided at h) in
    elim (Bool-cases (is_block m.effect)) [
      | inl stops ↦ inl (
          rw v.decided (record {
            effect = ground (arith, i.reply);
            no_token = ground (arith, i.reply);
            grants = ground (arith, i.rows.grants);
            alert = alert_row machine m s.drawn i.print;
            alerts = ground (arith, i.rows.alerts);
            of_decision = ground (arith, i.reply);
            of_effect = ground arith;
          }))
      | inr passes ↦ inr (
          rw v.decided (record {
            effect = ground (arith, i.reply);
            given = record {
              token = machine.token_urlsafe (s.drawn + 2);
              grant_id = "grant_" <> machine.uuid_hex (s.drawn + 3);
              expires_at = now + seconds 60;
            };
            token = ground (arith, i.reply);
            grant = grant_row machine v.config now s.drawn i.print i.token_hash;
            grants = ground (arith, i.rows.grants);
            of_token = ground (arith, i.of_token);
            of_decision = ground (arith, i.reply);
            of_action = ground (arith, i.reply);
            of_policy = ground (arith, i.reply);
            expiry = refl;
            fresh = refl;
          }))
    ]
