-- ===== src/Security/Gateway/Decisions/RoundTrip.antt =====
-- A grant that `evaluate` issues is accepted by `consume`, for the same action and within a minute.
use agent_factor.Base.{ℕ, ◌<◌, ◌+◌, String, ◌<>◌, true, false, ◌||◌, ◌≡◌, refl, arith, some}
use agent_factor.Base.{List, [], ◌∷◌, ◌++◌, ◌==◌, string_eq, option_eq, nat_eq, ltb, ◌∙◌}
use agent_factor.Base.{inl, inr, ok, Result-cases, str_length, find?, any}
use agent_factor.Json.{str}
use agent_factor.Store.{has_key}
use agent_factor.Security.Model.{State, Machine, ExecutionGrant, seconds}
use agent_factor.Security.Gateway.Ids.{digest}
use agent_factor.Security.Gateway.Config.{GatewayConfig}
use agent_factor.Security.Gateway.Loading.{load_config}
use agent_factor.Security.Gateway.Action.{SecurityAction, normalize_action}
use agent_factor.Security.Gateway.Policy.{Match, match_policy}
use agent_factor.Security.Gateway.Decisions.{
  Grant, Decision, is_block, is_usable, consume, evaluate, record_decision, grant_row,
}
use agent_factor.Security.Gateway.Decisions.Grants.{IsUsable-is_usable}
use agent_factor.Security.Gateway.Decisions.Spent.{IsSound}
use agent_factor.Security.Gateway.Decisions.Runs.{here, next, decides}
use agent_factor.Security.Gateway.Decisions.Consumption.{binding-eq-ok, consume-of_usable}
use agent_factor.Security.Gateway.Decisions.OneUse.{Run-IsSound}
use agent_factor.Security.Gateway.Decisions.Issue.{IsIssue, issue, token_digest}

-- No earlier grant has the token, so the new one is found.
find?-new :
    (t f p : String) (now : ℕ) (grants : List ExecutionGrant) (g : ExecutionGrant)
    → has_key (λ x. x.token_hash) t grants ≡ false
    → is_usable t f p now g ≡ true
    → find? (is_usable t f p now) (grants ++ g ∷ []) ≡ some g
unfolding find? has_key any is_usable
find?-new t f p now [] g fresh h = ground arith
find?-new t f p now (x ∷ grants) g fresh h = ground (arith, find?-new t f p now grants g)

module _ (machine : Machine) (now : ℕ) (a : SecurityAction) (s : State) where
  -- The configuration and the action that `evaluate` decided on.
  pub record IsEvaluation (d : Decision) : Type 0 where
    pub config : GatewayConfig
    pub normalized : SecurityAction
    pub loaded : (load_config machine s).0 ≡ ok config
    pub canonical_action : normalize_action machine a ≡ ok normalized
    pub decided :
        evaluate machine now a s
        ≡ record_decision machine now normalized config (match_policy config normalized) s

  pub evaluation : (d : Decision) → (evaluate machine now a s).0 ≡ ok d → IsEvaluation d
  unfolding evaluate load_config
  evaluation d h = elim (Result-cases (load_config machine s).0) [
    | inl (config, e) ↦ elim (Result-cases (normalize_action machine a)) [
      | inl (n, e') ↦ record {
        config = config;
        normalized = n;
        loaded = e;
        canonical_action = e';
        decided = ground arith;
      }
      | inr (code, k, e') ↦ absurd (ground arith)
    ]
    | inr (code, k, e) ↦ absurd (ground arith)
  ]

load_config-same :
    (machine : Machine) (s t : State)
    → t.config_file ≡ s.config_file
    → (load_config machine t).0 ≡ (load_config machine s).0
unfolding load_config
load_config-same machine s t e = cc

module _ (machine : Machine) (now : ℕ) (n : SecurityAction) (config : GatewayConfig) (m : Match)
    (s : State) (d : Decision) (g : Grant) where
  -- What an issue with a grant says of the grant.
  granted :
      (i : IsIssue machine now n config m s d)
      → d.execution_grant ≡ some g
      → (is_block m.effect ≡ false)
        × (digest machine (str g.token) ≡ ok i.token_hash)
        × (g.grant_id ≡ "grant_" <> machine.uuid_hex (s.drawn + 3))
        × (d.id ≡ "decision_" <> machine.uuid_hex s.drawn)
        × (d.action_fingerprint ≡ i.print)
  unfolding token_digest
  granted i h = ground (arith, i.reply, i.of_token)

  found_grant :
      (i : IsIssue machine now n config m s d) (later : ℕ)
      → is_block m.effect ≡ false
      → later < now + seconds 60
      → find?
          (is_usable i.token_hash i.print config.policy_digest later)
          (record_decision machine now n config m s).1.db.grants
        ≡ some (grant_row machine config now s.drawn i.print i.token_hash)
  found_grant i later passes in_time =
      rw (i.rows.grants, passes)
        (find?-new i.token_hash i.print config.policy_digest later s.db.grants _
          (i.rows.new_token passes)
          (IsUsable-is_usable _ _ _ _ _ (record {
            of_token = refl;
            of_action = refl;
            of_policy = refl;
            fresh = refl;
            in_time = in_time;
          })))

-- The token of a decision that does not block is accepted for the same action during the next 60
-- seconds, provided the token has the length that `consume` admits; the reply names the grant, the
-- decision and the fingerprint that `evaluate` returned.
pub evaluate_then_consume :
    (machine : Machine) (now later : ℕ) (a : SecurityAction) (s : State) (d : Decision) (g : Grant)
    → IsSound s.db.grants
    → (evaluate machine now a s).0 ≡ ok d
    → d.execution_grant ≡ some g
    → (g.token == "" || ltb 256 (str_length g.token)) ≡ false
    → later < now + seconds 60
    → (consume machine later g.token a (evaluate machine now a s).1).0
      ≡ ok (record {
        grant_id = g.grant_id;
        decision_id = d.id;
        action_fingerprint = d.action_fingerprint;
      })
evaluate_then_consume machine now later a s d g sound h e fits in_time =
    let v = evaluation machine now a s d h in
    let m = match_policy v.config v.normalized in
    let i = issue machine now v.normalized v.config m s d (rw v.decided at h) in
    let (passes, hashed, of_grant, of_decision, of_print) =
      granted machine now v.normalized v.config m s d g i e in
    let t = (record_decision machine now v.normalized v.config m s).1 in
    let sound' = Run-IsSound machine sound (next here (decides now v.normalized v.config m)) in
    let accepted =
      consume-of_usable machine later g.token a t _ _ sound'.ids fits
        (binding-eq-ok machine g.token a v.normalized t v.config i.print i.token_hash
          (load_config-same machine s t i.same_file ∙ v.loaded) v.canonical_action i.of_action
          hashed)
        (found_grant machine now v.normalized v.config m s d g i later passes in_time) in
    rw (v.decided, of_grant, of_decision, of_print) accepted
