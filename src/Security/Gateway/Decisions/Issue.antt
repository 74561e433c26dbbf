-- ===== src/Security/Gateway/Decisions/Issue.antt =====
-- What `_record_decision` writes, on every effect and on failure.
use agent_factor.Base.{ℕ, ◌+◌, String, false, ◌≡◌, arith}
use agent_factor.Base.{[], ◌∷◌, ◌++◌, if◌then◌else◌, Result, ok, err, ok_value}
use agent_factor.Json.{str, object}
use agent_factor.Store.{add, has_key}
use agent_factor.Security.Model.{
  Db, State, Machine, ActionDecision, ExecutionGrant, RiskAlert, session_scope,
}
use agent_factor.Security.Gateway.Ids.{digest}
use agent_factor.Security.Gateway.Config.{GatewayConfig}
use agent_factor.Security.Gateway.Action.{SecurityAction, fingerprint}
use agent_factor.Security.Gateway.Policy.{Match}
use agent_factor.Security.Gateway.Decisions.{
  Decision, is_block, is_record, add_grant, decision_rows, decision_row, alert_row, grant_row,
  decision_result, record_decision,
}

-- The rows that a decision appends: itself, an alert unless its effect is `record`, a grant unless
-- its effect is `block`. The rest of the tables is as it was.
pub record HasRows (row : ActionDecision) (alert : RiskAlert) (grant : ExecutionGrant) (db db' : Db)
    : Type 0 where
  pub decisions : db'.decisions ≡ db.decisions ++ row ∷ []
  pub alerts : db'.alerts ≡ (if is_record row.effect then db.alerts else db.alerts ++ alert ∷ [])
  pub grants : db'.grants ≡ (if is_block row.effect then db.grants else db.grants ++ grant ∷ [])
  pub new_token :
      is_block row.effect ≡ false → has_key (λ g. g.token_hash) grant.token_hash db.grants ≡ false
  pub rest : db' ≡ record db { decisions = db'.decisions; alerts = db'.alerts; grants = db'.grants }

decision_rows-HasRows :
    (row : ActionDecision) (alert : RiskAlert) (grant : ExecutionGrant) (db db' : Db) (u : Unit {0})
    → decision_rows row alert grant db ≡ ok (u, db')
    → HasRows row alert grant db db'
unfolding decision_rows add_grant add
decision_rows-HasRows row alert grant db db' u h = record {
  decisions = ground arith;
  alerts = ground arith;
  grants = ground arith;
  new_token = ground arith;
  rest = ground arith;
}

module _ (machine : Machine) (now : ℕ) (a : SecurityAction) (config : GatewayConfig) (m : Match)
    (s : State) where
  unfoldable pub token_digest : Result String
  token_digest =
      if is_block m.effect
      then ok ""
      else digest machine (str (machine.token_urlsafe (s.drawn + 2)))

  -- The digests that the rows of a successful call hold.
  pub record IsIssue (d : Decision) : Type 0 where
    pub print : String
    pub resource_digest : String
    pub params_digest : String
    pub token_hash : String
    pub of_action : fingerprint machine a config.policy_digest ≡ ok print
    pub of_token : token_digest ≡ ok token_hash
    pub reply : d ≡ decision_result machine config m now s.drawn print
    pub rows :
        HasRows
          (decision_row machine a config m s.drawn print resource_digest params_digest)
          (alert_row machine m s.drawn print)
          (grant_row machine config now s.drawn print token_hash)
          s.db
          (record_decision machine now a config m s).1.db
    pub same_file : (record_decision machine now a config m s).1.config_file ≡ s.config_file

  -- A call that raises leaves the tables as they were.
  pub record_decision_atomic :
      (code : String) (n : ℕ)
      → (record_decision machine now a config m s).0 ≡ err code n
      → (record_decision machine now a config m s).1.db ≡ s.db
  unfolding record_decision session_scope
  record_decision_atomic code n h = ground arith

  issue_at :
      (d : Decision) (f r p t : String)
      → fingerprint machine a config.policy_digest ≡ ok f
      → digest machine (str a.action.resource) ≡ ok r
      → digest machine (object a.action.params) ≡ ok p
      → token_digest ≡ ok t
      → (record_decision machine now a config m s).0 ≡ ok d
      → (decision_rows
            (decision_row machine a config m s.drawn f r p)
            (alert_row machine m s.drawn f)
            (grant_row machine config now s.drawn f t)
            s.db
          ≡ ok (tt, (record_decision machine now a config m s).1.db))
        × (d ≡ decision_result machine config m now s.drawn f)
        × ((record_decision machine now a config m s).1.config_file ≡ s.config_file)
  unfolding record_decision session_scope token_digest
  issue_at d f r p t ef er ep et h = ground arith

  -- Where one of the digests fails the call raises.
  digests_ok :
      (d : Decision)
      → (record_decision machine now a config m s).0 ≡ ok d
      → (f r p t : String) × (fingerprint machine a config.policy_digest ≡ ok f)
        × (digest machine (str a.action.resource) ≡ ok r)
        × (digest machine (object a.action.params) ≡ ok p)
        × (token_digest ≡ ok t)
  unfolding record_decision token_digest
  digests_ok d h = (
    ok_value "" (fingerprint machine a config.policy_digest),
    ok_value "" (digest machine (str a.action.resource)),
    ok_value "" (digest machine (object a.action.params)),
    ok_value "" token_digest,
    ground arith,
    ground arith,
    ground arith,
    ground arith,
  )

  pub issue : (d : Decision) → (record_decision machine now a config m s).0 ≡ ok d → IsIssue d
  issue d h =
      let (f, r, p, t, ef, er, ep, et) = digests_ok d h in
      let (rows, reply, same) = issue_at d f r p t ef er ep et h in
      record {
        print = f;
        resource_digest = r;
        params_digest = p;
        token_hash = t;
        of_action = ef;
        of_token = et;
        reply = reply;
        rows = decision_rows-HasRows _ _ _ _ _ tt rows;
        same_file = same;
      }
