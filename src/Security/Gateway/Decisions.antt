-- ===== src/Security/Gateway/Decisions.antt =====
-- `_record_decision`, `evaluate`, `consume` and `record_execution_result` of gateway.py.
pub mod Grants
pub mod Spent
pub mod Runs
pub mod Consumption
pub mod OneUse
pub mod Issue
pub mod RoundTrip
pub mod Blocking
use agent_factor.Base.{ℕ, ◌+◌, ◌<◌, String, ◌<>◌, Bool, true, false, not, ◌&&◌, ◌||◌, max}
use agent_factor.Base.{Option, none, some, List, [], ◌∷◌, ◌++◌, ◌==◌, string_eq, option_eq, nat_eq}
use agent_factor.Base.{if◌then◌else◌, ltb, leb, str_length, find?, update_where, count_if, guard}
use agent_factor.Base.{Result, ok, err, and_then, Exec, pure, raise, lift, continue, ◌>>=◌, ◌>>◌}
use agent_factor.Json.{Json, str, object}
use agent_factor.Store.{add, has_key, integrity_error}
use agent_factor.Security.Model.{
  Effect, record_only, remind, block, ActionDecision, ExecutionGrant, RiskAlert, ExecutionResult,
  Db, State, Machine, seconds, session_scope, draw,
}
use agent_factor.Security.Gateway.Ids.{digest}
use agent_factor.Security.Gateway.Config.{GatewayConfig, effect_name}
use agent_factor.Security.Gateway.Loading.{load_config}
use agent_factor.Security.Gateway.Action.{
  SecurityAction, surface_name, normalize_action, fingerprint,
}
use agent_factor.Security.Gateway.Policy.{Match, match_policy}

-- What the caller learns of a grant: the only place where its token stands in the clear.
pub record Grant : Type 0 where
  pub token : String
  pub grant_id : String
  pub expires_at : ℕ

pub record Decision : Type 0 where
  pub id : String
  pub effect : Effect
  pub reason_code : String
  pub rule_id : Option Json
  pub action_fingerprint : String
  pub policy_digest : String
  pub policy_version : String
  pub execution_grant : Option Grant

pub record Consumed : Type 0 where
  pub grant_id : String
  pub decision_id : String
  pub action_fingerprint : String

abbrev pub is_block : Effect → Bool
is_block block = true
is_block _ = false

abbrev pub is_record : Effect → Bool
is_record record_only = true
is_record _ = false

-- `db.add(SecurityExecutionGrant(…))`: the token's hash is a `unique` column.
unfoldable pub add_grant : ExecutionGrant → List ExecutionGrant → Result (List ExecutionGrant)
add_grant g grants =
    if has_key (λ r. r.token_hash) g.token_hash grants
    then err integrity_error 500
    else add (λ r. r.id) g grants

-- The rows of one decision: the decision, an alert unless it is `record`, a grant unless it is
-- `block`.
unfoldable pub decision_rows :
    ActionDecision → RiskAlert → ExecutionGrant → Db → Result (Unit {0} × Db)
decision_rows row alert grant db = and_then (add (λ r. r.id) row db.decisions) (λ decisions.
    and_then (if is_record row.effect then ok db.alerts else add (λ r. r.id) alert db.alerts)
      (λ alerts.
        and_then (if is_block row.effect then ok db.grants else add_grant grant db.grants)
          (λ grants.
            ok (tt, record db { decisions = decisions; alerts = alerts; grants = grants }))))

-- The filter of the query for a grant that may be consumed
unfoldable pub is_usable : String → String → String → ℕ → ExecutionGrant → Bool
is_usable token_hash print policy_digest now g =
    g.token_hash == token_hash
    && g.action_fingerprint == print
    && g.policy_digest == policy_digest
    && g.consumed_at == none
    && ltb now g.expires_at

-- The `UPDATE … WHERE id = … AND consumed_at IS NULL`, and the count of its rows
abbrev pub is_open : String → ExecutionGrant → Bool
is_open id g = g.id == id && g.consumed_at == none

abbrev pub spend : ℕ → ExecutionGrant → ExecutionGrant
spend now g = record g { consumed_at = some now }

unfoldable pub consume_rows : String → String → String → ℕ → Db → Result (Consumed × Db)
unfolding is_usable
consume_rows token_hash print policy_digest now db =
    elim (find? (is_usable token_hash print policy_digest now) db.grants) [
      | none ↦ err "grant_invalid_expired_or_consumed" 403
      | some g ↦
          if count_if (is_open g.id) db.grants == 1
          then ok (
            record { grant_id = g.id; decision_id = g.decision_id; action_fingerprint = print },
            record db { grants = update_where (is_open g.id) (spend now) db.grants },
          )
          else err "grant_already_consumed" 403
    ]

module _ (machine : Machine) where
  open machine use {uuid_hex, token_urlsafe}

  abbrev pub decision_row :
      SecurityAction → GatewayConfig → Match → ℕ → String → String → String → ActionDecision
  decision_row action config m n print resource_digest params_digest = record {
    id = "decision_" <> uuid_hex n;
    action_fingerprint = print;
    policy_digest = config.policy_digest;
    policy_version = config.policy_version;
    effect = m.effect;
    reason_code = m.reason_code;
    rule_id = m.rule_id;
    principal_id = action.principal.id;
    session_id = action.context.session_id;
    surface = surface_name action.action.surface;
    operation = action.action.operation;
    resource_digest = resource_digest;
    params_digest = params_digest;
    enforced = is_block m.effect;
  }

  abbrev pub alert_row : Match → ℕ → String → RiskAlert
  alert_row m n print = record {
    id = "alert_" <> uuid_hex (n + 1);
    decision_id = some ("decision_" <> uuid_hex n);
    integration_id = none;
    source_event_id = none;
    action_fingerprint = print;
    effect = m.effect;
    reason_code = m.reason_code;
  }

  abbrev pub grant_row : GatewayConfig → ℕ → ℕ → String → String → ExecutionGrant
  grant_row config now n print token_hash = record {
    id = "grant_" <> uuid_hex (n + 3);
    decision_id = "decision_" <> uuid_hex n;
    token_hash = token_hash;
    action_fingerprint = print;
    policy_digest = config.policy_digest;
    expires_at = now + seconds 60;
    consumed_at = none;
  }

  abbrev pub decision_result : GatewayConfig → Match → ℕ → ℕ → String → Decision
  decision_result config m now n print = record {
    id = "decision_" <> uuid_hex n;
    effect = m.effect;
    reason_code = m.reason_code;
    rule_id = m.rule_id;
    action_fingerprint = print;
    policy_digest = config.policy_digest;
    policy_version = config.policy_version;
    execution_grant =
        if is_block m.effect
        then none
        else some (record {
          token = token_urlsafe (n + 2);
          grant_id = "grant_" <> uuid_hex (n + 3);
          expires_at = now + seconds 60;
        });
  }

  -- `_record_decision`. A decision draws four random values: the identifiers of the decision and of
  -- the alert, the token and the identifier of the grant. The unused ones are lost.
  unfoldable pub record_decision : ℕ → SecurityAction → GatewayConfig → Match → Exec State Decision
  record_decision now action config m = do
    print ← lift (fingerprint machine action config.policy_digest)
    resource_digest ← lift (digest machine (str action.action.resource))
    params_digest ← lift (digest machine (object action.action.params))
    n ← draw 4
    token_hash ←
        lift (if is_block m.effect then ok "" else digest machine (str (token_urlsafe (n + 2))))
    session_scope (
        decision_rows (decision_row action config m n print resource_digest params_digest)
          (alert_row m n print) (grant_row config now n print token_hash))
    pure (decision_result config m now n print)

  unfoldable pub evaluate : ℕ → SecurityAction → Exec State Decision
  evaluate now action = do
    config ← load_config machine
    normalized ← lift (normalize_action machine action)
    record_decision now normalized config (match_policy config normalized)

  unfoldable pub consume : ℕ → String → SecurityAction → Exec State Consumed
  consume now token action =
      if token == "" || ltb 256 (str_length token) then raise "grant_invalid" 403 else do
        config ← load_config machine
        normalized ← lift (normalize_action machine action)
        print ← lift (fingerprint machine normalized config.policy_digest)
        token_hash ← lift (digest machine (str token))
        session_scope (consume_rows token_hash print config.policy_digest now)

  -- `duration_ms` is a difference of readings of a monotonic clock, so `max(0, …)` leaves it alone.
  unfoldable pub record_execution_result : String → String → Bool → Json → ℕ → Exec State String
  record_execution_result decision_id grant_id succeeded summary duration_ms = do
    n ← draw 1
    let id = "result_" <> uuid_hex n
    result_digest ← lift (digest machine summary)
    session_scope (λ db.
        and_then
          (add (λ r. r.id)
            (record {
              id = id;
              decision_id = decision_id;
              grant_id = grant_id;
              succeeded = succeeded;
              result_digest = result_digest;
              duration_ms = max 0 duration_ms;
            })
            db.results)
          (λ results. ok (id, record db { results = results })))
