-- ===== src/Security/Gateway/Decisions/Runs.antt =====
-- Runs of the gateway: what every method keeps of the table of grants, and the runs in which other
-- services act in between.
use agent_factor.Base.{ℕ, String, Bool, ◌≡◌, arith, ok, List}
use mathlib.Core.Path.{subst}
use agent_factor.Base.{true, false, if◌then◌else◌, and_then}
use agent_factor.Json.{Json}
use agent_factor.Store.{add}
use agent_factor.Security.Model.{
  Db, State, Machine, ExecutionGrant, ActionDecision, RiskAlert, ExecutionResult,
}
use agent_factor.Security.Model.Keeps.{
  Keeps, Keeps-session_scope, keeps_rules, Keeps-bind, Keeps-lift, Keeps-if, Keeps-raise,
}
use agent_factor.Base.{lift, ok-injective}
use agent_factor.Security.Gateway.Action.{normalize_action}
use agent_factor.Security.Gateway.Policy.{match_policy}
use agent_factor.Security.Gateway.Config.{GatewayConfig}
use agent_factor.Security.Gateway.Loading.{load_config}
use agent_factor.Security.Gateway.Action.{SecurityAction}
use agent_factor.Security.Gateway.Policy.{Match}
use agent_factor.Security.Gateway.Decisions.{
  Consumed, consume_rows, add_grant, decision_rows, record_decision, evaluate, consume,
  record_execution_result, is_block,
}

-- A property of the table that neither a new grant nor a consumption breaks.
pub record IsStable (P : List ExecutionGrant → Type 0) : Type 0 where
  pub added :
      (g : ExecutionGrant) (grants grants' : List ExecutionGrant)
      → add_grant g grants ≡ ok grants'
      → P grants
      → P grants'
  pub consumed :
      (t f p : String) (now : ℕ) (db db' : Db) (c : Consumed)
      → consume_rows t f p now db ≡ ok (c, db')
      → P db.grants
      → P db'.grants

-- Of a decision's rows only the grant enters the table of grants.
pub grants-decision_rows :
    (row : ActionDecision) (alert : RiskAlert) (grant : ExecutionGrant) (db db' : Db) (u : Unit {0})
    → decision_rows row alert grant db ≡ ok (u, db')
    → (if is_block row.effect then ok db.grants else add_grant grant db.grants) ≡ ok db'.grants
unfolding decision_rows
grants-decision_rows row alert grant db db' u h = ground arith

grants-result :
    (row : ExecutionResult) (id : String) (db db' : Db) (a : String)
    → and_then {B = String × Db}
        (add (λ r. r.id) row db.results)
        (λ rows. ok (id, record db { results = rows }))
      ≡ ok (a, db')
    → db.grants ≡ db'.grants
grants-result row id db db' a h = ground arith

module _ (P : List ExecutionGrant → Type 0) (stable : IsStable P) where
  grants_at :
      (b : Bool) (g : ExecutionGrant) (grants grants' : List ExecutionGrant)
      → (if b then ok grants else add_grant g grants) ≡ ok grants'
      → P grants
      → P grants'
  grants_at true g grants grants' h p = subst P (ok-injective grants grants' h) p
  grants_at false g grants grants' h p = stable.added g grants grants' h p

  decision_rows_at :
      (row : ActionDecision) (alert : RiskAlert) (grant : ExecutionGrant) (db db' : Db)
      (u : Unit {0})
      → decision_rows row alert grant db ≡ ok (u, db')
      → P db.grants
      → P db'.grants
  decision_rows_at row alert grant db db' u h p =
      grants_at (is_block row.effect) grant db.grants db'.grants
        (grants-decision_rows row alert grant db db' u h) p

  load_config-Keeps : (machine : Machine) → Keeps (λ db. P db.grants) (load_config machine)
  unfolding load_config
  load_config-Keeps machine = record { at = λ s p. p }

  module _ (machine : Machine) where
    record_decision-Keeps :
        (now : ℕ) (action : SecurityAction) (config : GatewayConfig) (m : Match)
        → Keeps (λ db. P db.grants) (record_decision machine now action config m)
    unfolding record_decision
    record_decision-Keeps now action config m =
        search (keeps_rules, Keeps-session_scope, decision_rows_at) depth 12

    evaluate-Keeps :
        (now : ℕ) (action : SecurityAction)
        → Keeps (λ db. P db.grants) (evaluate machine now action)
    unfolding evaluate
    evaluate-Keeps now action =
        Keeps-bind (load_config machine) _ (load_config-Keeps machine) λ config.
          Keeps-bind (lift (normalize_action machine action)) _ (Keeps-lift _) λ normalized.
            record_decision-Keeps now normalized config (match_policy config normalized)

    consume-Keeps :
        (now : ℕ) (token : String) (action : SecurityAction)
        → Keeps (λ db. P db.grants) (consume machine now token action)
    unfolding consume
    consume-Keeps now token action = Keeps-if _ _ _ (Keeps-raise _ _) (
        Keeps-bind (load_config machine) _ (load_config-Keeps machine)
          λ config. search (keeps_rules, Keeps-session_scope, stable.consumed) depth 12)

    result_at :
        (row : ExecutionResult) (id : String) (db db' : Db) (a : String)
        → and_then {B = String × Db}
            (add (λ r. r.id) row db.results)
            (λ rows. ok (id, record db { results = rows }))
          ≡ ok (a, db')
        → P db.grants
        → P db'.grants
    result_at row id db db' a h p = subst P (grants-result row id db db' a h) p

    record_execution_result-Keeps :
        (decision_id grant_id : String) (succeeded : Bool) (summary : Json) (ms : ℕ)
        → Keeps
            (λ db. P db.grants)
            (record_execution_result machine decision_id grant_id succeeded summary ms)
    unfolding record_execution_result
    record_execution_result-Keeps decision_id grant_id succeeded summary ms =
        search (keeps_rules, Keeps-session_scope, result_at) depth 10

-- One step of the running system: a method of the gateway, returning or raising, or anything that
-- leaves the table of grants alone (the other services, another process, a new policy file).
pub data Step (machine : Machine) (s : State) : State → Type 0 where
  evaluates : (now : ℕ) (a : SecurityAction) → Step machine s (evaluate machine now a s).1
  decides :
      (now : ℕ) (a : SecurityAction) (config : GatewayConfig) (m : Match)
      → Step machine s (record_decision machine now a config m s).1
  consumes :
      (now : ℕ) (token : String) (a : SecurityAction)
      → Step machine s (consume machine now token a s).1
  records :
      (decision_id grant_id : String) (succeeded : Bool) (summary : Json) (ms : ℕ)
      → Step machine s
          (record_execution_result machine decision_id grant_id succeeded summary ms s).1
  elsewhere : (t : State) → s.db.grants ≡ t.db.grants → Step machine s t

pub data Run (machine : Machine) (s : State) : State → Type 0 where
  here : Run machine s s
  next : {t u : State} → Run machine s t → Step machine t u → Run machine s u

module _ (P : List ExecutionGrant → Type 0) (stable : IsStable P) (machine : Machine) where
  Step-keeps : {s t : State} → Step machine s t → P s.db.grants → P t.db.grants
  Step-keeps {s} (evaluates now a) p = (evaluate-Keeps P stable machine now a).at s p
  Step-keeps {s} (decides now a c m) p = (record_decision-Keeps P stable machine now a c m).at s p
  Step-keeps {s} (consumes now token a) p = (consume-Keeps P stable machine now token a).at s p
  Step-keeps {s} (records d g b j ms) p =
      (record_execution_result-Keeps P stable machine d g b j ms).at s p
  Step-keeps (elsewhere t e) p = subst P e p

  pub Run-keeps : {s t : State} → Run machine s t → P s.db.grants → P t.db.grants
  Run-keeps here p = p
  Run-keeps (next run step) p = Step-keeps step (Run-keeps run p)
