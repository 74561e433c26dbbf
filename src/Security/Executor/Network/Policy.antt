-- ===== src/Security/Executor/Network/Policy.antt =====
-- What a native request does to the active policy: nothing.
use agent_factor.Base.{
  ℕ, String, ◌≡◌, arith, Option, Result, ok, lift, Bool, and_then, none, some, Exec,
}
use agent_factor.Json.{Json}
use agent_factor.Store.{add}
use agent_factor.Security.Model.{
  Db, State, Machine, ActionDecision, RiskAlert, ExecutionGrant, ExecutionResult,
}
use agent_factor.Security.Model.Keeps.{
  Keeps, Keeps-raise, Keeps-pure, Keeps-lift, Keeps-bind, Keeps-if, Keeps-session_scope,
  keeps_rules,
}
use agent_factor.Security.Documents.{Document, active_rows}
use agent_factor.Security.Gateway.Action.{SecurityAction, normalize_action}
use agent_factor.Security.Gateway.Config.{GatewayConfig}
use agent_factor.Security.Gateway.Policy.{Match, match_policy}
use agent_factor.Security.Gateway.Loading.{load_config}
use agent_factor.Security.Gateway.Decisions.{
  Consumed, decision_rows, consume_rows, record_decision, evaluate, consume,
  record_execution_result,
}
use agent_factor.Security.Executor.{authorize_native}

module _ (parse : String → Option Document) (policy : Result (Document × String)) where
  abbrev pub InForce : Db → Type 0
  InForce db = active_rows parse db ≡ policy

  pub InForce-same :
      (db db' : Db)
      → db'.policies ≡ db.policies
      → db'.revisions ≡ db.revisions
      → InForce db
      → InForce db'
  unfolding active_rows
  InForce-same db db' p q h = rw p (rw q h)

  decision_rows_at :
      (row : ActionDecision) (alert : RiskAlert) (grant : ExecutionGrant) (db db' : Db)
      (u : Unit {0})
      → decision_rows row alert grant db ≡ ok (u, db')
      → InForce db
      → InForce db'
  unfolding decision_rows
  decision_rows_at row alert grant db db' u h = InForce-same db db' (ground arith) (ground arith)

  consume_rows_at :
      (token_hash print digest : String) (now : ℕ) (db db' : Db) (c : Consumed)
      → consume_rows token_hash print digest now db ≡ ok (c, db')
      → InForce db
      → InForce db'
  unfolding consume_rows
  consume_rows_at token_hash print digest now db db' c h =
      InForce-same db db' (ground arith) (ground arith)

  result_at :
      (row : ExecutionResult) (id : String) (db db' : Db) (a : String)
      → and_then {B = String × Db}
          (add (λ r. r.id) row db.results)
          (λ rows. ok (id, record db { results = rows }))
        ≡ ok (a, db')
      → InForce db
      → InForce db'
  result_at row id db db' a h = InForce-same db db' (ground arith) (ground arith)

  load_config-Keeps : (machine : Machine) → Keeps InForce (load_config machine)
  unfolding load_config
  load_config-Keeps machine = record { at = λ s p. p }

  module _ (machine : Machine) where
    record_decision-Keeps :
        (now : ℕ) (action : SecurityAction) (config : GatewayConfig) (m : Match)
        → Keeps InForce (record_decision machine now action config m)
    unfolding record_decision
    record_decision-Keeps now action config m =
        search (keeps_rules, Keeps-session_scope, decision_rows_at) depth 12

    evaluate-Keeps :
        (now : ℕ) (action : SecurityAction) → Keeps InForce (evaluate machine now action)
    unfolding evaluate
    evaluate-Keeps now action =
        Keeps-bind (load_config machine) _ (load_config-Keeps machine) λ config.
          Keeps-bind (lift (normalize_action machine action)) _ (Keeps-lift _) λ normalized.
            record_decision-Keeps now normalized config (match_policy config normalized)

    consume-Keeps :
        (now : ℕ) (token : String) (action : SecurityAction)
        → Keeps InForce (consume machine now token action)
    unfolding consume
    consume-Keeps now token action = Keeps-if _ _ _ (Keeps-raise _ _) (
        Keeps-bind (load_config machine) _ (load_config-Keeps machine)
          λ config. search (keeps_rules, Keeps-session_scope, consume_rows_at) depth 12)

    pub record_execution_result-Keeps :
        (decision_id grant_id : String) (succeeded : Bool) (summary : Json) (ms : ℕ)
        → Keeps InForce (record_execution_result machine decision_id grant_id succeeded summary ms)
    unfolding record_execution_result
    record_execution_result-Keeps decision_id grant_id succeeded summary ms =
        search (keeps_rules, Keeps-session_scope, result_at) depth 10

    on_grant-Keeps :
        {A B : Type 0} (o : Option A) (m : Exec State B) (f : A → Exec State B)
        → Keeps InForce m
        → ((a : A) → Keeps InForce (f a))
        → Keeps InForce (elim o [ none ↦ m | some a ↦ f a ])
    on_grant-Keeps none m f km kf = km
    on_grant-Keeps (some a) m f km kf = kf a

    pub authorize_native-Keeps :
        (now later : ℕ) (action : SecurityAction)
        → Keeps InForce (authorize_native machine now later action)
    unfolding authorize_native
    authorize_native-Keeps now later action =
        Keeps-bind _ _ (evaluate-Keeps now action) (λ decision.
          on_grant-Keeps decision.execution_grant _ _ (Keeps-raise _ _)
            (λ g. Keeps-bind _ _ (consume-Keeps later g.token action) (λ consumed. Keeps-pure _)))
