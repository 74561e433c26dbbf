-- ===== src/Security/Tests.antt =====
-- The theorems about the security services at concrete inputs.
mod Flows
mod Callers
mod Lives
mod Network
mod Tools
mod Relisted
mod Calls
mod Policies
mod Daemon
use agent_factor.Base.{◌≡◌, refl, arith, none, some, Result, ok, err}
use agent_factor.Base.{
  string_eq, option_eq, nat_eq, any, all, str_length, has_nul, sorted_set, ℕ_discrete,
}
use agent_factor.Json.{str, get_field}
use agent_factor.Store.{add, has_key}
use agent_factor.Security.Model.{State, session_scope, record_only, block, seconds}
use agent_factor.Base.{◌+◌, ◌≢◌}
use agent_factor.Security.Gateway.Decisions.Spent.{IsSound}
use agent_factor.Security.Gateway.Decisions.OneUse.{Run-IsSound, consume_once}
use agent_factor.Security.Gateway.Decisions.Runs.{here, next, evaluates}
use agent_factor.Security.Gateway.Decisions.RoundTrip.{evaluate_then_consume}
use agent_factor.Base.{◌⊎◌}
use agent_factor.Security.Gateway.Decisions.Blocking.{
  IsBlocked, IsGranted, evaluate-blocks_or_grants,
}
use agent_factor.Security.Gateway.Decisions.{Grant}
use agent_factor.Security.Executor.{authorize_native}
use agent_factor.Security.Executor.Actions.{authorize_native-granted, authorize_native-once}
use agent_factor.Security.Samples.{machine, start, shell_action}
use agent_factor.Security.Gateway.Ids.{digest, is_safe_id}
use agent_factor.Security.Gateway.Config.{id_text, normalize_rule, normalize_server}
use agent_factor.Security.Gateway.Loading.{load_config, normalize_config}
use agent_factor.Security.Gateway.Config.Values.{short_str_of}
use agent_factor.Security.Gateway.Action.{
  SecurityAction, normalize_action, fingerprint, resolve_resource,
}
use agent_factor.Security.Gateway.Policy.{match_policy, applies}
use agent_factor.Security.Gateway.Decisions.{
  Decision, Consumed, evaluate, consume, record_decision, add_grant, decision_rows,
}

-- Unfolding this definition unfolds all that a run of `evaluate` computes with.
run_evaluate : SecurityAction → State → Result Decision × State
unfolding evaluate load_config normalize_config normalize_action match_policy record_decision
    decision_rows fingerprint session_scope add add_grant normalize_rule normalize_server is_safe_id
    any all get_field string_eq option_eq nat_eq has_nul str_length sorted_set digest
    resolve_resource applies has_key id_text short_str_of ℕ_discrete
run_evaluate = evaluate machine 5

-- What `evaluate` answers for an action that the policy records, and the tables after it.
abbrev made : Decision
made = record {
  id = "decision_0";
  effect = record_only;
  reason_code = "policy_record";
  rule_id = some (str "build");
  action_fingerprint = "sha256:json";
  policy_digest = "sha256:json";
  policy_version = "p1";
  execution_grant =
      some (record { token = "token011"; grant_id = "grant_0111"; expires_at = 5 + seconds 60 });
}

abbrev evaluated : State
evaluated = (evaluate machine 5 (shell_action "make") start).1

evaluate-make : (evaluate machine 5 (shell_action "make") start).0 ≡ ok made
unfolding run_evaluate
evaluate-make = refl

evaluate-rm :
    (r : Decision) × ((evaluate machine 5 (shell_action "rm") start).0 ≡ ok r)
    × (r.execution_grant ≡ none)
unfolding run_evaluate
evaluate-rm = (
  record {
    id = "decision_0";
    effect = block;
    reason_code = "policy_default_block";
    rule_id = none;
    action_fingerprint = "sha256:json";
    policy_digest = "sha256:json";
    policy_version = "p1";
    execution_grant = none;
  },
  refl,
  refl,
)

start-IsSound : IsSound start.db.grants
start-IsSound = record { ids = tt; tokens = tt }

-- The token is consumed 20 seconds after the evaluation.
consume_make :
    (consume machine (seconds 20) "token011" (shell_action "make") evaluated).0
    ≡ ok (record {
      grant_id = "grant_0111";
      decision_id = "decision_0";
      action_fingerprint = "sha256:json";
    })
unfolding string_eq str_length
consume_make =
    evaluate_then_consume machine 5 (seconds 20) (shell_action "make") start made
      (record { token = "token011"; grant_id = "grant_0111"; expires_at = 5 + seconds 60 })
      start-IsSound evaluate-make refl refl (omega arith)

-- The same by the theorem, for the token that was returned.
evaluate_then_consume_example :
    (consume machine (seconds 20) "token011" (shell_action "make") evaluated).0
    ≡ ok (record {
      grant_id = "grant_0111";
      decision_id = "decision_0";
      action_fingerprint = "sha256:json";
    })
unfolding string_eq str_length
evaluate_then_consume_example =
    evaluate_then_consume machine 5 (seconds 20) (shell_action "make") start made
      (record { token = "token011"; grant_id = "grant_0111"; expires_at = 5 + seconds 60 })
      start-IsSound evaluate-make refl refl (omega arith)

evaluated-IsSound : IsSound evaluated.db.grants
evaluated-IsSound =
    Run-IsSound machine start-IsSound (next here (evaluates 5 (shell_action "make")))

abbrev spent : Consumed
spent = record {
  grant_id = "grant_0111";
  decision_id = "decision_0";
  action_fingerprint = "sha256:json";
}

consume_once_example :
    (consume machine
      (seconds 21)
      "token011"
      (shell_action "make")
      (consume machine (seconds 20) "token011" (shell_action "make") evaluated).1).0
    ≢ ok spent
consume_once_example =
    consume_once machine (seconds 20) (seconds 21) "token011" (shell_action "make")
      (shell_action "make") evaluated _ spent spent evaluated-IsSound consume_make here

-- The action is blocked or granted: here granted.
evaluate-blocks_or_grants_example :
    IsBlocked machine 5 start evaluated made ⊎ IsGranted machine 5 start evaluated made
evaluate-blocks_or_grants_example =
    evaluate-blocks_or_grants machine 5 (shell_action "make") start made evaluate-make

abbrev made_grant : Grant
made_grant = record { token = "token011"; grant_id = "grant_0111"; expires_at = 5 + seconds 60 }

authorize_make : (authorize_native machine 5 6 (shell_action "make") start).0 ≡ ok (made, spent)
unfolding string_eq str_length
authorize_make =
    authorize_native-granted machine 5 6 (shell_action "make") start made made_grant start-IsSound
      evaluate-make refl refl (omega arith)

authorize_native-once_example :
    (made.effect ≢ block)
    × ((g : Grant) × (made.execution_grant ≡ some g)
        × ((consume machine 7 g.token
              (shell_action "rm")
              (authorize_native machine 5 6 (shell_action "make") start).1).0
            ≢ ok spent))
authorize_native-once_example =
    authorize_native-once machine 5 6 (shell_action "make") start made spent spent _ 7
      (shell_action "rm") start-IsSound authorize_make here
