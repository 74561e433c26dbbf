-- ===== src/Security/Executor/Actions.antt =====
-- The authorization of a native action: one decision, and one grant that is spent.
use agent_factor.Base.{ℕ, ◌+◌, ◌<◌, false, ◌||◌, ◌==◌, ◌≡◌, ◌≢◌, arith, some}
use agent_factor.Base.{string_eq, ltb, str_length, ok, Result-cases, Option-cases, inl, inr}
use agent_factor.Security.Model.{State, Machine, seconds, block}
use agent_factor.Security.Gateway.Action.{SecurityAction}
use agent_factor.Security.Gateway.Decisions.{Decision, Grant, Consumed, evaluate, consume}
use agent_factor.Security.Gateway.Decisions.Spent.{IsSound}
use agent_factor.Security.Gateway.Decisions.OneUse.{Run-IsSound, consume_once}
use agent_factor.Security.Gateway.Decisions.Runs.{Run, here, next, evaluates}
use agent_factor.Security.Gateway.Decisions.RoundTrip.{evaluate_then_consume}
use agent_factor.Security.Gateway.Decisions.Blocking.{evaluate-blocks_or_grants}
use agent_factor.Security.Executor.{authorize_native}

module _ (machine : Machine) (now later : ℕ) (action : SecurityAction) (s : State) where
  abbrev decided : State
  decided = (evaluate machine now action s).1

  authorize_native-parts :
      (d : Decision) (c : Consumed)
      → (authorize_native machine now later action s).0 ≡ ok (d, c)
      → ((evaluate machine now action s).0 ≡ ok d)
        × ((g : Grant) × (d.execution_grant ≡ some g)
            × ((consume machine later g.token action decided).0 ≡ ok c)
            × ((consume machine later g.token action decided).1
                ≡ (authorize_native machine now later action s).1))
  unfolding authorize_native
  authorize_native-parts d c h = elim (Result-cases (evaluate machine now action s).0) [
    | inr (e, n, e₁) ↦ absurd (ground arith)
    | inl (d', e) ↦ elim (Option-cases d'.execution_grant) [
      | inl none_given ↦ absurd (ground arith)
      | inr (g, e₁) ↦ (ground arith, (g, ground arith, ground arith, ground arith))
    ]
  ]

  granted-effect :
      (d : Decision) (g : Grant)
      → (evaluate machine now action s).0 ≡ ok d
      → d.execution_grant ≡ some g
      → d.effect ≢ block
  granted-effect d g e given = elim (evaluate-blocks_or_grants machine now action s d e) [
    | inl stops ↦ absurd (cc (stops.no_token, given))
    | inr passes ↦ passes.effect
  ]

  -- An action is authorized whenever its decision does not block, provided that the token has the
  -- length that is admitted and the clock is read twice within 60 seconds; the grant that is spent
  -- is the one of this decision, and has its fingerprint.
  pub authorize_native-granted :
      (d : Decision) (g : Grant)
      → IsSound s.db.grants
      → (evaluate machine now action s).0 ≡ ok d
      → d.execution_grant ≡ some g
      → (g.token == "" || ltb 256 (str_length g.token)) ≡ false
      → later < now + seconds 60
      → (authorize_native machine now later action s).0
        ≡ ok (
          d,
          record {
            grant_id = g.grant_id;
            decision_id = d.id;
            action_fingerprint = d.action_fingerprint;
          },
        )
  unfolding authorize_native
  authorize_native-granted d g sound e given fits in_time =
      ground
        (arith, evaluate_then_consume machine now later action s d g sound e given fits in_time)

  -- An action that is authorized has a decision that does not block, and has spent the grant of this
  -- decision: whatever the gateway and the other services do next, the token is not accepted again,
  -- for this or for any other action.
  pub authorize_native-once :
      (d : Decision) (c c' : Consumed) (t : State) (when : ℕ) (other : SecurityAction)
      → IsSound s.db.grants
      → (authorize_native machine now later action s).0 ≡ ok (d, c)
      → Run machine (authorize_native machine now later action s).1 t
      → (d.effect ≢ block)
        × ((g : Grant) × (d.execution_grant ≡ some g)
            × ((consume machine when g.token other t).0 ≢ ok c'))
  authorize_native-once d c c' t when other sound h run =
      let (e, rest) = authorize_native-parts d c h in
      let (g, given, consumed, same) = rest in
      let sound' = Run-IsSound machine sound (next here (evaluates now action)) in
      (
        granted-effect d g e given,
        (
          g,
          given,
          consume_once machine later when g.token action other decided t c c' sound' consumed
              (rw same run),
        ),
      )
