-- ===== src/Messages/Decided.antt =====
-- What a decision of a supervisor does.
use agent_factor.Base.{ℕ, String, true, ◌≡◌, arith, Option, some, List, [], ◌∷◌, ◌++◌}
use agent_factor.Base.{◌==◌, string_eq, nat_eq, find?, update_where, ok, Option-cases, inl, inr}
use agent_factor.Messages.Inbox.{
  ApprovalRequest, ApprovalStatus, approved, denied, Desk, Terminals, queue_message,
}
use agent_factor.Messages.Approvals.{get_request, decide, write_decision, approve, deny, tell}

-- The request after a decision on it.
get_request-decided :
    (status : ApprovalStatus) (now request_id : ℕ) (rows : List ApprovalRequest)
    (a : ApprovalRequest)
    → find? (λ x. x.id == request_id) rows ≡ some a
    → find?
        (λ x. x.id == request_id)
        (update_where (λ x. x.id == request_id) (decide status now) rows)
      ≡ some (decide status now a)
unfolding find? update_where
get_request-decided status now request_id [] a h = absurd (ground arith)
get_request-decided status now request_id (x ∷ rows) a h =
    ground (arith, get_request-decided status now request_id rows a)

-- An approval that succeeds has sent the command to the terminal of the request, once, and the
-- request is approved.
pub record IsApproved (now request_id : ℕ) (r : ApprovalRequest) (d d' : Desk) : Type 0 where
  pub before : ApprovalRequest
  pub found : get_request request_id d ≡ some before
  pub reply : r ≡ decide approved now before
  pub stored : get_request request_id d' ≡ some r
  pub sent : d'.sent ≡ d.sent ++ (before.terminal_id, before.command_text) ∷ []
  pub inbox : d'.inbox ≡ d.inbox

module _ (terminals : Terminals) (now request_id : ℕ) (d : Desk) where
  -- An approval that succeeds has sent the command once, to the terminal of the request, the stored
  -- request is approved, and no message was queued.
  pub approve-IsApproved :
      (r : ApprovalRequest)
      → (approve terminals now request_id d).0 ≡ ok r
      → IsApproved now request_id r d (approve terminals now request_id d).1
  unfolding approve get_request write_decision
  approve-IsApproved r h = elim (Option-cases (get_request request_id d)) [
    | inl e ↦ absurd (ground arith)
    | inr (a, e) ↦ record {
      before = a;
      found = e;
      reply = ground arith;
      stored = ground (arith, get_request-decided approved now request_id d.approvals a e);
      sent = ground arith;
      inbox = ground arith;
    }
  ]

  denied_request :
      (reason : Option String) (r : ApprovalRequest)
      → (deny now request_id reason d).0 ≡ ok r
      → (get_request request_id (deny now request_id reason d).1 ≡ some r) × (r.status ≡ denied)
  unfolding deny get_request write_decision tell queue_message
  denied_request reason r h = elim (Option-cases (get_request request_id d)) [
    | inl e ↦ absurd (ground arith)
    | inr (a, e) ↦ (
      ground
          (arith, get_request-decided denied now request_id d.approvals a e, Option-cases reason),
      ground arith,
    )
  ]

-- A request that was denied is not settled: a later approval sends its command, when the terminal
-- takes it.
pub deny_then_approve :
    (terminals : Terminals) (now later request_id : ℕ) (reason : Option String) (d : Desk)
    (r : ApprovalRequest)
    → (deny now request_id reason d).0 ≡ ok r
    → terminals.accepts r.terminal_id r.command_text ≡ true
    → (r.status ≡ denied)
      × ((approve terminals later request_id (deny now request_id reason d).1).0
          ≡ ok (decide approved later r))
      × ((approve terminals later request_id (deny now request_id reason d).1).1.sent
          ≡ (deny now request_id reason d).1.sent ++ (r.terminal_id, r.command_text) ∷ [])
unfolding approve write_decision
deny_then_approve terminals now later request_id reason d r h taken =
    let (stored, status) = denied_request terminals now request_id d reason r h in
    (status, ground (arith, stored, taken), ground (arith, stored, taken))
