-- ===== src/Messages/Tests.antt =====
-- The theorems about messages and approvals at concrete inputs.
use agent_factor.Base.{
  true, false, ◌≡◌, refl, none, some, [], ◌∷◌, ◌++◌, any, find?, ok, string_eq, nat_eq, ℕ_discrete,
}
use agent_factor.Messages.Inbox.{
  InboxMessage, InboxStatus, ApprovalStatus, ApprovalRequest, approved, denied, Desk, Terminals,
  ready, is_for, deliver_pending,
}
use agent_factor.Messages.Approvals.{approve, deny, decide, get_request, write_decision, tell}
use agent_factor.Messages.Delivery.{deliver_pending-twice}
use agent_factor.Messages.Decided.{deny_then_approve}

abbrev greeting : InboxMessage
greeting = record {
  id = 1;
  receiver_id = "t";
  sender_id = "s";
  message = "hello";
  status = InboxStatus.pending;
}

abbrev request : ApprovalRequest
request = record {
  id = 1;
  terminal_id = "t";
  supervisor_id = "s";
  command_text = "make";
  metadata_payload = none;
  status = ApprovalStatus.pending;
  decided_at = none;
}

abbrev desk : Desk
desk = record {
  inbox = greeting ∷ [];
  approvals = request ∷ [];
  next_message = 2;
  next_approval = 2;
  sent = [];
  audit = [];
}

abbrev idle : Terminals
idle = record { status = λ id. some ready; accepts = λ id text. true }

deliver_pending-twice_example :
    (any (is_for "t") (deliver_pending idle "t" desk).inbox ≡ false)
    × (deliver_pending idle "t" (deliver_pending idle "t" desk) ≡ deliver_pending idle "t" desk)
deliver_pending-twice_example = deliver_pending-twice idle "t" desk ready refl refl

deny_then_approve_example :
    (denied ≡ denied)
    × ((approve idle 6 1 (deny 5 1 none desk).1).0
        ≡ ok (decide approved 6 (decide denied 5 request)))
    × ((approve idle 6 1 (deny 5 1 none desk).1).1.sent
        ≡ (deny 5 1 none desk).1.sent ++ ("t", "make") ∷ [])
unfolding deny get_request write_decision tell find? nat_eq ℕ_discrete
deny_then_approve_example =
    deny_then_approve idle 5 6 1 none desk (decide denied 5 request) refl refl
