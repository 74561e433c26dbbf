-- ===== src/Messages/Approvals.antt =====
-- services/approval_service.py: commands that wait for a supervisor.
use agent_factor.Base.{
  ℕ, ◌+◌, String, ◌<>◌, false, ◌==◌, nat_eq, string_eq, Option, none, some, [], ◌∷◌, ◌++◌,
}
use agent_factor.Base.{if◌then◌else◌, find?, update_where, ok, err, Exec}
use agent_factor.Messages.Inbox.{
  Desk, ApprovalRequest, ApprovalStatus, approved, denied, Terminals, queue_message,
}

-- `db.get(ApprovalORM, request_id)`
unfoldable pub get_request : ℕ → Desk → Option ApprovalRequest
get_request request_id d = find? (λ a. a.id == request_id) d.approvals

abbrev pub decide : ApprovalStatus → ℕ → ApprovalRequest → ApprovalRequest
decide status now a = record a { status = status; decided_at = some now }

unfoldable pub write_decision : ApprovalStatus → ℕ → ℕ → Desk → Desk
write_decision status now request_id d = record d {
  approvals = update_where (λ a. a.id == request_id) (decide status now) d.approvals;
}

-- `_append_audit`: the action and the request
abbrev pub append_audit : String → ℕ → Desk → Desk
append_audit action request_id d = record d { audit = d.audit ++ (action, request_id) ∷ [] }

-- `request_approval`
unfoldable pub request_approval :
    String → String → String → Option String → Exec Desk ApprovalRequest
request_approval terminal_id supervisor_id command_text metadata_payload d =
    let row : ApprovalRequest = record {
      id = d.next_approval;
      terminal_id = terminal_id;
      supervisor_id = supervisor_id;
      command_text = command_text;
      metadata_payload = metadata_payload;
      status = ApprovalStatus.pending;
      decided_at = none;
    } in
    let added = record d {
      approvals = d.approvals ++ row ∷ [];
      next_approval = d.next_approval + 1;
    } in
    let message = "Approval required for " <> terminal_id <> ": " <> command_text in
    let (queued, d') = queue_message terminal_id supervisor_id message false added in
    (ok row, append_audit "REQUESTED" row.id d')

-- `approve`: the decision is committed before the command is sent, and the audit comes last.
unfoldable pub approve : Terminals → ℕ → ℕ → Exec Desk ApprovalRequest
approve terminals now request_id d = elim (get_request request_id d) [
  | none ↦ (err "not found" 500, d)
  | some a ↦
      let decided = write_decision approved now request_id d in
      if terminals.accepts a.terminal_id a.command_text
      then (
        ok (decide approved now a),
        append_audit "APPROVED" request_id
            (record decided { sent = decided.sent ++ (a.terminal_id, a.command_text) ∷ [] }),
      )
      else (err "send_input" 500, decided)
]

-- `if reason:` a message
unfoldable pub tell : String → String → Option String → Desk → Desk
tell supervisor_id terminal_id none d = d
tell supervisor_id terminal_id (some reason) d =
    if reason == ""
    then d
    else (queue_message supervisor_id terminal_id ("Approval denied: " <> reason) false d).1

-- `deny`: the terminal is told a reason that is not empty.
unfoldable pub deny : ℕ → ℕ → Option String → Exec Desk ApprovalRequest
deny now request_id reason d = elim (get_request request_id d) [
  | none ↦ (err "not found" 500, d)
  | some a ↦
      let decided = write_decision denied now request_id d in
      let told = tell a.supervisor_id a.terminal_id reason decided in
      (ok (decide denied now a), append_audit "DENIED" request_id told)
]
