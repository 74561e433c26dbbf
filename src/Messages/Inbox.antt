-- ===== src/Messages/Inbox.antt =====
-- services/inbox_service.py: the queue of messages, and its delivery to a terminal.
use agent_factor.Base.{
  ℕ, ◌+◌, String, ◌<>◌, Bool, true, false, ◌&&◌, Option, none, some, List, [], ◌∷◌, ◌++◌,
}
use agent_factor.Base.{◌==◌, string_eq, nat_eq, if◌then◌else◌, filter, update_where}

pub data InboxStatus : Type 0 where
  pending in_flight delivered failed : InboxStatus

pub record InboxMessage : Type 0 where
  pub id : ℕ
  pub receiver_id : String
  pub sender_id : String
  pub message : String
  pub status : InboxStatus

pub data ApprovalStatus : Type 0 where
  pending approved denied : ApprovalStatus

pub record ApprovalRequest : Type 0 where
  pub id : ℕ
  pub terminal_id : String
  pub supervisor_id : String
  pub command_text : String
  pub metadata_payload : Option String
  pub status : ApprovalStatus
  pub decided_at : Option ℕ

-- The tables, the next value of their automatic keys, the texts that were sent to terminals, and the
-- lines of the audit log.
pub record Desk : Type 0 where
  pub inbox : List InboxMessage
  pub approvals : List ApprovalRequest
  pub next_message : ℕ
  pub next_approval : ℕ
  pub sent : List (String × String)
  pub audit : List (String × ℕ)

pub data TerminalStatus : Type 0 where
  ready running completed error : TerminalStatus

-- What the terminals answer: the status of the provider of a terminal (`none` where it cannot be
-- loaded), and whether an input is taken.
pub record Terminals : Type 0 where
  pub status : String → Option TerminalStatus
  pub accepts : String → String → Bool

abbrev pub is_pending : InboxStatus → Bool
is_pending InboxStatus.pending = true
is_pending _ = false

abbrev pub is_waiting : InboxStatus → Bool
is_waiting InboxStatus.pending = true
is_waiting in_flight = true
is_waiting _ = false

-- `IDLE_STATUSES`
abbrev pub is_idle : TerminalStatus → Bool
is_idle ready = true
is_idle completed = true
is_idle _ = false

-- The query of a duplicate: the last row, by the order of insertion.
unfoldable pub find_last : (InboxMessage → Bool) → List InboxMessage → Option InboxMessage
find_last p [] = none
find_last p (m ∷ ms) =
    let later = find_last p ms in
    elim later [ some x ↦ some x | none ↦ if p m then some m else none ]

-- `queue_message`: the message that is in the queue afterwards
unfoldable pub queue_message : String → String → String → Bool → Desk → InboxMessage × Desk
queue_message sender_id receiver_id message dedupe d =
    let row : InboxMessage = record {
      id = d.next_message;
      receiver_id = receiver_id;
      sender_id = sender_id;
      message = message;
      status = InboxStatus.pending;
    } in
    let fresh : InboxMessage × Desk =
      (row, record d { inbox = d.inbox ++ row ∷ []; next_message = d.next_message + 1 }) in
    if dedupe
    then elim (find_last
        (λ m.
          m.receiver_id == receiver_id
          && m.sender_id == sender_id
          && m.message == message
          && is_waiting m.status)
        d.inbox) [ some existing ↦ (existing, d) | none ↦ fresh ]
    else fresh

abbrev pub set_status : InboxStatus → InboxMessage → InboxMessage
set_status status m = record m { status = status }

-- A pending message for this terminal
abbrev pub is_for : String → InboxMessage → Bool
is_for receiver_id m = m.receiver_id == receiver_id && is_pending m.status

-- `_mark_pending_failed`
unfoldable pub mark_pending_failed : String → Desk → Desk
mark_pending_failed receiver_id d = record d {
  inbox = update_where (is_for receiver_id) (set_status failed) d.inbox;
}

-- `mark_failed`
unfoldable pub mark_failed : ℕ → Desk → Desk
mark_failed message_id d = record d {
  inbox = update_where (λ m. m.id == message_id) (set_status failed) d.inbox;
}

abbrev pub formatted : InboxMessage → String
formatted m = "[INBOX:" <> m.sender_id <> "] " <> m.message

-- One round of the loop: the input, and the status that it leads to.
unfoldable pub deliver_entry : Terminals → String → InboxMessage → Desk → Desk
deliver_entry terminals receiver_id m d =
    let taken = terminals.accepts receiver_id (formatted m) in
    record d {
      inbox =
          update_where (λ x. x.id == m.id) (set_status (if taken then delivered else failed))
            d.inbox;
      sent = if taken then d.sent ++ (receiver_id, formatted m) ∷ [] else d.sent;
    }

unfoldable pub deliver_entries : Terminals → String → List InboxMessage → Desk → Desk
deliver_entries terminals receiver_id [] d = d
deliver_entries terminals receiver_id (m ∷ ms) d =
    deliver_entries terminals receiver_id ms (deliver_entry terminals receiver_id m d)

-- The transaction that fetches the pending messages and marks them.
abbrev pub mark_in_flight : String → Desk → Desk
mark_in_flight receiver_id d = record d {
  inbox = update_where (is_for receiver_id) (set_status in_flight) d.inbox;
}

-- `deliver_pending`
unfoldable pub deliver_pending : Terminals → String → Desk → Desk
deliver_pending terminals receiver_id d = elim (terminals.status receiver_id) [
  | none ↦ mark_pending_failed receiver_id d
  | some status ↦
      if is_idle status
      then deliver_entries terminals receiver_id (filter (is_for receiver_id) d.inbox)
          (mark_in_flight receiver_id d)
      else d
]
