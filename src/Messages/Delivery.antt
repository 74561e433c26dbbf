-- ===== src/Messages/Delivery.antt =====
-- What a delivery sends, and what it leaves in the queue.
use agent_factor.Base.{String, Bool, true, false, ◌≡◌, refl, arith, some, List, [], ◌∷◌, ◌++◌}
use agent_factor.Base.{
  ◌==◌, string_eq, nat_eq, if◌then◌else◌, any, filter, update_where, update_where-none,
}
use mathlib.Core.List.{append_assoc, append-nil}
use agent_factor.Messages.Inbox.{
  InboxMessage, InboxStatus, in_flight, delivered, failed, Desk, Terminals, TerminalStatus, is_idle,
  is_pending, is_for, set_status, formatted, deliver_entry, deliver_entries, deliver_pending,
  mark_in_flight,
}

module _ (terminals : Terminals) (receiver_id : String) where
  -- The inputs that the terminal takes, in the order of the queue.
  unfoldable pub inputs : List InboxMessage → List (String × String)
  inputs [] = []
  inputs (m ∷ ms) =
      let rest = inputs ms in
      if terminals.accepts receiver_id (formatted m)
      then (receiver_id, formatted m) ∷ rest
      else rest

  deliver_entries-sent :
      (ms : List InboxMessage) (d : Desk)
      → (deliver_entries terminals receiver_id ms d).sent ≡ d.sent ++ inputs ms
  unfolding deliver_entries deliver_entry inputs
  deliver_entries-sent [] d = ground (arith, append-nil d.sent)
  deliver_entries-sent (m ∷ ms) d = ground (
    arith,
    deliver_entries-sent ms (deliver_entry terminals receiver_id m d),
    append_assoc d.sent ((receiver_id, formatted m) ∷ []) (inputs ms),
  )

  -- A status that is not pending adds no pending message.
  any-set_status :
      (p : InboxMessage → Bool) (status : InboxStatus) (ms : List InboxMessage)
      → is_pending status ≡ false
      → any (is_for receiver_id) ms ≡ false
      → any (is_for receiver_id) (update_where p (set_status status) ms) ≡ false
  unfolding any update_where
  any-set_status p status [] h e = refl
  any-set_status p status (m ∷ ms) h e = ground (arith, any-set_status p status ms h)

  any-mark :
      (status : InboxStatus) (ms : List InboxMessage)
      → is_pending status ≡ false
      → any (is_for receiver_id) (update_where (is_for receiver_id) (set_status status) ms) ≡ false
  unfolding any update_where
  any-mark status [] h = refl
  any-mark status (m ∷ ms) h = ground (arith, any-mark status ms h)

  deliver_entry-any :
      (m : InboxMessage) (d : Desk)
      → any (is_for receiver_id) d.inbox ≡ false
      → any (is_for receiver_id) (deliver_entry terminals receiver_id m d).inbox ≡ false
  unfolding deliver_entry
  deliver_entry-any m d h =
      any-set_status (λ x. x.id == m.id)
        (if terminals.accepts receiver_id (formatted m) then delivered else failed) d.inbox
        (ground arith) h

  deliver_entries-any :
      (ms : List InboxMessage) (d : Desk)
      → any (is_for receiver_id) d.inbox ≡ false
      → any (is_for receiver_id) (deliver_entries terminals receiver_id ms d).inbox ≡ false
  unfolding deliver_entries
  deliver_entries-any [] d h = h
  deliver_entries-any (m ∷ ms) d h =
      deliver_entries-any ms (deliver_entry terminals receiver_id m d) (deliver_entry-any m d h)

  filter-none :
      (ms : List InboxMessage)
      → any (is_for receiver_id) ms ≡ false
      → filter (is_for receiver_id) ms ≡ []
  unfolding filter any
  filter-none [] h = refl
  filter-none (m ∷ ms) h = ground (arith, filter-none ms)

  idle_delivery :
      (status : TerminalStatus)
      → terminals.status receiver_id ≡ some status
      → is_idle status ≡ true
      → (x : Desk) → any (is_for receiver_id) x.inbox ≡ false
      → deliver_pending terminals receiver_id x ≡ x
  unfolding deliver_pending deliver_entries
  idle_delivery status e idle x h = ground (
    arith,
    e,
    idle,
    filter-none x.inbox h,
    update_where-none (is_for receiver_id) (set_status in_flight) x.inbox h,
  )

  module _ (d : Desk) (status : TerminalStatus) where
    -- A delivery to an idle terminal sends exactly the messages that were pending for it and that it
    -- takes, each once and in the order of the queue.
    pub deliver_pending-sent :
        terminals.status receiver_id ≡ some status
        → is_idle status ≡ true
        → (deliver_pending terminals receiver_id d).sent
          ≡ d.sent ++ inputs (filter (is_for receiver_id) d.inbox)
    unfolding deliver_pending
    deliver_pending-sent e idle = ground (
      arith,
      e,
      idle,
      deliver_entries-sent (filter (is_for receiver_id) d.inbox) (mark_in_flight receiver_id d),
    )

    delivered-any :
        terminals.status receiver_id ≡ some status
        → is_idle status ≡ true
        → any (is_for receiver_id) (deliver_pending terminals receiver_id d).inbox ≡ false
    unfolding deliver_pending
    delivered-any e idle = ground (
      arith,
      e,
      idle,
      deliver_entries-any (filter (is_for receiver_id) d.inbox) (mark_in_flight receiver_id d)
          (any-mark in_flight d.inbox refl),
    )

    -- After a delivery to an idle terminal no message for it is pending, and a second delivery changes
    -- nothing: no message is sent twice.
    pub deliver_pending-twice :
        terminals.status receiver_id ≡ some status
        → is_idle status ≡ true
        → let after = deliver_pending terminals receiver_id d in
          (any (is_for receiver_id) after.inbox ≡ false)
          × (deliver_pending terminals receiver_id after ≡ after)
    deliver_pending-twice e idle =
        let none_left = delivered-any e idle in
        (none_left, idle_delivery status e idle (deliver_pending terminals receiver_id d) none_left)
