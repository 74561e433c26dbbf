-- ===== src/Security/Sync/Chains.antt =====
-- Chains of events, and the rows that are stored of them.
use agent_factor.Base.{
  ℕ, ◌+◌, ◌≤◌, String, Bool, true, ◌≡◌, refl, arith, some, List, [], ◌∷◌, ◌++◌, sym, ◌∙◌, inl, inr,
  ◌⊎◌, ap,
}
use agent_factor.Base.{◌==◌, nat_eq, string_eq, find?, Bool-cases}
use agent_factor.Security.Model.{SecurityEvent}
use agent_factor.Security.Sync.Daemon.{DaemonEvent}

-- From the sequence `s` and the hash `h`, the events lead to `t` and `g`: each has the next sequence and
-- names the hash of the one before it.
abbrev pub Chain : ℕ → String → List DaemonEvent → ℕ → String → Type 0
Chain s h [] t g = (s ≡ t) × (h ≡ g)
Chain s h (e ∷ es) t g =
    (e.sequence ≡ s + 1) × (e.previous_hash ≡ h) × Chain e.sequence e.event_hash es t g

Chain-le :
    (s : ℕ) (h : String) (es : List DaemonEvent) (t : ℕ) (g : String) → Chain s h es t g → s ≤ t
Chain-le s h [] t g (e, _) = omega (arith, e)
Chain-le s h (e ∷ es) t g (next, _, c) =
    omega (arith, next, Chain-le e.sequence e.event_hash es t g c)

-- A chain that leads no further is empty.
pub Chain-same :
    (s : ℕ) (h : String) (es : List DaemonEvent) (t : ℕ) (g : String)
    → Chain s h es t g
    → t ≤ s
    → h ≡ g
Chain-same s h [] t g (_, same) le = same
Chain-same s h (e ∷ es) t g (next, _, c) le =
    absurd (omega (arith, next, le, Chain-le e.sequence e.event_hash es t g c))

pub Chain-append :
    (s : ℕ) (h : String) (es : List DaemonEvent) (t : ℕ) (g : String) (e : DaemonEvent)
    → Chain s h es t g
    → e.sequence ≡ t + 1
    → e.previous_hash ≡ g
    → Chain s h (es ++ e ∷ []) e.sequence e.event_hash
Chain-append s h [] t g e (at, same) next names = (rw at next, names ∙ sym same, (refl, refl))
Chain-append s h (d ∷ es) t g e (first, prev, c) next names =
    (first, prev, Chain-append d.sequence d.event_hash es t g e c next names)

-- The row keeps what links the event.
abbrev pub IsRowOf : DaemonEvent → SecurityEvent → Type 0
IsRowOf e r =
    (r.upstream_event_id ≡ e.event_id)
    × (r.sequence ≡ e.sequence)
    × (r.previous_hash ≡ e.previous_hash)
    × (r.event_hash ≡ e.event_hash)

-- The rows are those of the events in their order, save for events whose identifier is known.
abbrev pub Stores : (String → Bool) → List DaemonEvent → List SecurityEvent → Type 0
Stores known [] rows = rows ≡ []
Stores known (e ∷ es) rows =
    ((known e.event_id ≡ true) × Stores known es rows)
    ⊎ ((r : SecurityEvent) × (rest : List SecurityEvent) × (rows ≡ r ∷ rest)
        × IsRowOf e r
        × Stores known es rest)

pub Stores-skip :
    (known : String → Bool) (es : List DaemonEvent) (rows : List SecurityEvent) (e : DaemonEvent)
    → Stores known es rows
    → known e.event_id ≡ true
    → Stores known (es ++ e ∷ []) rows
Stores-skip known [] rows e none_stored k = inl (k, none_stored)
Stores-skip known (d ∷ es) rows e (inl (k', s)) k = inl (k', Stores-skip known es rows e s k)
Stores-skip known (d ∷ es) rows e (inr (r, rest, same, is_row, s)) k =
    inr (r, rest, same, is_row, Stores-skip known es rest e s k)

pub Stores-append :
    (known : String → Bool) (es : List DaemonEvent) (rows : List SecurityEvent) (e : DaemonEvent)
    (r : SecurityEvent)
    → Stores known es rows
    → IsRowOf e r
    → Stores known (es ++ e ∷ []) (rows ++ r ∷ [])
Stores-append known [] rows e r empty is_row =
    inr (r, [], ap (λ l. l ++ r ∷ []) empty, is_row, refl)
Stores-append known (d ∷ es) rows e r (inl (k, s)) is_row =
    inl (k, Stores-append known es rows e r s is_row)
Stores-append known (d ∷ es) rows e r (inr (q, rest, same, is_row', s)) is_row = inr (
  q,
  rest ++ r ∷ [],
  ap (λ l. l ++ r ∷ []) same,
  is_row',
  Stores-append known es rest e r s is_row,
)

-- More identifiers may become known.
pub Stores-mono :
    (known known' : String → Bool) (es : List DaemonEvent) (rows : List SecurityEvent)
    → ((id : String) → known id ≡ true → known' id ≡ true)
    → Stores known es rows
    → Stores known' es rows
Stores-mono known known' [] rows more s = s
Stores-mono known known' (e ∷ es) rows more (inl (k, s)) =
    inl (more e.event_id k, Stores-mono known known' es rows more s)
Stores-mono known known' (e ∷ es) rows more (inr (r, rest, same, is_row, s)) =
    inr (r, rest, same, is_row, Stores-mono known known' es rest more s)

-- A row with the last sequence of the chain has its last hash.
pub Stores-last :
    (known : String → Bool) (s : ℕ) (h : String) (es : List DaemonEvent) (t : ℕ) (g : String)
    (rows : List SecurityEvent) (r : SecurityEvent)
    → Chain s h es t g
    → Stores known es rows
    → find? (λ e. e.sequence == t) rows ≡ some r
    → g ≡ r.event_hash
unfolding find?
Stores-last known s h [] t g rows r c empty found = absurd (ground (arith, found, empty))
Stores-last known s h (e ∷ es) t g rows r (_, _, c) (inl (_, st)) found =
    Stores-last known e.sequence e.event_hash es t g rows r c st found
Stores-last known s h (e ∷ es) t g rows r (_, _, c) (inr (q, rest, same, (_, seq, _, own), st))
      found =
    elim (Bool-cases (q.sequence == t)) [
      | inl here ↦
          let at : q.sequence ≡ t = ground (arith, here) in
          sym (Chain-same e.sequence e.event_hash es t g c (omega (arith, at, seq)))
          ∙ (sym own ∙ ground (arith, same, here, found))
      | inr there ↦
          Stores-last known e.sequence e.event_hash es t g rest r c st
            (ground (arith, same, there, found))
    ]
