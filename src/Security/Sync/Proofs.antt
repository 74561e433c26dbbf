-- ===== src/Security/Sync/Proofs.antt =====
-- The proofs that `verify` of service.py stores, and `_effective_assurance`.
pub mod Effective
use agent_factor.Base.{
  ℕ, ◌+◌, String, ◌<>◌, Bool, true, false, not, ◌&&◌, ◌||◌, ◌≡◌, refl, arith, Option, none, some,
  List, [], ◌∷◌,
}
use agent_factor.Base.{
  ◌==◌, contains, string_eq, if◌then◌else◌, all, any, filter, leb, update_where, Bool-cases,
}
use agent_factor.Base.{Result, ok, err, guard, and_then, then_do, Exec}
use agent_factor.Store.{get}
use agent_factor.Store.Upsert.{upsert}
use agent_factor.Security.Model.{
  Db, State, Integration, Assurance, CapabilityProof, CheckStatus, pass, warn, fail, session_scope,
  commit,
}
use agent_factor.Security.Sync.Daemon.{CapabilityCheck, CanaryReceipt, Daemon, answer, sync_error}
use agent_factor.Security.Sync.Posture.{capabilities, is_subset, handle_failure}
use agent_factor.Security.Sync.Canary.{validate_canary, status_of}

abbrev pub is_pass : CheckStatus → Bool
is_pass pass = true
is_pass _ = false

abbrev pub is_fail : CheckStatus → Bool
is_fail fail = true
is_fail _ = false

-- A time of a hook that is set.
abbrev pub has_hook : Option String → Bool
has_hook none = false
has_hook (some at) = not (at == "")

abbrev pub is_required : CapabilityProof → Bool
is_required p = p.required

-- What the required proofs say, of which there are some.
unfoldable pub required_assurance : ℕ → Integration → List CapabilityProof → Assurance
required_assurance now i required =
    if any (λ q. leb q.expires_at now) required
    then Assurance.degraded
    else if any (λ q. is_fail q.status) required
    then Assurance.degraded
    else if all (λ q. is_pass q.status) required
    then Assurance.verified
    else if has_hook i.last_hook_at
    then Assurance.observed
    else Assurance.unknown

-- `_effective_assurance`
unfoldable pub effective_assurance : ℕ → Integration → List CapabilityProof → Assurance
unfolding required_assurance
effective_assurance now i proofs = elim (filter is_required proofs) [
  | [] ↦ i.assurance
  | p ∷ ps ↦ required_assurance now i (p ∷ ps)
]

-- The columns that a check writes.
abbrev set_proof :
    CanaryReceipt → ℕ → ℕ → CapabilityCheck → CheckStatus → CapabilityProof → CapabilityProof
set_proof r checked_at expires_at c status p = record p {
  receipt_id = r.receipt_id;
  capability = c.capability;
  status = status;
  code = c.code;
  required = c.required;
  observed_at = c.observed_at;
  evidence_refs = c.evidence_refs;
  metrics = c.metrics;
  attestation = r.attestation;
  checked_at = checked_at;
  expires_at = expires_at;
}

abbrev new_proof : String → CanaryReceipt → ℕ → ℕ → CapabilityCheck → CheckStatus → CapabilityProof
new_proof integration_id r checked_at expires_at c status = record {
  id = integration_id <> ":" <> c.capability;
  integration_id = integration_id;
  receipt_id = r.receipt_id;
  capability = c.capability;
  status = status;
  code = c.code;
  required = c.required;
  observed_at = c.observed_at;
  evidence_refs = c.evidence_refs;
  metrics = c.metrics;
  attestation = r.attestation;
  checked_at = checked_at;
  expires_at = expires_at;
}

-- The status of a check of a receipt that was accepted.
abbrev accepted_status : Option CheckStatus → CheckStatus
accepted_status none = fail
accepted_status (some status) = status

-- The loop that stores a proof for each check.
unfoldable pub store_proofs :
    String
    → CanaryReceipt
    → ℕ
    → ℕ
    → List CapabilityCheck
    → List CapabilityProof
    → List CapabilityProof
store_proofs integration_id r checked_at expires_at [] rows = rows
store_proofs integration_id r checked_at expires_at (c ∷ cs) rows =
    let status = accepted_status (status_of c.status) in
    store_proofs integration_id r checked_at expires_at cs (
      upsert (λ p. p.id) (integration_id <> ":" <> c.capability)
        (new_proof integration_id r checked_at expires_at c status)
        (set_proof r checked_at expires_at c status) rows)

capability_names : List CapabilityCheck → List String
capability_names [] = []
capability_names (c ∷ cs) = c.capability ∷ capability_names cs

abbrev is_stale : String → List String → CapabilityProof → Bool
is_stale integration_id current p =
    p.integration_id == integration_id && not (contains current p.capability)

-- What a status means for an integration with its last hook.
unfoldable pub stored_assurance : CheckStatus → Option String → Assurance
stored_assurance pass hook = Assurance.verified
stored_assurance fail hook = Assurance.degraded
stored_assurance warn hook = if has_hook hook then Assurance.observed else Assurance.unknown

-- The transaction that stores a receipt: proofs of other capabilities go.
unfoldable pub store_receipt :
    String → Option String → CanaryReceipt → ℕ × ℕ × CheckStatus → Db → Result (Unit {0} × Db)
unfolding store_proofs stored_assurance capability_names
store_receipt integration_id hook r times db =
    elim (get (λ i. i.id) integration_id db.integrations) [
      | none ↦ err sync_error 500
      | some _ ↦ ok (
        tt,
        record db {
          proofs =
              store_proofs integration_id r times.0 times.1 r.checks (
                filter (λ p. not (is_stale integration_id (capability_names r.checks) p))
                  db.proofs);
          integrations =
              update_where (λ i. i.id == integration_id)
                (λ i. record i { assurance = stored_assurance times.2 hook }) db.integrations;
        },
      )
    ]

-- What the two calls of the daemon have to say.
unfoldable pub read_canary :
    (String → Option (ℕ × Bool))
    → ℕ
    → Daemon
    → Integration
    → Result (CanaryReceipt × (ℕ × ℕ × CheckStatus))
read_canary parse now daemon i = and_then (capabilities daemon) (λ c.
    then_do (guard (is_subset ("coverage" ∷ "canary" ∷ []) c.operations) sync_error 500) (
      and_then (answer (daemon.canary i.id))
        (λ r. and_then (validate_canary parse now r i.id i.project_id) (λ times. ok (r, times)))))

-- The dict of `integration`, as far as it is computed.
pub record IntegrationView : Type 0 where
  pub integration : Integration
  pub assurance : Assurance
  pub proofs : List CapabilityProof

-- `integration`
unfoldable pub integration_view : ℕ → String → Db → Option IntegrationView
integration_view now integration_id db = elim (get (λ i. i.id) integration_id db.integrations) [
  | none ↦ none
  | some i ↦
      let own = filter (λ p. p.integration_id == integration_id) db.proofs in
      some (record { integration = i; assurance = effective_assurance now i own; proofs = own })
]

view_or_raise : Option IntegrationView → Result IntegrationView
view_or_raise none = err sync_error 500
view_or_raise (some v) = ok v

-- The second transaction of `verify`, and the answer.
store_and_view :
    ℕ
    → Integration
    → Result (CanaryReceipt × (ℕ × ℕ × CheckStatus)) × State
    → Result IntegrationView × State
unfolding view_or_raise
store_and_view now i (err e n, s) = (err e n, s)
store_and_view now i (ok (r, times), s) = elim (store_receipt i.id i.last_hook_at r times s.db) [
  | err e n ↦ (err e n, s)
  | ok (_, db') ↦ (view_or_raise (integration_view now i.id db'), record s { db = db' })
]

module _ (parse : String → Option (ℕ × Bool)) where
  -- `verify`
  unfoldable pub verify : ℕ → Daemon → String → Exec State IntegrationView
  unfolding store_and_view
  verify now daemon integration_id s = elim (get (λ i. i.id) integration_id s.db.integrations) [
    | none ↦ (err sync_error 500, s)
    | some i ↦ store_and_view now i (handle_failure now daemon (read_canary parse now daemon i, s))
  ]
