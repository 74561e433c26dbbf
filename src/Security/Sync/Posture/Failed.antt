-- ===== src/Security/Sync/Posture/Failed.antt =====
-- What `sync` leaves when it raises, and that it ends.
use agent_factor.Base.{
  ℕ, String, Bool, true, false, not, ◌&&◌, ◌||◌, ◌≡◌, refl, arith, Option, none, some, List, [],
  ◌∷◌, inl, inr, ◌⊎◌,
}
use agent_factor.Base.{◌==◌, ==-refl, string_eq, all, update_where, Bool-cases}
use agent_factor.Base.{Result, ok, err, Result-cases}
use mathlib.Core.Option.{some-injective}
use agent_factor.Store.{get}
use agent_factor.Store.Upsert.{get-upsert, upserted}
use agent_factor.Security.Model.{Db, State, Assurance, Integration, Endpoint}
use agent_factor.Security.Sync.Daemon.{Capabilities, Daemon, Posture, sync_error}
use agent_factor.Security.Sync.Posture.{
  endpoint_id, at_endpoint, set_degraded, set_endpoint_row, new_endpoint, upsert_endpoint,
  failure_code, code_of, record_endpoint_failure, is_caught, handle_failure, handle_loop,
  finish_sync, SyncReport, sync, read_posture, sync_workspaces,
}

abbrev is_degraded : Integration → Bool
is_degraded i = i.status == "degraded" && elim i.assurance [ Assurance.degraded ↦ true | _ ↦ false ]

all-update_where :
    (rows : List Integration)
    → all (λ i. not (at_endpoint i) || is_degraded i) (update_where at_endpoint set_degraded rows)
      ≡ true
unfolding all update_where
all-update_where [] = refl
all-update_where (i ∷ rows) = ground (arith, all-update_where rows, ==-refl {A = String} "degraded")

-- The status and the error that each exception has to leave at the endpoint.
abbrev pub RecordedAs : (cause status error : String) → Type 0
RecordedAs cause status error =
    ((cause ≡ "ACRUnavailableError") × (status ≡ "offline") × (error ≡ "acr_unavailable"))
    ⊎ (((cause ≡ "ACRIncompatibleError") ⊎ (cause ≡ sync_error))
        × (status ≡ "incompatible")
        × (error ≡ "acr_security_evidence_rejected"))
    ⊎ ((cause ≡ "ACRClientError") × (status ≡ "offline") × (error ≡ "acr_request_failed"))

-- Every integration of the daemon is degraded, and its endpoint has the status and the error of the
-- exception.
abbrev pub IsDegraded : String → Db → Type 0
IsDegraded cause db =
    (all (λ i. not (at_endpoint i) || is_degraded i) db.integrations ≡ true)
    × ((e : Endpoint) × (error : String) × (get (λ x. x.id) endpoint_id db.endpoints ≡ some e)
        × (e.last_error ≡ some error)
        × RecordedAs cause e.status error)

-- The exception that the body of the `try` raises: from the capabilities or the posture, or from the
-- loop over the workspaces.
abbrev pub Raises : ℕ → Daemon → ℕ → State → String → Type 0
Raises now daemon fuel s cause =
    ((n : ℕ) × (read_posture daemon ≡ err cause n))
    ⊎ ((c : Capabilities) × (posture : Posture) × (n : ℕ) × (s' : State) × (read_posture daemon
          ≡ ok (c, posture))
        × (sync_workspaces daemon fuel c.maximum_page_size posture.workspaces 0
              (record s { db = upsert_endpoint now daemon (some c) "healthy" none s.db })
            ≡ some (err cause n, s')))

failure_code-RecordedAs :
    (cause : String)
    → is_caught cause ≡ true
    → RecordedAs cause (failure_code cause).0 (failure_code cause).1
unfolding is_caught failure_code code_of
failure_code-RecordedAs cause h = elim (Bool-cases (cause == "ACRUnavailableError")) [
  | inl e ↦ inl (ground (arith, e), ground (arith, e), ground (arith, e))
  | inr e ↦ elim (Bool-cases (cause == "ACRIncompatibleError")) [
    | inl f ↦ inr (inl (inl (ground (arith, f)), ground (arith, e, f), ground (arith, e, f)))
    | inr f ↦ elim (Bool-cases (cause == sync_error)) [
      | inl g ↦ inr (inl (inr (ground (arith, g)), ground (arith, e, g), ground (arith, e, g)))
      | inr g ↦
          inr (inr (ground (arith, e, f, g, h), ground (arith, e, f, g), ground (arith, e, f, g)))
    ]
  ]
]

set_endpoint_row-none :
    (now : ℕ) (socket_path status : String) (error : Option String) (o : Option Endpoint)
    → (upserted
        (λ e. e.id)
        (set_endpoint_row now socket_path none status error (new_endpoint socket_path))
        (set_endpoint_row now socket_path none status error)
        o).last_error
      ≡ error
unfolding set_endpoint_row
set_endpoint_row-none now socket_path status error none = refl
set_endpoint_row-none now socket_path status error (some e) = refl

set_endpoint_row-status :
    (now : ℕ) (socket_path status : String) (error : Option String) (o : Option Endpoint)
    → (upserted
        (λ e. e.id)
        (set_endpoint_row now socket_path none status error (new_endpoint socket_path))
        (set_endpoint_row now socket_path none status error)
        o).status
      ≡ status
unfolding set_endpoint_row
set_endpoint_row-status now socket_path status error none = refl
set_endpoint_row-status now socket_path status error (some e) = refl

record_endpoint_failure-IsDegraded :
    (now : ℕ) (daemon : Daemon) (e : String) (db : Db)
    → is_caught e ≡ true
    → IsDegraded e (record_endpoint_failure now daemon e db)
unfolding record_endpoint_failure upsert_endpoint set_endpoint_row
record_endpoint_failure-IsDegraded now daemon e db caught =
    let before = get (λ x. x.id) endpoint_id db.endpoints in
    let status = (failure_code e).0 in
    let error = some (failure_code e).1 in
    (
      all-update_where db.integrations,
      (
        upserted (λ x. x.id)
            (set_endpoint_row now daemon.socket_path none status error
              (new_endpoint daemon.socket_path))
            (set_endpoint_row now daemon.socket_path none status error) before,
        (failure_code e).1,
        get-upsert (λ x. x.id) endpoint_id _ _ (λ x. refl) db.endpoints
            (==-refl {A = String} endpoint_id),
        set_endpoint_row-none now daemon.socket_path status error before,
        rw (set_endpoint_row-status now daemon.socket_path status error before)
            (failure_code-RecordedAs e caught),
      ),
    )

-- Of a handled failure the tables say so; one that is not caught has another name.
handle_failure-IsDegraded :
    {A : Type 0} (now : ℕ) (daemon : Daemon) (e : String) (m n : ℕ) (s' s : State)
    → handle_failure {A = A} now daemon (err e m, s') ≡ (err sync_error n, s)
    → IsDegraded e s.db
unfolding handle_failure is_caught
handle_failure-IsDegraded now daemon e m n s' s h = elim (Bool-cases (is_caught e)) [
  | inl caught ↦
      let same : s.db ≡ record_endpoint_failure now daemon e s'.db = ground (arith, caught, h) in
      rw same (record_endpoint_failure-IsDegraded now daemon e s'.db caught)
  | inr passes ↦
      let same : e ≡ sync_error = ground (arith, passes, h) in
      absurd (ground (arith, passes, same, ==-refl {A = String} sync_error))
]

-- The loop raised, where its result is turned into this exception.
handle_loop-IsDegraded :
    (now : ℕ) (daemon : Daemon) (posture : Posture) (out : Option (Result ℕ × State)) (n : ℕ)
    (s : State)
    → handle_loop now daemon posture out ≡ some (err sync_error n, s)
    → (cause : String) × (m : ℕ) × (s' : State) × (out ≡ some (err cause m, s'))
      × IsDegraded cause s.db
unfolding handle_loop finish_sync handle_failure
handle_loop-IsDegraded now daemon posture none n s h = absurd (ground arith)
handle_loop-IsDegraded now daemon posture (some (ok k, s')) n s h = absurd (ground arith)
handle_loop-IsDegraded now daemon posture (some (err e m, s')) n s h = (
  e,
  m,
  s',
  refl,
  handle_failure-IsDegraded {A = SyncReport} now daemon e m n s' s (some-injective _ _ h),
)

-- A synchronization that raises `SecuritySyncError` caught an exception, degraded every integration of
-- the daemon, and recorded the exception at the endpoint: a daemon that is not available as offline
-- with acr_unavailable, an incompatible daemon or rejected evidence as incompatible with
-- acr_security_evidence_rejected, and any other failure of the client as offline with
-- acr_request_failed.
pub sync-IsDegraded :
    (now : ℕ) (daemon : Daemon) (fuel n : ℕ) (s s' : State)
    → sync now daemon fuel s ≡ some (err sync_error n, s')
    → (cause : String) × Raises now daemon fuel s cause × IsDegraded cause s'.db
unfolding sync
sync-IsDegraded now daemon fuel n s s' h = elim (Result-cases (read_posture daemon)) [
  | inr (e, m, f) ↦ (
    e,
    inl (m, f),
    handle_failure-IsDegraded {A = SyncReport} now daemon e m n s s'
        (some-injective _ _ (ground (arith, f, h))),
  )
  | inl ((c, posture), f) ↦
      let (cause, m, s'', raised, degraded) =
        handle_loop-IsDegraded now daemon posture
          (sync_workspaces daemon fuel c.maximum_page_size posture.workspaces 0
            (record s { db = upsert_endpoint now daemon (some c) "healthy" none s.db }))
          n s' (ground (arith, f, h)) in
      (cause, inr (c, posture, m, s'', f, raised), degraded)
]
