-- ===== src/Security/Sync/Canary.antt =====
-- `verify`, `_validate_canary` and `_effective_assurance` of service.py: the proofs of a canary.
use agent_factor.Base.{
  ℕ, ◌+◌, String, Bool, true, false, not, ◌&&◌, ◌||◌, Option, none, some, List, [], ◌∷◌,
}
use agent_factor.Base.{
  ◌==◌, contains, string_eq, nat_eq, if◌then◌else◌, all, any, ltb, leb, str_length, every_char,
  is_alphanumeric, starts_with,
}
use agent_factor.Base.{Result, ok, err, guard, and_then, then_do}
use agent_factor.Base.{and_then as ◌>>=◌, then_do as ◌>>◌}
use agent_factor.Security.Model.{CheckStatus, pass, warn, fail, seconds}
use agent_factor.Security.Gateway.Ids.{drop_prefix}
use agent_factor.Security.Sync.Daemon.{
  CapabilityCheck, CanaryReceipt, sync_error, control_protocol_version,
}
use agent_factor.Security.Sync.Posture.{is_subset}

-- `CHECK_CODES`: the codes of a capability, and none of a capability that is not known.
unfoldable pub check_codes : String → List String
check_codes c =
    if c == "event_chain"
    then "event_chain_verified" ∷ "event_chain_empty" ∷ "event_chain_invalid"
      ∷ "event_store_unavailable" ∷ []
    else if c == "coverage_gaps"
    then "coverage_gaps_clear" ∷ "coverage_gaps_open" ∷ "coverage_gap_query_failed"
      ∷ "coverage_unknown" ∷ []
    else if c == "contract_registry"
    then "registry_managed" ∷ "registry_unmanaged" ∷ "registry_invalid" ∷ "registry_unknown" ∷ []
    else if c == "policy_engine"
    then "policy_engine_loaded" ∷ "policy_engine_invalid" ∷ "contract_load_failed"
      ∷ "no_active_project_contract" ∷ []
    else if c == "workspace_baseline"
    then "baseline_current" ∷ "baseline_missing" ∷ "baseline_invalid" ∷ "baseline_scan_failed"
      ∷ "baseline_changed" ∷ "baseline_files_skipped" ∷ []
    else if c == "hook_observation"
    then "hook_observation_missing" ∷ "hook_history_invalid" ∷ []
    else if c == "hook.claude-code" || c == "hook.codex"
    then "hook_not_configured" ∷ "hook_not_observed" ∷ "hook_observation_stale" ∷ "hook_observed"
      ∷ []
    else if c == "guarded_execution"
    then "guarded_history_invalid" ∷ "guarded_launch_unobserved" ∷ "guarded_launch_without_actions"
      ∷ "guarded_launch_observed" ∷ []
    else []

abbrev check_metrics : List String
check_metrics = "open" ∷ "active" ∷ "changes" ∷ "skipped" ∷ "actions" ∷ "hook_events" ∷ []

abbrev pub required_canary_capabilities : List String
required_canary_capabilities =
    "event_chain" ∷ "coverage_gaps" ∷ "contract_registry" ∷ "policy_engine" ∷ "workspace_baseline"
    ∷ []

-- `[A-Za-z0-9_.:-]{1,200}`
is_receipt : String → Bool
unfolding str_length every_char is_alphanumeric nat_eq
is_receipt s =
    ltb 0 (str_length s)
    && leb (str_length s) 200
    && every_char (λ c. is_alphanumeric c || contains (b'_' ∷ b'.' ∷ b':' ∷ b'-' ∷ []) c) s

-- `(?:event|object):[A-Za-z0-9_.:-]{1,200}`
is_evidence_ref : String → Bool
unfolding is_receipt
is_evidence_ref s = elim (drop_prefix "event:" s) [
  | some rest ↦ is_receipt rest
  | none ↦ elim (drop_prefix "object:" s) [ some rest ↦ is_receipt rest | none ↦ false ]
]

unfoldable pub status_of : String → Option CheckStatus
status_of s =
    if s == "pass"
    then some pass
    else if s == "warn"
    then some warn
    else if s == "fail"
    then some fail
    else none

-- The aggregate after one more check.
unfoldable pub worsen : CheckStatus → (required : Bool) → CheckStatus → CheckStatus
worsen a false s = a
worsen a true fail = fail
worsen pass true warn = warn
worsen a true _ = a

fails : {A : Type 0} → Result A
fails = err sync_error 500

-- `parse` is `datetime.fromisoformat` of a text with `Z` for `+00:00`: microseconds, and whether a
-- time zone is given; `none` where it raises ValueError.
module _ (parse : String → Option (ℕ × Bool)) where
  -- A time with a zone.
  unfoldable pub time_of : String → Result ℕ
  unfolding fails
  time_of text = elim (parse text) [
    | none ↦ fails
    | some (t, zoned) ↦ if zoned then ok t else fails
  ]

  observed : Option String → Result (Unit {0})
  observed none = ok tt
  observed (some text) = then_do (time_of text) (ok tt)

  -- The body of the loop over the checks, before the aggregate.
  unfoldable pub check_one : List String → CapabilityCheck → Result CheckStatus
  unfolding fails is_evidence_ref observed
  check_one seen c =
      if contains seen c.capability || not (contains (check_codes c.capability) c.code)
      then fails
      else elim (status_of c.status) [
        | none ↦ fails
        | some status ↦ do
          guard (all (λ (m : String × ℕ). contains check_metrics m.0) c.metrics) sync_error 500
          guard (all is_evidence_ref c.evidence_refs) sync_error 500
          observed c.observed_at
          ok status
      ]

  -- The loop: the capabilities that are required, and the aggregate.
  unfoldable pub check_all :
      List String → CheckStatus → List CapabilityCheck → Result (List String × CheckStatus)
  check_all seen aggregate [] = ok ([], aggregate)
  check_all seen aggregate (c ∷ cs) = and_then (check_one seen c) (λ status.
      and_then (check_all (c.capability ∷ seen) (worsen aggregate c.required status) cs)
        (λ rest. ok ((if c.required then c.capability ∷ rest.0 else rest.0), rest.1)))

  is_hook : String → Bool
  is_hook name = name == "hook_observation" || starts_with name "hook."

  -- `_validate_canary`: the times of the receipt and its status.
  unfoldable pub validate_canary :
      ℕ → CanaryReceipt → String → String → Result (ℕ × ℕ × CheckStatus)
  unfolding fails is_hook is_receipt
  validate_canary now r integration_id project_id = do
    guard
        (r.protocol_version == control_protocol_version
          && r.workspace_id == integration_id
          && r.project_id == project_id
          && r.attestation == "local-unsigned"
          && is_receipt r.receipt_id)
        sync_error 500
    status ← elim (status_of r.status) [ none ↦ fails | some status ↦ ok status ]
    checked_at ← time_of r.checked_at
    expires_at ← time_of r.expires_at
    guard (ltb checked_at expires_at && leb expires_at (checked_at + seconds 1800)) sync_error 500
    guard (leb checked_at (now + seconds 60)) sync_error 500
    (required, aggregate) ← check_all [] pass r.checks
    guard (is_subset required_canary_capabilities required) sync_error 500
    guard (any is_hook required) sync_error 500
    guard
        (elim aggregate [
          | pass ↦ elim status [ pass ↦ true | _ ↦ false ]
          | warn ↦ elim status [ warn ↦ true | _ ↦ false ]
          | fail ↦ elim status [ fail ↦ true | _ ↦ false ]
        ])
        sync_error 500
    ok (checked_at, expires_at, status)
