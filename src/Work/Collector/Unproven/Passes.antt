-- ===== src/Work/Collector/Unproven/Passes.antt =====
-- No tick of the collector closes a window whose item requires a type that it does not produce.
use mathlib.Core.Path.{subst}
use agent_factor.Base.{
  ℕ, ◌*◌, ◌/◌, String, true, false, ◌||◌, ◌≡◌, refl, arith, none, some, List, [], ◌∷◌, inl, inr,
  sym, ◌⊎◌,
}
use agent_factor.Base.{◌==◌, string_eq, nat_eq, ltb, find?, decimal, Option-cases, Bool-cases}
use agent_factor.Base.{
  Result, ok, err, Exec, pure, raise, continue, and_then-eq-ok, Result-cases, ◌>>◌,
}
use agent_factor.Json.{
  Json, Fields, get_field, as_str?, as_dict?, array, nil, get_field_or, object, field, str, end,
  number,
}
use agent_factor.Store.{get}
use agent_factor.Work.Graph.{WorkItem, in_progress, ProofWindow, expired_window}
use agent_factor.Work.Collector.{
  Collector, Clues, Commit, EventRow, add_proof, proof_type, window_of, is_open, end_window, emit,
  or_empty,
}
use agent_factor.Work.Collector.Ticks.{
  for_each, signal_to_proof, add_signal, evaluate_signal, scan_event, scan_rows,
  scan_terminal_signals, recent_signals, commit_proof, check_git_for_window, check_git_proofs,
  matches_work_item, tell_owner, expire_window, handle_expirations, tick, open_windows, test_proof,
  completion_proof, cut, passed_count, owned_by, last_id,
}
use agent_factor.Work.Collector.Unproven.{is_type, IsUnproven}
use agent_factor.Work.Collector.Unproven.Never.{add_proof-Unproven, end_window-Unproven}

proof_type-typed :
    (t : String) (rest : Fields) → proof_type (object (field "type" (str t) rest)) ≡ ok t
unfolding proof_type get_field string_eq
proof_type-typed t rest = refl

module _ (r : String) (window_id : ℕ) (item_id : String) (no_test : ("test_pass" == r) ≡ false)
    (no_completion : ("completion_signal" == r) ≡ false)
    (no_commit : ("git_commit" == r) ≡ false) where
  -- A proof of another type is not of the type.
  typed :
      (p : Json) (t : String) (rest : Fields)
      → p ≡ object (field "type" (str t) rest)
      → (t == r) ≡ false
      → is_type r p ≡ false
  typed p t rest e h = rw (e, proof_type-typed t rest) h

  -- A pass keeps the window open.
  record Holds (m : Exec Collector (Unit {0})) : Type 0 where
    pub at :
        (c : Collector)
        → IsUnproven r window_id item_id c.graph
        → IsUnproven r window_id item_id (m c).1.graph

  Holds-pure : Holds (pure tt)
  Holds-pure = record { at = λ c u. u }

  Holds-raise : (e : String) (n : ℕ) → Holds (raise e n)
  Holds-raise e n = record { at = λ c u. u }

  continue-Holds :
      (f : Unit {0} → Exec Collector (Unit {0}))
      → ((a : Unit {0}) → Holds (f a))
      → (x : Result (Unit {0}) × Collector) → IsUnproven r window_id item_id x.1.graph
      → IsUnproven r window_id item_id (continue x.0 f x.1).1.graph
  continue-Holds f h (ok a, c) u = (h a).at c u
  continue-Holds f h (err e n, c) u = u

  Holds-then : (m k : Exec Collector (Unit {0})) → Holds m → Holds k → Holds (m >> k)
  Holds-then m k hm hk = record { at = λ c u. continue-Holds (λ _. k) (λ _. hk) (m c) (hm.at c u) }

  Holds-for_each :
      {A : Type 0} (step : A → Exec Collector (Unit {0}))
      → ((x : A) → Holds (step x))
      → (xs : List A) → Holds (for_each step xs)
  unfolding for_each
  Holds-for_each step h [] = Holds-pure
  Holds-for_each step h (x ∷ xs) =
      Holds-then (step x) (for_each step xs) (h x) (Holds-for_each step h xs)

  module _ (clues : Clues) (now : ℕ) where
    test_proof-is_type :
        (n : ℕ) (payload : Fields) (p : Json)
        → test_proof clues now n payload ≡ ok (some p)
        → is_type r p ≡ false
    unfolding test_proof
    test_proof-is_type n payload p h = elim (Bool-cases (ltb 0 n)) [
      | inr no_tests ↦ absurd (ground (arith, no_tests, h))
      | inl tests ↦
          let (excerpt, _, h1) =
            and_then-eq-ok (cut (get_field_or "excerpt" (str "") payload)) _ (rw tests at h) in
          typed p "test_pass"
            (field "passed_count" (number (decimal n))
              (field "excerpt" excerpt (field "received_at" (str (clues.isoformat now)) end)))
            (ground (arith, h1)) no_test
    ]

    completion_proof-is_type :
        (payload : Fields) (p : Json)
        → completion_proof clues now payload ≡ ok (some p)
        → is_type r p ≡ false
    unfolding completion_proof
    completion_proof-is_type payload p h =
        let (excerpt, _, h1) = and_then-eq-ok (cut (get_field_or "excerpt" (str "") payload)) _ h in
        typed p "completion_signal"
          (field "excerpt" excerpt (field "received_at" (str (clues.isoformat now)) end))
          (ground (arith, h1)) no_completion

    -- A signal gives no proof of the type.
    signal_to_proof-is_type :
        (signal : String) (payload : Fields) (p : Json)
        → signal_to_proof clues now signal payload ≡ ok (some p)
        → is_type r p ≡ false
    unfolding signal_to_proof
    signal_to_proof-is_type signal payload p h = elim (Bool-cases (signal == "TEST_RESULT")) [
      | inl tests ↦
          let (n, _, h1) =
            and_then-eq-ok (passed_count clues.int_of (get_field_or "groups" (array nil) payload)) _
              (rw tests at h) in
          test_proof-is_type n payload p h1
      | inr other ↦ elim (Bool-cases (signal == "COMPLETION_SIGNAL")) [
        | inl completion ↦ completion_proof-is_type payload p (ground (arith, other, completion, h))
        | inr neither ↦ absurd (ground (arith, other, neither, h))
      ]
    ]

    add_signal-Holds :
        (signal : String) (payload : Fields) (j : ℕ) → Holds (add_signal clues now signal payload j)
    unfolding add_signal
    add_signal-Holds signal payload j = record {
      at = λ c u. elim (Result-cases (signal_to_proof clues now signal payload)) [
        | inr (_, _, e) ↦ rw e u
        | inl (none, e) ↦ rw e u
        | inl (some p, e) ↦ rw e (
            add_proof-Unproven r window_id item_id now j p c
              (signal_to_proof-is_type signal payload p e) u)
      ];
    }

    evaluate_signal-Holds :
        (terminal_id signal : String) (payload : Fields)
        → Holds (evaluate_signal clues now terminal_id signal payload)
    unfolding evaluate_signal
    evaluate_signal-Holds terminal_id signal payload = record {
      at = λ c u.
          (Holds-for_each (add_signal clues now signal payload) (add_signal-Holds signal payload)
              (open_windows (owned_by clues now terminal_id c.graph.items) c.graph.windows)).at
            c u;
    }

    -- An event is passed over, or evaluated for its terminal.
    scan_event-cases :
        (e : EventRow) (c : Collector)
        → ((scan_event clues now e c).1 ≡ c)
          ⊎ ((terminal_id signal : String) × (payload : Fields) × (scan_event clues now e c
                ≡ evaluate_signal clues now terminal_id signal payload c))
    unfolding scan_event
    scan_event-cases e c = elim (Option-cases (as_dict? e.payload)) [
      | inl f ↦ inl (ground (arith, f))
      | inr (payload, f) ↦ elim (Option-cases (get_field "signal_type" payload)) [
        | inl g ↦ inl (ground (arith, f, g))
        | inr (value, g) ↦
            let signal = or_empty (as_str? value) in
            elim (Bool-cases (signal == "TEST_RESULT" || signal == "COMPLETION_SIGNAL")) [
              | inr other ↦ inl (ground (arith, f, g, other))
              | inl known ↦ elim (Option-cases e.terminal_id) [
                | inl k ↦ inl (ground (arith, f, g, known, k))
                | inr (terminal_id, k) ↦ elim (Bool-cases (terminal_id == "")) [
                  | inl nobody ↦ inl (ground (arith, f, g, known, k, nobody))
                  | inr somebody ↦
                      inr (terminal_id, signal, payload, ground (arith, f, g, known, k, somebody))
                ]
              ]
            ]
      ]
    ]

    scan_event-Holds : (e : EventRow) → Holds (scan_event clues now e)
    scan_event-Holds e = record {
      at = λ c u. elim (scan_event-cases e c) [
        | inl same ↦ rw same u
        | inr (terminal_id, signal, payload, same) ↦
            rw same ((evaluate_signal-Holds terminal_id signal payload).at c u)
      ];
    }

    scan_rows-Holds : (es : List EventRow) → Holds (scan_rows clues now es)
    unfolding scan_rows
    scan_rows-Holds [] = record { at = λ c u. u }
    scan_rows-Holds (e ∷ es) = record {
      at = λ c u.
          (Holds-for_each (scan_event clues now) scan_event-Holds (e ∷ es)).at
            (record c { cursor = last_id clues now e.id es }) u;
    }

    scan_terminal_signals-Holds : Holds (scan_terminal_signals clues now)
    unfolding scan_terminal_signals
    scan_terminal_signals-Holds = record {
      at = λ c u. (scan_rows-Holds (recent_signals clues now c)).at c u;
    }

    commit_proof-is_type : (commit : Commit) → is_type r (commit_proof clues now commit) ≡ false
    unfolding commit_proof
    commit_proof-is_type commit =
        typed (commit_proof clues now commit) "git_commit" _ refl no_commit

    -- A window is passed over, or gets one commit.
    check_git-cases :
        (j : ℕ) (c : Collector)
        → ((check_git_for_window clues now j c).1 ≡ c)
          ⊎ ((commit : Commit) × (check_git_for_window clues now j c
                ≡ add_proof now j (commit_proof clues now commit) c))
    unfolding check_git_for_window
    check_git-cases j c = elim (Option-cases (window_of j c)) [
      | inl e ↦ inl (ground (arith, e))
      | inr (w, e) ↦ elim (Bool-cases (is_open w.status)) [
        | inr shut ↦ inl (ground (arith, e, shut))
        | inl opened ↦ elim (Option-cases (get (λ i. i.id) w.work_item_id c.graph.items)) [
          | inl f ↦ inl (ground (arith, e, opened, f))
          | inr (item, f) ↦
              elim (Option-cases
                (find? (λ commit. matches_work_item clues now commit item) (clues.commits j))) [
                  | inl g ↦ inl (ground (arith, e, opened, f, g))
                  | inr (commit, g) ↦ inr (commit, ground (arith, e, opened, f, g))
                ]
        ]
      ]
    ]

    check_git-Holds : (j : ℕ) → Holds (check_git_for_window clues now j)
    check_git-Holds j = record {
      at = λ c u. elim (check_git-cases j c) [
        | inl same ↦ rw same u
        | inr (commit, same) ↦ rw same (
            add_proof-Unproven r window_id item_id now j (commit_proof clues now commit) c
              (commit_proof-is_type commit) u)
      ];
    }

    check_git_proofs-Holds : Holds (check_git_proofs clues now)
    unfolding check_git_proofs
    check_git_proofs-Holds = record {
      at = λ c u.
          (Holds-for_each (check_git_for_window clues now) check_git-Holds
              (open_windows (λ w. true) c.graph.windows)).at
            c u;
    }

    tell_owner-graph :
        (j : ℕ) (item : WorkItem) (c : Collector) → (tell_owner clues now j item c).graph ≡ c.graph
    unfolding tell_owner emit
    tell_owner-graph j item c = elim (Bool-cases (or_empty item.owner_terminal_id == "")) [
      | inl nobody ↦ rw nobody refl
      | inr somebody ↦ rw somebody refl
    ]

    -- A window is passed over, or expires.
    expire-cases :
        (j : ℕ) (c : Collector)
        → ((expire_window clues now j c).1.graph ≡ c.graph)
          ⊎ ((w : ProofWindow) × ((expire_window clues now j c).1.graph
                ≡ (end_window now j expired_window w.work_item_id in_progress c).graph))
    unfolding expire_window
    expire-cases j c = elim (Option-cases (window_of j c)) [
      | inl e ↦ inl (ground (arith, e))
      | inr (w, e) ↦ elim (Bool-cases (is_open w.status)) [
        | inr shut ↦ inl (ground (arith, e, shut))
        | inl opened ↦ elim (Option-cases (get (λ i. i.id) w.work_item_id c.graph.items)) [
          | inl f ↦ inr (w, ground (arith, e, opened, f))
          | inr (item, f) ↦ inr (
            w,
            ground (
              arith,
              e,
              opened,
              f,
              tell_owner-graph j item
                  (end_window now j expired_window w.work_item_id in_progress c),
            ),
          )
        ]
      ]
    ]

    expire-Holds : (j : ℕ) → Holds (expire_window clues now j)
    expire-Holds j = record {
      at = λ c u. elim (expire-cases j c) [
        | inl same ↦ subst (λ g. IsUnproven r window_id item_id g) (sym same) u
        | inr (w, same) ↦
            subst (λ g. IsUnproven r window_id item_id g) (sym same)
              (end_window-Unproven r window_id item_id now j expired_window w.work_item_id
                in_progress c (ground arith) u)
      ];
    }

    handle_expirations-Holds : Holds (handle_expirations clues now)
    unfolding handle_expirations
    handle_expirations-Holds = record {
      at = λ c u.
          (Holds-for_each (expire_window clues now) expire-Holds
              (open_windows (λ w. ltb (w.expires_at / 1000000 * 1000000) now) c.graph.windows)).at
            c u;
    }

    -- A window that is not closed and has no proof of the type `r`, which its item requires and which
    -- is none of the three that the collector produces, is not closed after a tick, whatever the
    -- signals and the commits are.
    pub tick-IsUnproven :
        (c : Collector)
        → IsUnproven r window_id item_id c.graph
        → IsUnproven r window_id item_id (tick clues now c).1.graph
    unfolding tick
    tick-IsUnproven c u =
        (Holds-then (scan_terminal_signals clues now)
            (check_git_proofs clues now >> handle_expirations clues now) scan_terminal_signals-Holds
            (Holds-then (check_git_proofs clues now) (handle_expirations clues now)
              check_git_proofs-Holds handle_expirations-Holds)).at
          c u
