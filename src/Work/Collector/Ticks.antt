-- ===== src/Work/Collector/Ticks.antt =====
-- The three passes of `_tick` of proof_collector.py: signals, commits and expirations.
use agent_factor.Base.{
  ℕ, zero, suc, ◌*◌, ◌/◌, String, ◌<>◌, Bool, true, false, not, ◌&&◌, ◌||◌, Option, none, some,
  List, [], ◌∷◌, max,
}
use agent_factor.Base.{
  ◌==◌, string_eq, nat_eq, option_eq, if◌then◌else◌, filter, find?, ltb, length, intersection,
  sorted_set, decimal,
}
use agent_factor.Base.{Result, ok, err, Exec, pure, raise, and_then, gets, lift, ◌>>=◌, ◌>>◌}
use agent_factor.Json.{
  Json, number, str, array, object, Fields, end, field, Items, nil, cons, get_field, get_field_or,
  as_str?, as_dict?, strings,
}
use agent_factor.Store.{get}
use agent_factor.Messages.Inbox.{queue_message}
use agent_factor.Work.Graph.{WorkItem, in_progress, ProofWindow, expired_window}
use agent_factor.Work.Collector.{
  EventRow, Commit, Collector, Clues, add_proof, window_of, is_open, end_window, emit, or_empty,
}

-- Times are microseconds; a fraction of a second is cut from the end of a window.
abbrev second : ℕ
second = 1000000

-- The identifiers of the open windows that pass.
unfoldable pub open_windows : (ProofWindow → Bool) → List ProofWindow → List ℕ
open_windows p [] = []
open_windows p (w ∷ ws) =
    let rest = open_windows p ws in if is_open w.status && p w then w.id ∷ rest else rest

-- `for …: self._step(…)`: the first step that raises ends the loop.
unfoldable pub for_each :
    {A : Type 0} → (A → Exec Collector (Unit {0})) → List A → Exec Collector (Unit {0})
for_each step [] = pure tt
for_each step (x ∷ xs) = step x >> for_each step xs

-- `s[:k]` of a text, of a list, and of anything else
take_text : ℕ → String → String
take_text zero s = ""
take_text (suc k) String.[] = ""
take_text (suc k) (String.◌∷◌ c s) = String.◌∷◌ c (take_text k s)

take_items : ℕ → Items → Items
take_items zero js = nil
take_items (suc k) nil = nil
take_items (suc k) (cons j js) = cons j (take_items k js)

unfoldable pub cut : Json → Result Json
unfolding take_text take_items
cut (str s) = ok (str (take_text 200 s))
cut (array js) = ok (array (take_items 200 js))
cut _ = err "TypeError" 500

-- The number of tests that passed: `int(groups[0]) if groups else 0`
unfoldable pub passed_count : (Json → Option ℕ) → Json → Result ℕ
passed_count int_of (array nil) = ok 0
passed_count int_of (array (cons g gs)) = elim (int_of g) [
  | none ↦ err "ValueError" 500
  | some n ↦ ok n
]
passed_count int_of _ = err "TypeError" 500

module _ (clues : Clues) (now : ℕ) where
  open clues use {int_of, isoformat, similar, occurs, commits}

  unfoldable pub test_proof : ℕ → Fields → Result (Option Json)
  unfolding cut
  test_proof passed payload =
      if ltb 0 passed
      then and_then (cut (get_field_or "excerpt" (str "") payload)) (λ excerpt. ok (
          some (
            object (
              field "type" (str "test_pass") (
                field "passed_count" (number (decimal passed))
                  (field "excerpt" excerpt (field "received_at" (str (isoformat now)) end)))))))
      else ok none

  unfoldable pub completion_proof : Fields → Result (Option Json)
  unfolding cut
  completion_proof payload = and_then (cut (get_field_or "excerpt" (str "") payload)) (λ excerpt.
      ok (
        some (
          object (
            field "type" (str "completion_signal")
              (field "excerpt" excerpt (field "received_at" (str (isoformat now)) end))))))

  -- `_signal_to_proof`
  unfoldable pub signal_to_proof : String → Fields → Result (Option Json)
  unfolding test_proof completion_proof passed_count
  signal_to_proof signal_type payload =
      if signal_type == "TEST_RESULT"
      then and_then (passed_count int_of (get_field_or "groups" (array nil) payload))
          (λ passed. test_proof passed payload)
      else if signal_type == "COMPLETION_SIGNAL"
      then completion_proof payload
      else ok none

  -- The item of the window is the terminal's.
  unfoldable pub owned_by : String → List WorkItem → ProofWindow → Bool
  owned_by terminal_id items w = elim (get (λ i. i.id) w.work_item_id items) [
    | none ↦ false
    | some item ↦ item.owner_terminal_id == some terminal_id
  ]

  unfoldable pub add_signal : String → Fields → ℕ → Exec Collector (Unit {0})
  unfolding signal_to_proof
  add_signal signal_type payload window_id = do
    proof ← lift (signal_to_proof signal_type payload)
    elim proof [ none ↦ pure tt | some p ↦ add_proof now window_id p ]

  -- `_evaluate_signal_for_terminal`
  unfoldable pub evaluate_signal : String → String → Fields → Exec Collector (Unit {0})
  unfolding owned_by add_signal
  evaluate_signal terminal_id signal_type payload = do
    ids ← gets (λ c. open_windows (owned_by terminal_id c.graph.items) c.graph.windows)
    for_each (add_signal signal_type payload) ids

  -- One event of the scan; the payload of every event is a dict.
  unfoldable pub scan_event : EventRow → Exec Collector (Unit {0})
  scan_event e = elim (as_dict? e.payload) [
    | none ↦ raise "AttributeError" 500
    | some payload ↦ elim (get_field "signal_type" payload) [
      | none ↦ pure tt
      | some value ↦
          let signal_type = or_empty (as_str? value) in
          if not (signal_type == "TEST_RESULT" || signal_type == "COMPLETION_SIGNAL")
          then pure tt
          else elim e.terminal_id [
            | none ↦ pure tt
            | some terminal_id ↦
                if terminal_id == ""
                then pure tt
                else evaluate_signal terminal_id signal_type payload
          ]
    ]
  ]

  -- `get_recent`: the newest rows behind the cursor, newest first, and 200 at most.
  newest_first : List EventRow → List EventRow → List EventRow
  newest_first taken [] = taken
  newest_first taken (e ∷ es) = newest_first (e ∷ taken) es

  take_rows : ℕ → List EventRow → List EventRow
  take_rows zero es = []
  take_rows (suc k) [] = []
  take_rows (suc k) (e ∷ es) = e ∷ take_rows k es

  unfoldable pub recent_signals : Collector → List EventRow
  unfolding newest_first take_rows
  recent_signals c =
      take_rows 200
        (newest_first [] (filter (λ e. ltb c.cursor e.id && e.type == "TerminalSignal") c.log))

  unfoldable pub last_id : ℕ → List EventRow → ℕ
  last_id n [] = n
  last_id n (e ∷ es) = last_id (max n e.id) es

  -- The cursor moves to the greatest identifier, and the events are looked at.
  unfoldable pub scan_rows : List EventRow → Exec Collector (Unit {0})
  unfolding last_id
  scan_rows [] c = (ok tt, c)
  scan_rows (e ∷ es) c = for_each scan_event (e ∷ es) (record c { cursor = last_id e.id es })

  -- `_scan_terminal_signals`
  unfoldable pub scan_terminal_signals : Exec Collector (Unit {0})
  scan_terminal_signals c = scan_rows (recent_signals c) c

  -- More than half of the files of interest are in the commit.
  overlaps : List String → List String → Bool
  overlaps files interest =
      ltb 0 (length interest)
      && ltb (length interest) (2 * length (sorted_set (intersection files interest)))

  -- `_matches_work_item`, of the texts as `similar` compares them in lower case
  unfoldable pub matches_work_item : Commit → WorkItem → Bool
  unfolding overlaps
  matches_work_item commit item =
      occurs item.id (commit.subject <> " " <> commit.body)
      || overlaps commit.files item.files_of_interest
      || similar item.title commit.subject

  unfoldable pub commit_proof : Commit → Json
  commit_proof commit = object (
      field "type" (str "git_commit") (
        field "hash" (str commit.hash) (
          field "message" (str commit.subject) (
            field "files" (strings commit.files) (field "received_at" (str (isoformat now)) end)))))

  -- `_check_git_for_window`: one commit at most is added.
  unfoldable pub check_git_for_window : ℕ → Exec Collector (Unit {0})
  unfolding commit_proof
  check_git_for_window window_id c = elim (window_of window_id c) [
    | none ↦ (ok tt, c)
    | some w ↦
        if not (is_open w.status)
        then (ok tt, c)
        else elim (get (λ i. i.id) w.work_item_id c.graph.items) [
          | none ↦ (ok tt, c)
          | some item ↦ elim (find? (λ commit. matches_work_item commit item) (commits window_id)) [
            | none ↦ (ok tt, c)
            | some commit ↦ add_proof now window_id (commit_proof commit) c
          ]
        ]
  ]

  -- `_check_git_proofs`
  unfoldable pub check_git_proofs : Exec Collector (Unit {0})
  check_git_proofs = do
    ids ← gets (λ c. open_windows (λ w. true) c.graph.windows)
    for_each check_git_for_window ids

  -- The event and the message of a window that expired.
  unfoldable pub tell_owner : ℕ → WorkItem → Collector → Collector
  tell_owner window_id item c =
      let emitted =
        emit "ProofCollectionTimeout"
          (object (
            field "work_item_id" (str item.id)
              (field "proof_window_id" (number (decimal window_id)) end)))
          c in
      let owner = or_empty item.owner_terminal_id in
      if owner == "" then emitted else record emitted {
        desk =
            (queue_message "system" owner
              ("[PROOF_TIMEOUT] Verification window expired for '" <> item.title <> "' (" <> item.id
                <> "). Please re-confirm completion with evidence.")
              false emitted.desk).1;
      }

  -- `_expire_window`; without the item its names are not bound after the transaction.
  unfoldable pub expire_window : ℕ → Exec Collector (Unit {0})
  unfolding tell_owner
  expire_window window_id c = elim (window_of window_id c) [
    | none ↦ (ok tt, c)
    | some w ↦
        if not (is_open w.status)
        then (ok tt, c)
        else let expired = end_window now window_id expired_window w.work_item_id in_progress c in
          elim (get (λ i. i.id) w.work_item_id c.graph.items) [
            | none ↦ (err "UnboundLocalError" 500, expired)
            | some item ↦ (ok tt, tell_owner window_id item expired)
          ]
  ]

  -- `_handle_expirations`
  unfoldable pub handle_expirations : Exec Collector (Unit {0})
  handle_expirations = do
    ids ← gets (λ c. open_windows (λ w. ltb (w.expires_at / second * second) now) c.graph.windows)
    for_each expire_window ids

  -- `_tick`
  unfoldable pub tick : Exec Collector (Unit {0})
  tick = scan_terminal_signals >> (check_git_proofs >> handle_expirations)
