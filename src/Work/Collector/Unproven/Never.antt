-- ===== src/Work/Collector/Unproven/Never.antt =====
-- No addition of another type closes the window.
use mathlib.Core.Path.{subst}
use agent_factor.Base.{
  ℕ, String, true, false, ◌&&◌, ◌≡◌, arith, some, List, [], ◌∷◌, ◌++◌, inl, inr, sym, ◌⊎◌,
}
use agent_factor.Base.{
  ◌==◌, contains, string_eq, nat_eq, all, find?-passes, update_where, all-update_where, all-find?,
  Option-cases, Bool-cases,
}
use agent_factor.Base.{ok, map_result, Result-cases}
use agent_factor.Json.{Json}
use agent_factor.Store.{get}
use agent_factor.Work.Graph.{
  WorkItem, WorkItemStatus, done, ProofWindow, WindowStatus, closed_window, is_closed, Graph,
}
use agent_factor.Work.Collector.{
  Collector, proof_type, required_proofs, sufficient, is_open, at_window, window_of, set_proofs,
  end_window, emit, close_window, judge_window, add_rows, add_proof,
}
use agent_factor.Work.Collector.Closing.{graph_after, add_proof-graph}
use agent_factor.Work.Collector.Unproven.{
  is_type, lacks, requires, lacks-types, contains-append, insufficient, row_open, item_requires,
  IsUnproven,
}

lacks-append :
    (r : String) (ps : List Json) (p : Json)
    → lacks r ps ≡ true
    → is_type r p ≡ false
    → lacks r (ps ++ p ∷ []) ≡ true
unfolding all
lacks-append r [] p l h = ground (arith, h)
lacks-append r (q ∷ qs) p l h = ground (arith, lacks-append r qs p)

-- What a judgement leaves: the tables, or the closed window of an item that has all it requires.
judged_graph :
    (now : ℕ) (w : ProofWindow) (proofs : List Json) (types : List String) (c : Collector)
    → ((judge_window now w proofs types c).1.graph ≡ c.graph)
      ⊎ ((item : WorkItem) × (get (λ i. i.id) w.work_item_id c.graph.items ≡ some item)
          × (sufficient (required_proofs item) types ≡ true)
          × ((judge_window now w proofs types c).1.graph
              ≡ (close_window now w item proofs c).graph))
unfolding judge_window
judged_graph now w proofs types c =
    elim (Option-cases (get (λ i. i.id) w.work_item_id c.graph.items)) [
      | inl e ↦ inl (ground (arith, e))
      | inr (item, e) ↦ elim (Bool-cases (sufficient (required_proofs item) types)) [
        | inr less ↦ inl (ground (arith, e, less))
        | inl enough ↦ inr (item, e, enough, ground (arith, e, enough))
      ]
    ]

-- What an addition leaves: the tables, or a judgement of the window with one more proof.
added_graph :
    (now j : ℕ) (p : Json) (c : Collector)
    → (graph_after (add_rows now j p c) c ≡ c.graph)
      ⊎ ((w : ProofWindow) × (types : List String) × (t : String) × (window_of j c ≡ some w)
          × (map_result proof_type w.proofs_collected ≡ ok types)
          × (proof_type p ≡ ok t)
          × (graph_after (add_rows now j p c) c
              ≡ (judge_window now w
                  (w.proofs_collected ++ p ∷ [])
                  (types ++ t ∷ [])
                  (set_proofs j (w.proofs_collected ++ p ∷ []) c)).1.graph))
unfolding graph_after add_rows
added_graph now j p c = elim (Option-cases (window_of j c)) [
  | inl e ↦ inl (ground (arith, e))
  | inr (w, found) ↦ elim (Bool-cases (is_open w.status)) [
    | inr shut ↦ inl (ground (arith, found, shut))
    | inl opened ↦ elim (Result-cases (map_result proof_type w.proofs_collected)) [
      | inr (_, _, e) ↦ inl (ground (arith, found, opened, e))
      | inl (types, e) ↦ elim (Result-cases (proof_type p)) [
        | inr (_, _, f) ↦ inl (ground (arith, found, opened, e, f))
        | inl (t, f) ↦ elim (Bool-cases (contains types t)) [
          | inl old ↦ inl (ground (arith, found, opened, e, f, old))
          | inr new ↦ inr (w, types, t, found, e, f, ground (arith, found, opened, e, f, new))
        ]
      ]
    ]
  ]
]

module _ (r : String) (window_id : ℕ) (item_id : String) where
  abbrev Unproven : Graph → Type 0
  Unproven g = IsUnproven r window_id item_id g

  -- The status and the time of an item do not matter.
  items-kept :
      (now : ℕ) (j : String) (status : WorkItemStatus) (items : List WorkItem)
      → all (item_requires r window_id item_id) items ≡ true
      → all (item_requires r window_id item_id) (
          update_where (λ i. i.id == j) (λ i. record i { status = status; updated_at = now }) items)
        ≡ true
  unfolding required_proofs
  items-kept now j status items h =
      all-update_where (item_requires r window_id item_id) (λ i. i.id == j)
        (λ i. record i { status = status; updated_at = now }) (λ i _ k. k) items h

  -- The end of a window keeps the window open, unless it is this one and is closed.
  pub end_window-Unproven :
      (now j : ℕ) (status : WindowStatus) (k : String) (item_status : WorkItemStatus)
      (c : Collector)
      → ((j == window_id) && is_closed status) ≡ false
      → Unproven c.graph
      → Unproven (end_window now j status k item_status c).graph
  unfolding end_window
  end_window-Unproven now j status k item_status c h (ws, is) = (
    all-update_where (row_open r window_id item_id) (at_window j)
        (λ w. record w { status = status; closed_at = some now })
        (λ w at held. ground (arith, at, held, h)) c.graph.windows ws,
    items-kept now k item_status c.graph.items is,
  )

  set_proofs-Unproven :
      (j : ℕ) (proofs : List Json) (c : Collector)
      → ((j == window_id) ≡ true → lacks r proofs ≡ true)
      → Unproven c.graph
      → Unproven (set_proofs j proofs c).graph
  unfolding set_proofs
  set_proofs-Unproven j proofs c h (ws, is) = (
    all-update_where (row_open r window_id item_id) (at_window j)
        (λ w. record w { proofs_collected = proofs })
        (λ w at held. elim (Bool-cases (j == window_id)) [
          | inl this ↦ ground (arith, at, held, this, h this)
          | inr other ↦ ground (arith, at, held, other)
        ])
        c.graph.windows ws,
    is,
  )

  module _ (now j : ℕ) (p : Json) (c : Collector) (w : ProofWindow) (found : window_of j c ≡ some w)
      (other_type : is_type r p ≡ false) (u : Unproven c.graph) where
    -- The row that was found, if it is the row of the window.
    row_found :
        (j == window_id) ≡ true → (w.work_item_id ≡ item_id) × (lacks r w.proofs_collected ≡ true)
    unfolding window_of
    row_found this =
        let held =
          all-find? (row_open r window_id item_id) (at_window j) c.graph.windows w u.0 found in
        let at = find?-passes (at_window j) c.graph.windows w found in
        (ground (arith, held, at, this), ground (arith, held, at, this))

    -- The item of the window requires the type.
    item_found :
        (item : WorkItem)
        → get (λ i. i.id) w.work_item_id c.graph.items ≡ some item
        → (j == window_id) ≡ true
        → requires r item ≡ true
    unfolding get
    item_found item e this =
        let (of, _) = row_found this in
        let held =
          all-find? (item_requires r window_id item_id) (λ i. i.id == w.work_item_id) c.graph.items
            item u.1 e in
        let at = find?-passes (λ i. i.id == w.work_item_id) c.graph.items item e in
        ground (arith, held, at, of)

    -- The types of the window and of the new proof do not suffice.
    not_sufficient :
        (item : WorkItem) (types : List String) (t : String)
        → get (λ i. i.id) w.work_item_id c.graph.items ≡ some item
        → map_result proof_type w.proofs_collected ≡ ok types
        → proof_type p ≡ ok t
        → (j == window_id) ≡ true
        → sufficient (required_proofs item) (types ++ t ∷ []) ≡ false
    not_sufficient item types t e ht hp this =
        insufficient r (required_proofs item) (types ++ t ∷ []) (item_found item e this) (
          ground (
            arith,
            contains-append r types t,
            lacks-types r w.proofs_collected types (row_found this).1 ht,
            hp,
            other_type,
          ))

    abbrev with_proof : Collector
    with_proof = set_proofs j (w.proofs_collected ++ p ∷ []) c

    with_proof-Unproven : Unproven with_proof.graph
    with_proof-Unproven =
        set_proofs-Unproven j (w.proofs_collected ++ p ∷ []) c
          (λ this. lacks-append r w.proofs_collected p (row_found this).1 other_type) u

    refused :
        (item : WorkItem) (types : List String) (t : String)
        → get (λ i. i.id) w.work_item_id with_proof.graph.items ≡ some item
        → map_result proof_type w.proofs_collected ≡ ok types
        → proof_type p ≡ ok t
        → (j == window_id) ≡ true
        → sufficient (required_proofs item) (types ++ t ∷ []) ≡ false
    unfolding set_proofs
    refused item types t e = not_sufficient item types t e

    close-Unproven :
        (item : WorkItem) (proofs : List Json)
        → (j == window_id) ≡ false
        → Unproven (close_window now w item proofs with_proof).graph
    unfolding close_window emit window_of
    close-Unproven item proofs other =
        let at = find?-passes (at_window j) c.graph.windows w found in
        end_window-Unproven now w.id closed_window item.id done with_proof
          (ground (arith, at, other)) with_proof-Unproven

    judge-Unproven :
        (types : List String) (t : String)
        → map_result proof_type w.proofs_collected ≡ ok types
        → proof_type p ≡ ok t
        → Unproven
            (judge_window now w (w.proofs_collected ++ p ∷ []) (types ++ t ∷ []) with_proof).1.graph
    judge-Unproven types t ht hp =
        elim (judged_graph now w (w.proofs_collected ++ p ∷ []) (types ++ t ∷ []) with_proof) [
          | inl same ↦ subst (λ g. Unproven g) (sym same) with_proof-Unproven
          | inr (item, e, enough, same) ↦ elim (Bool-cases (j == window_id)) [
            | inl this ↦ absurd (ground (arith, enough, refused item types t e ht hp this))
            | inr other ↦ subst (λ g. Unproven g) (sym same) (close-Unproven item _ other)
          ]
        ]

  -- An addition of another type keeps the window open.
  pub add_proof-Unproven :
      (now j : ℕ) (p : Json) (c : Collector)
      → is_type r p ≡ false
      → Unproven c.graph
      → Unproven (add_proof now j p c).1.graph
  add_proof-Unproven now j p c other_type u =
      subst (λ g. Unproven g) (sym (add_proof-graph now j p c))
        (elim (added_graph now j p c) [
          | inl same ↦ subst (λ g. Unproven g) (sym same) u
          | inr (w, types, t, found, ht, hp, same) ↦
              subst (λ g. Unproven g) (sym same)
                (judge-Unproven now j p c w found other_type u types t ht hp)
        ])
