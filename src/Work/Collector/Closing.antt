-- ===== src/Work/Collector/Closing.antt =====
-- When the collector closes a window.
use mathlib.Core.Path.{subst}
use agent_factor.Base.{
  ℕ, String, true, ◌≡◌, refl, arith, Option, none, some, List, [], ◌∷◌, ◌++◌, inl, inr, ◌⊎◌, sym,
  ◌∙◌,
}
use agent_factor.Base.{
  ◌==◌, contains, string_eq, nat_eq, find?, find?-update_where, Option-cases, Bool-cases,
}
use agent_factor.Base.{Result, ok, err, map_result, transaction, Result-cases}
use agent_factor.Json.{Json}
use agent_factor.Store.{get, get-key, get-update_where}
use agent_factor.Work.Graph.{WorkItem, done, ProofWindow, WindowStatus, is_closed, Graph}
use agent_factor.Work.Collector.{
  Collector, proof_type, required_proofs, sufficient, is_open, at_window, window_of, set_proofs,
  end_window, emit, close_window, judge_window, add_rows, add_proof,
}

eq_of_test : (a b : String) → (a == b) ≡ true → a ≡ b
eq_of_test a b h = ground arith

-- The graph after a block whose method reports what it returned.
unfoldable pub graph_after : {A : Type 0} → Result (A × Collector) → Collector → Graph
graph_after (ok (_, c')) c = c'.graph
graph_after (err _ _) c = c.graph

module _ (now window_id : ℕ) (proof : Json) (c : Collector) where
  pub add_proof-graph :
      (add_proof now window_id proof c).1.graph ≡ graph_after (add_rows now window_id proof c) c
  unfolding add_proof transaction graph_after
  add_proof-graph = elim (Result-cases (add_rows now window_id proof c)) [
    | inr (_, _, e) ↦ rw e refl
    | inl ((none, c'), e) ↦ rw e refl
    | inl ((some o, c'), e) ↦ rw e refl
  ]

  -- The row of a window in a graph.
  abbrev row_in : Graph → Option ProofWindow
  row_in g = find? (at_window window_id) g.windows

  set_proofs-row :
      (proofs : List Json) (w : ProofWindow)
      → row_in c.graph ≡ some w
      → row_in (set_proofs window_id proofs c).graph ≡ some (record w { proofs_collected = proofs })
  unfolding set_proofs
  set_proofs-row proofs w h = ground (
    arith,
    h,
    find?-update_where (at_window window_id) (λ x. record x { proofs_collected = proofs })
        (λ x. refl) c.graph.windows,
  )

  module _ (w : ProofWindow) (found : window_of window_id c ≡ some w)
      (opened : is_open w.status ≡ true) where
    -- What the window had collected and the new proof cover all that the item requires, and the item
    -- is done afterwards.
    abbrev pub Closes : Graph → Type 0
    Closes g' =
        (item item' : WorkItem) × (types : List String) × (t : String) × (get (λ i. i.id)
            w.work_item_id c.graph.items
          ≡ some item)
        × (map_result proof_type w.proofs_collected ≡ ok types)
        × (proof_type proof ≡ ok t)
        × (sufficient (required_proofs item) (types ++ t ∷ []) ≡ true)
        × (get (λ i. i.id) w.work_item_id g'.items ≡ some item')
        × (item'.status ≡ done)

    -- A window that is open is not closed.
    not_closed :
        (w' : ProofWindow) (status : WindowStatus)
        → is_open status ≡ true
        → w'.status ≡ status
        → is_closed w'.status ≡ true
        → ⊥
    not_closed w' status o e h = ground arith

    -- Where the graph stays, the window is open.
    unchanged :
        (g' : Graph) (w' : ProofWindow)
        → g' ≡ c.graph
        → row_in g' ≡ some w'
        → is_closed w'.status ≡ true
        → ⊥
    unfolding window_of
    unchanged g' w' same row h = not_closed w' w.status opened (ground (arith, same, row, found)) h

    module _ (types : List String) (t : String) where
      abbrev proofs : List Json
      proofs = w.proofs_collected ++ proof ∷ []

      judged : Graph
      judged = (judge_window now w proofs (types ++ t ∷ []) (set_proofs window_id proofs c)).1.graph

      -- Where the proof is only added, the window is open.
      judged_open :
          (w' : ProofWindow)
          → judged ≡ (set_proofs window_id proofs c).graph
          → row_in judged ≡ some w'
          → is_closed w'.status ≡ true
          → ⊥
      unfolding window_of
      judged_open w' same row h =
          not_closed w' w.status opened (ground (arith, same, row, set_proofs-row proofs w found)) h

      -- The item of a window that is closed is done.
      closed-done :
          (item : WorkItem)
          → get (λ i. i.id) w.work_item_id c.graph.items ≡ some item
          → get
              (λ i. i.id)
              w.work_item_id
              (close_window now w item proofs (set_proofs window_id proofs c)).graph.items
            ≡ some (record item { status = done; updated_at = now })
      unfolding close_window emit end_window set_proofs
      closed-done item e =
          let same : item.id ≡ w.work_item_id =
            eq_of_test item.id w.work_item_id
              (get-key (λ i. i.id) w.work_item_id c.graph.items item e) in
          ground (
            arith,
            e,
            same,
            get-update_where (λ i. i.id) w.work_item_id
                (λ i. record i { status = done; updated_at = now }) (λ i. refl) c.graph.items,
          )

      judged-Closes :
          (w' : ProofWindow)
          → map_result proof_type w.proofs_collected ≡ ok types
          → proof_type proof ≡ ok t
          → row_in judged ≡ some w'
          → is_closed w'.status ≡ true
          → Closes judged
      unfolding judged judge_window set_proofs
      judged-Closes w' ht hp row h =
          elim (Option-cases (get (λ i. i.id) w.work_item_id c.graph.items)) [
            | inl e ↦ absurd (judged_open w' (ground (arith, e)) row h)
            | inr (item, e) ↦
                elim (Bool-cases (sufficient (required_proofs item) (types ++ t ∷ []))) [
                  | inr less ↦ absurd (judged_open w' (ground (arith, e, less)) row h)
                  | inl enough ↦ (
                    item,
                    record item { status = done; updated_at = now },
                    types,
                    t,
                    e,
                    ht,
                    hp,
                    enough,
                    ground (arith, e, enough, closed-done item e),
                    refl,
                  )
                ]
          ]

    -- The graph after the block: as it was, or judged.
    added :
        (graph_after (add_rows now window_id proof c) c ≡ c.graph)
        ⊎ ((types : List String) × (t : String) × (map_result proof_type w.proofs_collected
              ≡ ok types)
            × (proof_type proof ≡ ok t)
            × (graph_after (add_rows now window_id proof c) c ≡ judged types t))
    unfolding graph_after add_rows judged
    added = elim (Result-cases (map_result proof_type w.proofs_collected)) [
      | inr (_, _, e) ↦ inl (ground (arith, found, opened, e))
      | inl (types, e) ↦ elim (Result-cases (proof_type proof)) [
        | inr (_, _, f) ↦ inl (ground (arith, found, opened, e, f))
        | inl (t, f) ↦ elim (Bool-cases (contains types t)) [
          | inl old ↦ inl (ground (arith, found, opened, e, f, old))
          | inr new ↦ inr (types, t, e, f, ground (arith, found, opened, e, f, new))
        ]
      ]
    ]

    -- A window that was open is closed by an addition only if what it had collected and the new proof
    -- cover all that the item requires; the item is done then.
    pub add_proof-Closes :
        (w' : ProofWindow)
        → window_of window_id (add_proof now window_id proof c).1 ≡ some w'
        → is_closed w'.status ≡ true
        → Closes (add_proof now window_id proof c).1.graph
    unfolding window_of
    add_proof-Closes w' row h =
        let at = add_proof-graph in
        elim added [
          | inl same ↦ absurd (unchanged _ w' (at ∙ same) row h)
          | inr (types, t, e, f, same) ↦
              subst (λ g. Closes g) (sym (at ∙ same))
                (judged-Closes types t w' e f (subst (λ g. row_in g ≡ some w') (at ∙ same) row) h)
        ]
