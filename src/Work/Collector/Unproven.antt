-- ===== src/Work/Collector/Unproven.antt =====
-- A window whose item requires a type of proof that the collector does not produce.
pub mod Never
pub mod Passes
use agent_factor.Base.{
  ℕ, String, Bool, true, false, not, ◌&&◌, ◌||◌, ◌≡◌, refl, arith, Option, none, some, List, [],
  ◌∷◌, ◌++◌, inl, inr, ◌⊎◌,
}
use agent_factor.Base.{
  ◌==◌, ==-refl, contains, string_eq, nat_eq, if◌then◌else◌, all, any, find?, find?-passes,
  update_where, all-update_where, all-find?, Option-cases, Bool-cases,
}
use agent_factor.Base.{Result, ok, err, and_then, map_result, Result-cases}
use agent_factor.Json.{Json}
use agent_factor.Store.{get}
use agent_factor.Work.Graph.{
  WorkItem, WorkItemStatus, done, ProofType, ProofWindow, WindowStatus, closed_window, is_closed,
  Graph,
}
use agent_factor.Work.Collector.{
  Collector, proof_type, proof_name, required_proofs, sufficient, is_open, at_window, window_of,
  set_proofs, end_window, emit, close_window, judge_window, add_rows, add_proof,
}
use agent_factor.Work.Collector.Closing.{graph_after, add_proof-graph}

module _ (r : String) where
  abbrev result_is : Result String → Bool
  result_is (ok t) = t == r
  result_is (err _ _) = false

  -- The proof is of the type.
  abbrev pub is_type : Json → Bool
  is_type p = result_is (proof_type p)

  abbrev pub lacks : List Json → Bool
  lacks proofs = all (λ p. not (is_type p)) proofs

  -- The item requires the type.
  abbrev pub requires : WorkItem → Bool
  requires item = any (λ x. proof_name x == r) (required_proofs item)

  -- The types that were read lack what the proofs lack.
  lacks-types :
      (proofs : List Json) (types : List String)
      → lacks proofs ≡ true
      → map_result proof_type proofs ≡ ok types
      → contains types r ≡ false
  unfolding all map_result
  lacks-types [] types l h = ground (arith, h)
  lacks-types (p ∷ ps) types l h = elim (Result-cases (proof_type p)) [
    | inr (_, _, e) ↦ absurd (ground (arith, e, h))
    | inl (t, e) ↦ elim (Result-cases (map_result proof_type ps)) [
      | inr (_, _, f) ↦ absurd (ground (arith, e, f, h))
      | inl (ts, f) ↦ ground (arith, e, f, h, l, lacks-types ps ts (ground (arith, e, l)) f)
    ]
  ]

  contains-append :
      (ts : List String) (t : String) → contains (ts ++ t ∷ []) r ≡ (contains ts r || r == t)
  contains-append [] t = ground arith
  contains-append (u ∷ us) t = ground (arith, contains-append us t)

  -- Types without what is required do not suffice.
  insufficient :
      (required : List ProofType) (types : List String)
      → any (λ x. proof_name x == r) required ≡ true
      → contains types r ≡ false
      → sufficient required types ≡ false
  unfolding sufficient any all
  insufficient [] types h c = absurd (ground arith)
  insufficient (x ∷ xs) types h c = ground (arith, insufficient xs types, same_name x)
    where
      same_name : (y : ProofType) → (proof_name y == r) ≡ true → proof_name y ≡ r
      same_name y h = ground arith

  module _ (window_id : ℕ) (item_id : String) where
    abbrev pub row_open : ProofWindow → Bool
    row_open w =
        not (w.id == window_id)
        || ((w.work_item_id == item_id) && (not (is_closed w.status) && lacks w.proofs_collected))

    abbrev pub item_requires : WorkItem → Bool
    item_requires i = not (i.id == item_id) || requires i

    -- The window is not closed and lacks the type, which its item requires.
    abbrev pub IsUnproven : Graph → Type 0
    IsUnproven g = (all row_open g.windows ≡ true) × (all item_requires g.items ≡ true)
