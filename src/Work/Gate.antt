-- ===== src/Work/Gate.antt =====
-- The proof gate: what an item needs to be done, and the windows that collect it.
use agent_factor.Base.{
  ℕ, ◌+◌, String, true, not, ◌||◌, ◌≡◌, refl, arith, Option, none, some, [], ◌∷◌, ◌++◌,
}
use agent_factor.Base.{string_eq, if◌then◌else◌, ok, transaction}
use agent_factor.Store.{get, get-update_where}
use agent_factor.Work.Graph.{WorkItem, ProofWindow, Graph, UpdateItem, done, open_window, is_done}
use agent_factor.Work.Items.{
  needs_proof, is_proven, holds_any, requirements, apply_update, opens_window, update_rows,
  update_work_item, open_proof_window, timeout_minutes, minutes,
}

abbrev row_of : String → Graph → Option WorkItem
row_of item_id db = get (λ i. i.id) item_id db.items

module _ (now : ℕ) (item_id : String) (r : UpdateItem) (s : Graph) where
  -- An item moves to DONE only if it needs no proof, or was done before, or one of its closed windows
  -- has collected evidence; this is decided on the requirements that it had before the request.
  pub update_work_item-proven :
      (before after : WorkItem)
      → row_of item_id s ≡ some before
      → (update_work_item now item_id r s).0 ≡ ok (some after)
      → r.status ≡ some done
      → (is_done before.status
          || not (holds_any (requirements before.proof_requirements))
          || is_proven item_id s)
        ≡ true
  unfolding update_work_item update_rows transaction needs_proof
  update_work_item-proven before after found h to_done = ground arith

  -- The window that an update opens.
  abbrev pub opened : WorkItem → ProofWindow
  opened item = record {
    id = s.next_window;
    work_item_id = item_id;
    expires_at = now + minutes (timeout_minutes item.type);
    status = open_window;
    proofs_collected = [];
    closed_at = none;
  }

  -- An update opens one proof window, for the time of the type of the item, exactly when it moves the
  -- item to NEEDS_VERIFICATION.
  update_work_item-windows :
      (before after : WorkItem)
      → row_of item_id s ≡ some before
      → (update_work_item now item_id r s).0 ≡ ok (some after)
      → (update_work_item now item_id r s).1.windows
        ≡ (if opens_window before r then s.windows ++ opened before ∷ [] else s.windows)
  unfolding update_work_item update_rows transaction open_proof_window apply_update
  update_work_item-windows before after found h =
      ground (
        arith,
        found,
        get-update_where (λ i. i.id) item_id (apply_update now r) (λ i. refl) s.items,
      )
