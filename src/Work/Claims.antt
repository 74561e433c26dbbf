-- ===== src/Work/Claims.antt =====
-- Who may claim an item of work.
use agent_factor.Base.{
  ℕ, String, Bool, true, false, ◌&&◌, ◌≡◌, ◌≢◌, refl, arith, Option, none, some, List, [], ◌∷◌,
}
use agent_factor.Base.{
  ◌==◌, string_eq, option_eq, any, filter, find?, update_where, ok, transaction,
}
use agent_factor.Base.{Option-cases, Bool-cases, inl, inr}
use agent_factor.Store.{get, has_key, UniqueKeys, get-update_where}
use agent_factor.Work.Graph.{WorkItem, Graph, in_progress}
use agent_factor.Work.Items.{
  claim_row, is_claimable, claim_work_item, is_unblocked, list_available_work_items,
}

abbrev row_of : String → Graph → Option WorkItem
row_of item_id db = get (λ i. i.id) item_id db.items

-- What a claim found, and what it did.
pub record IsClaim (now : ℕ) (item_id terminal_id : String) (r : WorkItem) (db db' : Graph)
    : Type 0 where
  pub before : WorkItem
  pub found : row_of item_id db ≡ some before
  pub claimable : is_claimable before ≡ true
  pub reply : r ≡ claim_row now terminal_id before
  pub items : db'.items ≡ update_where (λ i. i.id == item_id) (claim_row now terminal_id) db.items

module _ (now : ℕ) (item_id terminal_id : String) (s : Graph) where
  claim_work_item-IsClaim :
      (r : WorkItem)
      → (claim_work_item now item_id terminal_id s).0 ≡ ok r
      → IsClaim now item_id terminal_id r s (claim_work_item now item_id terminal_id s).1
  unfolding claim_work_item transaction is_claimable
  claim_work_item-IsClaim r h = elim (Option-cases (row_of item_id s)) [
    | inl e ↦ absurd (ground arith)
    | inr (before, e) ↦ record {
      before = before;
      found = e;
      claimable = ground arith;
      reply = ground arith;
      items = ground arith;
    }
  ]

  -- The row after a claim has an owner and is in progress.
  claimed-row :
      (r : WorkItem)
      → (claim_work_item now item_id terminal_id s).0 ≡ ok r
      → row_of item_id (claim_work_item now item_id terminal_id s).1 ≡ some r
  claimed-row r h =
      let c = claim_work_item-IsClaim r h in
      ground (
        arith,
        c.found,
        c.reply,
        c.items,
        get-update_where (λ i. i.id) item_id (claim_row now terminal_id) (λ i. refl) s.items,
      )

  claimable-ok :
      (item : WorkItem)
      → row_of item_id s ≡ some item
      → is_claimable item ≡ true
      → (claim_work_item now item_id terminal_id s).0 ≡ ok (claim_row now terminal_id item)
  unfolding claim_work_item transaction is_claimable
  claimable-ok item found h = ground arith

-- After a claim that succeeds, the item is in progress for that terminal, and every further claim of
-- it fails, by whichever terminal, as long as no step in between writes the table of items.
pub claim_work_item-once :
    (now later : ℕ) (item_id terminal_id other : String) (s t : Graph) (r r' : WorkItem)
    → (claim_work_item now item_id terminal_id s).0 ≡ ok r
    → t.items ≡ (claim_work_item now item_id terminal_id s).1.items
    → (r.owner_terminal_id ≡ some terminal_id)
      × (r.status ≡ in_progress)
      × ((claim_work_item later item_id other t).0 ≢ ok r')
unfolding is_claimable
claim_work_item-once now later item_id terminal_id other s t r r' h same =
    let c = claim_work_item-IsClaim now item_id terminal_id s r h in
    let row = claimed-row now item_id terminal_id s r h in
    (
      ground (arith, c.reply),
      ground (arith, c.reply),
      λ h'.
          let c' = claim_work_item-IsClaim later item_id other t r' h' in
          ground (arith, c.reply, row, same, c'.found, c'.claimable),
    )

get-absent :
    (item_id other : String) (items : List WorkItem)
    → (other == item_id) ≡ true
    → has_key (λ i. i.id) other items ≡ false
    → get (λ i. i.id) item_id items ≡ none
unfolding get find? has_key any
get-absent item_id other [] same h = refl
get-absent item_id other (i ∷ items) same h = ground (arith, get-absent item_id other items same)

-- A row that a filter leaves is the row of its identifier, and passes the test.
get-filter :
    (p : WorkItem → Bool) (item_id : String) (items : List WorkItem) (x : WorkItem)
    → UniqueKeys (λ i. i.id) items
    → get (λ i. i.id) item_id (filter p items) ≡ some x
    → (get (λ i. i.id) item_id items ≡ some x) × (p x ≡ true)
unfolding filter get find?
get-filter p item_id [] x u h = absurd (ground arith)
get-filter p item_id (i ∷ items) x (fresh, u) h = elim (Bool-cases (p i)) [
  | inl passes ↦ elim (Bool-cases (i.id == item_id)) [
    | inl here ↦ (ground arith, ground arith)
    | inr there ↦
        let (found, yes_x) = get-filter p item_id items x u (ground arith) in
        (ground (arith, found), yes_x)
  ]
  | inr fails ↦
      let (found, yes_x) = get-filter p item_id items x u (ground arith) in
      (ground (arith, found, get-absent item_id i.id items), yes_x)
]

has_key-filter :
    (p : WorkItem → Bool) (item_id : String) (items : List WorkItem)
    → has_key (λ i. i.id) item_id items ≡ false
    → has_key (λ i. i.id) item_id (filter p items) ≡ false
unfolding has_key any filter
has_key-filter p item_id [] h = refl
has_key-filter p item_id (i ∷ items) h = ground (arith, has_key-filter p item_id items)

filter-UniqueKeys :
    (p : WorkItem → Bool) (items : List WorkItem)
    → UniqueKeys (λ i. i.id) items
    → UniqueKeys (λ i. i.id) (filter p items)
unfolding filter
filter-UniqueKeys p [] u = tt
filter-UniqueKeys p (i ∷ items) (fresh, u) = elim (Bool-cases (p i)) [
  | inl passes ↦ rw passes (has_key-filter p i.id items fresh, filter-UniqueKeys p items u)
  | inr fails ↦ rw fails (filter-UniqueKeys p items u)
]

-- An item that is listed as available is an item of the project, all its edges come from items of
-- the project that are done, and a claim of it succeeds and gives it to the terminal.
pub available-claim :
    (now : ℕ) (project_id item_id terminal_id : String) (s : Graph) (item : WorkItem)
    → UniqueKeys (λ i. i.id) s.items
    → get (λ i. i.id) item_id (list_available_work_items project_id s) ≡ some item
    → ((item.project_id == project_id) ≡ true)
      × (is_unblocked project_id s item ≡ true)
      × ((claim_work_item now item_id terminal_id s).0 ≡ ok (claim_row now terminal_id item))
unfolding list_available_work_items
available-claim now project_id item_id terminal_id s item u h =
    let p = λ (i : WorkItem). i.project_id == project_id && is_claimable i in
    let (listed, unblocked) =
      get-filter (is_unblocked project_id s) item_id (filter p s.items) item
        (filter-UniqueKeys p s.items u) h in
    let (found, passes) = get-filter p item_id s.items item u listed in
    (
      ground (arith, passes),
      unblocked,
      claimable-ok now item_id terminal_id s item found (ground (arith, passes)),
    )
