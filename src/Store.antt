-- ===== src/Store.antt =====
-- Tables of clients/database.py as lists of rows in the order of insertion, and the primary keys
-- and `unique` columns that SQLite enforces when a session is flushed.
pub mod Exclusive
pub mod Upsert
use agent_factor.Base.{
  String, Bool, true, false, Option, none, some, List, [], ◌∷◌, ◌++◌, ◌≡◌, refl,
}
use agent_factor.Base.{◌==◌, string_eq, if◌then◌else◌, Result, ok, err, arith, ◌||◌}
use agent_factor.Base.{any, find?, update_where, find?-passes, find?-append, any-find?, ==-refl}

-- The flush of a row whose key another row has raises SQLAlchemy's `IntegrityError`.
abbrev pub integrity_error : String
integrity_error = "IntegrityError"

module _ {ℓ} {A : Type ℓ} (key : A → String) where
  -- A row of the table has this key.
  unfoldable pub has_key : String → List A → Bool
  unfolding any
  has_key k rows = any (λ r. key r == k) rows

  -- `db.get(Table, k)`
  unfoldable pub get : String → List A → Option A
  unfolding find?
  get k rows = find? (λ r. key r == k) rows

  -- `db.add(row)` and the flush
  unfoldable pub add : A → List A → Result (List A)
  unfolding has_key
  add row rows = if has_key (key row) rows then err integrity_error 500 else ok (rows ++ row ∷ [])

  -- The keys are pairwise different.
  abbrev pub UniqueKeys : List A → Type 0
  UniqueKeys [] = Unit
  UniqueKeys (r ∷ rows) = (has_key (key r) rows ≡ false) × UniqueKeys rows

  pub has_key-append :
      (k : String) (rows : List A) (row : A)
      → has_key k (rows ++ row ∷ []) ≡ (has_key k rows || key row == k)
  unfolding has_key
  has_key-append k [] row = ground arith
  has_key-append k (r ∷ rows) row = ground (arith, has_key-append k rows row)

  pub UniqueKeys-append :
      (rows : List A) (row : A)
      → UniqueKeys rows
      → has_key (key row) rows ≡ false
      → UniqueKeys (rows ++ row ∷ [])
  unfolding has_key
  UniqueKeys-append [] row u h = (refl, tt)
  UniqueKeys-append (r ∷ rows) row (fresh, u) h =
      (ground (arith, has_key-append (key r) rows row), UniqueKeys-append rows row u (ground arith))

  -- A successful flush has appended a row whose key is new.
  pub add-eq-ok :
      (row : A) (rows rows' : List A)
      → add row rows ≡ ok rows'
      → (has_key (key row) rows ≡ false) × (rows' ≡ rows ++ row ∷ [])
  unfolding add
  add-eq-ok row rows rows' h = ground arith

  -- The row that was added is found.
  pub get-add :
      (row : A) (rows rows' : List A) → add row rows ≡ ok rows' → get (key row) rows' ≡ some row
  unfolding get has_key find?
  get-add row rows rows' h =
      let (fresh, e) = add-eq-ok row rows rows' h in
      ground (
        arith,
        e,
        find?-append (λ r. key r == key row) rows (row ∷ []),
        any-find? (λ r. key r == key row) rows fresh,
        ==-refl (key row),
      )

  -- An added row keeps the keys unique.
  pub add-UniqueKeys :
      (row : A) (rows rows' : List A) → add row rows ≡ ok rows' → UniqueKeys rows → UniqueKeys rows'
  add-UniqueKeys row rows rows' h u =
      let (fresh, e) = add-eq-ok row rows rows' h in rw e (UniqueKeys-append rows row u fresh)

  module _ (p : A → Bool) (f : A → A) (same : (r : A) → key (f r) ≡ key r) where
    pub has_key-update_where :
        (k : String) (rows : List A) → has_key k (update_where p f rows) ≡ has_key k rows
    unfolding has_key update_where
    has_key-update_where k [] = refl
    has_key-update_where k (r ∷ rows) = ground (arith, has_key-update_where k rows, same r)

    pub UniqueKeys-update_where :
        (rows : List A) → UniqueKeys rows → UniqueKeys (update_where p f rows)
    unfolding update_where
    UniqueKeys-update_where [] u = tt
    UniqueKeys-update_where (r ∷ rows) (fresh, u) =
        (ground (arith, has_key-update_where (key r) rows, same r), UniqueKeys-update_where rows u)

  module _ (k : String) (f : A → A) (same : (r : A) → key (f r) ≡ key r) where
    -- The row of a key after a change of that row, and of the rows of other keys.
    pub get-update_where :
        (rows : List A)
        → get k (update_where (λ r. key r == k) f rows)
          ≡ elim (get k rows) [ none ↦ none | some r ↦ some (f r) ]
    unfolding get update_where
    get-update_where [] = refl
    get-update_where (r ∷ rows) = ground (arith, get-update_where rows, same r)

    pub get-update_where-ne :
        (j : String) (rows : List A)
        → (j == k) ≡ false
        → get j (update_where (λ r. key r == k) f rows) ≡ get j rows
    unfolding get update_where
    get-update_where-ne j [] h = refl
    get-update_where-ne j (r ∷ rows) h = ground (arith, get-update_where-ne j rows h, same r)

  pub get-key : (k : String) (rows : List A) (r : A) → get k rows ≡ some r → (key r == k) ≡ true
  unfolding get
  get-key k rows r h = find?-passes (λ r. key r == k) rows r h
