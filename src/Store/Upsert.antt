-- ===== src/Store/Upsert.antt =====
-- The row of a key is changed, or added where there is none.
use agent_factor.Base.{
  String, true, false, Option, none, some, List, [], ◌∷◌, ◌++◌, ◌≡◌, arith, inl, inr,
}
use agent_factor.Base.{
  ◌==◌, string_eq, if◌then◌else◌, find?, find?-append, update_where, Option-cases,
}
use agent_factor.Store.{get, get-update_where, get-update_where-ne}

module _ {ℓ} {A : Type ℓ} (key : A → String) where
  unfoldable pub upsert : String → A → (A → A) → List A → List A
  upsert k row f rows = elim (get key k rows) [
    | none ↦ rows ++ row ∷ []
    | some _ ↦ update_where (λ r. key r == k) f rows
  ]

  -- The row that an upsert leaves.
  abbrev pub upserted : A → (A → A) → Option A → A
  upserted row f none = row
  upserted row f (some r) = f r

  get-append :
      (j : String) (rows : List A) (row : A)
      → get key j rows ≡ none
      → get key j (rows ++ row ∷ []) ≡ (if key row == j then some row else none)
  unfolding get find?
  get-append j rows row h = ground (arith, h, find?-append (λ r. key r == j) rows (row ∷ []))

  get-append_some :
      (j : String) (rows : List A) (row r : A)
      → get key j rows ≡ some r
      → get key j (rows ++ row ∷ []) ≡ some r
  unfolding get find?
  get-append_some j rows row r h = ground (arith, h, find?-append (λ r. key r == j) rows (row ∷ []))

  module _ (k : String) (row : A) (f : A → A) (same : (r : A) → key (f r) ≡ key r) where
    pub get-upsert :
        (rows : List A)
        → (key row == k) ≡ true
        → get key k (upsert k row f rows) ≡ some (upserted row f (get key k rows))
    unfolding upsert
    get-upsert rows h = elim (Option-cases (get key k rows)) [
      | inl e ↦ ground (arith, e, h, get-append k rows row e)
      | inr (r, e) ↦ ground (arith, e, get-update_where key k f same rows)
    ]

    pub get-upsert-ne :
        (j : String) (rows : List A)
        → (key row == k) ≡ true
        → (j == k) ≡ false
        → get key j (upsert k row f rows) ≡ get key j rows
    unfolding upsert
    get-upsert-ne j rows h differ = elim (Option-cases (get key k rows)) [
      | inl e ↦ elim (Option-cases (get key j rows)) [
        | inl g ↦ ground (arith, e, g, h, differ, get-append j rows row g)
        | inr (q, g) ↦ ground (arith, e, g, get-append_some j rows row q g)
      ]
      | inr (r, e) ↦ ground (arith, e, get-update_where-ne key k f same j rows differ)
    ]
