-- ===== src/Store/Exclusive.antt =====
-- One row of a table is marked, and every other row that was marked is unmarked.
use agent_factor.Base.{
  String, Bool, true, false, not, ◌&&◌, none, some, List, [], ◌∷◌, ◌≡◌, refl, arith,
}
use agent_factor.Base.{◌==◌, string_eq, find?, update_where, count_if, any}
use agent_factor.Store.{get, has_key, UniqueKeys, UniqueKeys-update_where}

module _ {ℓ} {A : Type ℓ} (key : A → String) (marked : A → Bool) (set unset : A → A) where
  -- The two updates in the order in which the code makes them.
  abbrev pub exclusive : String → List A → List A
  exclusive k rows =
      update_where (λ r. key r == k) set
        (update_where (λ r. not (key r == k) && marked r) unset rows)

  module _ (sets : (r : A) → marked (set r) ≡ true) (unsets : (r : A) → marked (unset r) ≡ false)
      (set_key : (r : A) → key (set r) ≡ key r) (unset_key : (r : A) → key (unset r) ≡ key r) where
    -- The first marked row is the row of the key.
    pub find?-exclusive :
        (k : String) (rows : List A)
        → find? marked (exclusive k rows)
          ≡ elim (get key k rows) [ none ↦ none | some r ↦ some (set r) ]
    unfolding find? update_where get
    find?-exclusive k [] = refl
    find?-exclusive k (r ∷ rows) =
        ground (arith, find?-exclusive k rows, sets r, unsets r, unset_key r)

    pub count_if-exclusive_none :
        (k : String) (rows : List A)
        → has_key key k rows ≡ false
        → count_if marked (exclusive k rows) ≡ 0
    unfolding count_if update_where has_key any
    count_if-exclusive_none k [] h = refl
    count_if-exclusive_none k (r ∷ rows) h =
        ground (arith, count_if-exclusive_none k rows, sets r, unsets r, unset_key r)

    -- Exactly one row is marked.
    pub count_if-exclusive :
        (k : String) (rows : List A) (found : A)
        → UniqueKeys key rows
        → get key k rows ≡ some found
        → count_if marked (exclusive k rows) ≡ 1
    unfolding count_if update_where get
    count_if-exclusive k [] found u h = ground arith
    count_if-exclusive k (r ∷ rows) found (fresh, u) h = ground (
      arith,
      count_if-exclusive k rows found u,
      count_if-exclusive_none k rows,
      sets r,
      unsets r,
      unset_key r,
    )

    pub UniqueKeys-exclusive :
        (k : String) (rows : List A) → UniqueKeys key rows → UniqueKeys key (exclusive k rows)
    UniqueKeys-exclusive k rows u =
        UniqueKeys-update_where key (λ r. key r == k) set set_key _
          (UniqueKeys-update_where key (λ r. not (key r == k) && marked r) unset unset_key rows u)
