-- ===== src/Work/Conflicts/Listed.antt =====
-- The items that are interested in a file, the edges that join two of them, and what the loops over
-- the files collect.
use agent_factor.Base.{
  String, Bool, true, ◌&&◌, ◌||◌, ◌≡◌, refl, arith, some, List, [], ◌∷◌, ◌++◌, map, inl, inr,
}
use agent_factor.Base.{◌==◌, contains, string_eq, option_eq, any, Bool-cases, all, find?}
use agent_factor.Store.{get}
use agent_factor.Work.Graph.{WorkItem, WorkEdge}
use agent_factor.Work.Conflicts.{
  is_collaboration, collab_pairs, FileOwners, add_owner, add_files, file_owners, combinations,
}

-- The item of this identifier is interested in the file.
unfoldable pub lists : String → String → WorkItem → Bool
lists f item_id i = i.id == item_id && contains i.files_of_interest f

-- An edge says that the two items collaborate.
unfoldable pub joins : String → String → WorkEdge → Bool
joins a b e =
    is_collaboration e.type
    && ((e.from_id == a && e.to_id == b) || (e.from_id == b && e.to_id == a))

all-append :
    {A : Type 0} (p : A → Bool) (xs ys : List A)
    → all p xs ≡ true
    → all p ys ≡ true
    → all p (xs ++ ys) ≡ true
unfolding all
all-append p [] ys h k = k
all-append p (x ∷ xs) ys h k = ground (arith, all-append p xs ys)

-- The edges of a pair of candidates are those that the pairs were made of.
pub collab_pairs-joins :
    (item_ids : List String) (a b : String)
    → contains item_ids a ≡ true
    → contains item_ids b ≡ true
    → (es : List WorkEdge)
    → any (λ p. p.0 == a && p.1 == b) (collab_pairs item_ids es) ≡ any (joins a b) es
unfolding any collab_pairs joins
collab_pairs-joins item_ids a b ha hb [] = refl
collab_pairs-joins item_ids a b ha hb (e ∷ es) =
    ground (arith, collab_pairs-joins item_ids a b ha hb es)

module _ (items : List WorkItem) where
  unfoldable pub is_listed : String → String → Bool
  is_listed f item_id = any (lists f item_id) items

  unfoldable pub entry_listed : FileOwners → Bool
  entry_listed o = all (is_listed o.file) o.owners

  add_owner-listed :
      (f item_id : String)
      → is_listed f item_id ≡ true
      → (os : List FileOwners) → all entry_listed os ≡ true
      → all entry_listed (add_owner f item_id os) ≡ true
  unfolding all add_owner entry_listed
  add_owner-listed f item_id h [] k = ground arith
  add_owner-listed f item_id h (o ∷ os) k = ground (
    arith,
    add_owner-listed f item_id h os,
    all-append (is_listed o.file) o.owners (item_id ∷ []),
  )

  add_files-listed :
      (item_id : String) (fs : List String)
      → ((f : String) → contains fs f ≡ true → is_listed f item_id ≡ true)
      → (os : List FileOwners) → all entry_listed os ≡ true
      → all entry_listed (add_files item_id fs os) ≡ true
  unfolding add_files
  add_files-listed item_id [] h os k = k
  add_files-listed item_id (f ∷ fs) h os k =
      add_files-listed item_id fs (λ g m. h g (ground arith)) (add_owner f item_id os)
        (add_owner-listed f item_id (h f (ground arith)) os k)

  pub file_owners-listed :
      (xs : List WorkItem)
      → ((f a : String) → any (lists f a) xs ≡ true → is_listed f a ≡ true)
      → (os : List FileOwners) → all entry_listed os ≡ true
      → all entry_listed (file_owners xs os) ≡ true
  unfolding file_owners any lists
  file_owners-listed [] h os k = k
  file_owners-listed (x ∷ xs) h os k =
      file_owners-listed xs (λ f a m. h f a (ground arith)) (add_files x.id x.files_of_interest os)
        (add_files-listed x.id x.files_of_interest (λ f m. h f x.id (ground arith)) os k)

  unfoldable pub both_listed : String → String × String → Bool
  both_listed f p = is_listed f p.0 && is_listed f p.1

  pairs-listed :
      (f a : String)
      → is_listed f a ≡ true
      → (bs : List String) → all (is_listed f) bs ≡ true
      → all (both_listed f) (map (λ b. (a, b)) bs) ≡ true
  unfolding all both_listed
  pairs-listed f a h [] k = refl
  pairs-listed f a h (b ∷ bs) k = ground (arith, pairs-listed f a h bs)

  pub combinations-listed :
      (f : String) (xs : List String)
      → all (is_listed f) xs ≡ true
      → all (both_listed f) (combinations xs) ≡ true
  unfolding combinations all
  combinations-listed f [] k = refl
  combinations-listed f (a ∷ rest) k =
      all-append (both_listed f) (map (λ b. (a, b)) rest) (combinations rest)
        (pairs-listed f a (ground arith) rest (ground arith))
        (combinations-listed f rest (ground arith))

pub ids-contain :
    (f a : String) (items : List WorkItem)
    → is_listed items f a ≡ true
    → contains (map (λ i. i.id) items) a ≡ true
unfolding is_listed any lists
ids-contain f a [] h = h
ids-contain f a (x ∷ items) h = ground (arith, ids-contain f a items)

-- An item that is listed is found.
pub get-listed :
    (f a : String) (items : List WorkItem)
    → is_listed items f a ≡ true
    → (i : WorkItem) × (get (λ i. i.id) a items ≡ some i)
unfolding is_listed any lists get find?
get-listed f a [] h = ground arith
get-listed f a (x ∷ items) h = elim (Bool-cases (x.id == a)) [
  | inl e ↦ (x, rw e refl)
  | inr e ↦ rw e (get-listed f a items (ground arith))
]
