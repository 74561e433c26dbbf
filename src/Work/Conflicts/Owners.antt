-- ===== src/Work/Conflicts/Owners.antt =====
-- The owners of a file, and the pairs of them.
use agent_factor.Base.{
  String, Bool, true, false, ◌&&◌, ◌||◌, ◌≡◌, refl, arith, List, [], ◌∷◌, ◌++◌, map,
}
use agent_factor.Base.{◌==◌, contains, string_eq, option_eq, if◌then◌else◌, any, any-append}
use agent_factor.Work.Graph.{WorkItem}
use agent_factor.Work.Conflicts.{FileOwners, add_owner, add_files, file_owners, combinations}
use agent_factor.Work.Conflicts.Listed.{lists}

contains-append :
    (xs ys : List String) (a : String) → contains (xs ++ ys) a ≡ (contains xs a || contains ys a)
contains-append [] ys a = refl
contains-append (x ∷ xs) ys a = ground (arith, contains-append xs ys a)

-- The entry of the file names the item.
unfoldable pub names : String → String → List FileOwners → Bool
names f a [] = false
names f a (o ∷ os) = if o.file == f then contains o.owners a else names f a os

names-add_owner :
    (f a g item_id : String) (os : List FileOwners)
    → names f a (add_owner g item_id os) ≡ (names f a os || (f == g && a == item_id))
unfolding names add_owner
names-add_owner f a g item_id [] = ground arith
names-add_owner f a g item_id (o ∷ os) =
    ground (arith, names-add_owner f a g item_id os, contains-append o.owners (item_id ∷ []) a)

names-add_files :
    (f a item_id : String) (fs : List String) (os : List FileOwners)
    → names f a (add_files item_id fs os) ≡ (names f a os || (contains fs f && a == item_id))
unfolding add_files
names-add_files f a item_id [] os = ground arith
names-add_files f a item_id (g ∷ fs) os = ground (
  arith,
  names-add_files f a item_id fs (add_owner g item_id os),
  names-add_owner f a g item_id os,
)

pub names-file_owners :
    (f a : String) (xs : List WorkItem) (os : List FileOwners)
    → names f a (file_owners xs os) ≡ (names f a os || any (lists f a) xs)
unfolding file_owners any lists
names-file_owners f a [] os = ground arith
names-file_owners f a (x ∷ xs) os = ground (
  arith,
  names-file_owners f a xs (add_files x.id x.files_of_interest os),
  names-add_files f a x.id x.files_of_interest os,
)

unfoldable pub paired : String → String → List (String × String) → Bool
paired a b ps = any (λ p. p.0 == a && p.1 == b) ps

paired-map :
    (a b x : String) (ys : List String)
    → paired a b (map (λ y. (x, y)) ys) ≡ (x == a && contains ys b)
unfolding paired any
paired-map a b x [] = ground arith
paired-map a b x (y ∷ ys) = ground (arith, paired-map a b x ys)

paired-append :
    (a b : String) (ps qs : List (String × String))
    → paired a b (ps ++ qs) ≡ (paired a b ps || paired a b qs)
unfolding paired
paired-append a b ps qs = any-append (λ p. p.0 == a && p.1 == b) ps qs

pub paired-combinations :
    (a b : String) (xs : List String)
    → (a == b) ≡ false
    → contains xs a ≡ true
    → contains xs b ≡ true
    → (paired a b (combinations xs) || paired b a (combinations xs)) ≡ true
unfolding combinations paired any
paired-combinations a b [] d ha hb = ha
paired-combinations a b (x ∷ xs) d ha hb = ground (
  arith,
  paired-combinations a b xs,
  paired-append a b (map (λ y. (x, y)) xs) (combinations xs),
  paired-append b a (map (λ y. (x, y)) xs) (combinations xs),
  paired-map a b x xs,
  paired-map b a x xs,
)
