-- ===== src/Base/Sorted.antt =====
-- `sorted(set(values))` of texts, and membership in it.
use Prim.Native.Nat.{Ordering}
use Prim.Native.String.{String, compare}
use mathlib.Core.Path.{◌≡◌, refl}
use mathlib.Core.Bool.{Bool, true, false, not, ◌&&◌, ◌||◌}
use mathlib.Core.List.{List, [], ◌∷◌, ◌++◌}
use native.Mathlib.Omega.{arith}
use text.Mathlib.TextEquality.{path_by_compare}
use agent_factor.Base.Equality.{◌==◌, contains, string_eq}
use agent_factor.Base.Lists.{filter, all, any}

-- The order of the texts' UTF-8 bytes is that of their code points, which Python sorts by.
insert_sorted : String → List String → List String
insert_sorted s [] = s ∷ []
insert_sorted s (t ∷ ts) =
    let rest = insert_sorted s ts in
    elim (compare s t) [ Ordering.lt ↦ s ∷ t ∷ ts | Ordering.eq ↦ t ∷ ts | Ordering.gt ↦ t ∷ rest ]

unfoldable pub sorted_set : List String → List String
unfolding insert_sorted
sorted_set [] = []
sorted_set (s ∷ ss) = insert_sorted s (sorted_set ss)

-- `a - b` and `a & b` of sets
unfoldable pub difference : List String → List String → List String
unfolding filter
difference a b = filter (λ x. not (contains b x)) a

unfoldable pub intersection : List String → List String → List String
unfolding filter
intersection a b = filter (λ x. contains b x) a

-- `order_by` of a column of texts.
module _ {ℓ} {A : Type ℓ} (key : A → String) where
  insert_by : A → List A → List A
  insert_by x [] = x ∷ []
  insert_by x (y ∷ ys) =
      let rest = insert_by x ys in
      elim (compare (key x) (key y)) [
        | Ordering.lt ↦ x ∷ y ∷ ys
        | Ordering.eq ↦ x ∷ y ∷ ys
        | Ordering.gt ↦ y ∷ rest
      ]

  unfoldable pub sort_by : List A → List A
  unfolding insert_by
  sort_by [] = []
  sort_by (x ∷ xs) = insert_by x (sort_by xs)

  any-insert_by : (p : A → Bool) (x : A) (ys : List A) → any p (insert_by x ys) ≡ (p x || any p ys)
  unfolding insert_by any
  any-insert_by p x [] = refl
  any-insert_by p x (y ∷ ys) = ground (arith, any-insert_by p x ys)

  pub any-sort_by : (p : A → Bool) (xs : List A) → any p (sort_by xs) ≡ any p xs
  unfolding sort_by any
  any-sort_by p [] = refl
  any-sort_by p (x ∷ xs) = ground (arith, any-insert_by p x (sort_by xs), any-sort_by p xs)

-- Membership is what the rest of the development needs of the three.
contains-insert_sorted :
    (a s : String) (ss : List String) → contains (insert_sorted s ss) a ≡ (a == s || contains ss a)
unfolding insert_sorted
contains-insert_sorted a s [] = refl
contains-insert_sorted a s (t ∷ ts) =
    ground (arith, contains-insert_sorted a s ts, path_by_compare s t)

pub contains-sorted_set :
    (a : String) (ss : List String) → contains (sorted_set ss) a ≡ contains ss a
unfolding sorted_set
contains-sorted_set a [] = refl
contains-sorted_set a (s ∷ ss) =
    ground (arith, contains-insert_sorted a s (sorted_set ss), contains-sorted_set a ss)

contains-filter :
    (p : String → Bool) (a : String) (xs : List String)
    → contains (filter p xs) a ≡ (contains xs a && p a)
unfolding filter
contains-filter p a [] = refl
contains-filter p a (x ∷ xs) = ground (arith, contains-filter p a xs)

pub contains-difference :
    (a : String) (xs ys : List String)
    → contains (difference xs ys) a ≡ (contains xs a && not (contains ys a))
unfolding difference
contains-difference a xs ys = contains-filter (λ x. not (contains ys x)) a xs

pub contains-intersection :
    (a : String) (xs ys : List String)
    → contains (intersection xs ys) a ≡ (contains xs a && contains ys a)
unfolding intersection
contains-intersection a xs ys = contains-filter (λ x. contains ys x) a xs

all-insert_sorted :
    (p : String → Bool) (s : String) (ss : List String)
    → all p (insert_sorted s ss) ≡ (p s && all p ss)
unfolding insert_sorted all
all-insert_sorted p s [] = refl
all-insert_sorted p s (t ∷ ts) = ground (arith, all-insert_sorted p s ts, path_by_compare s t)

-- A test that all elements pass does not see the order, or how often an element stands in the list.
pub all-sorted_set : (p : String → Bool) (ss : List String) → all p (sorted_set ss) ≡ all p ss
unfolding sorted_set all
all-sorted_set p [] = refl
all-sorted_set p (s ∷ ss) =
    ground (arith, all-insert_sorted p s (sorted_set ss), all-sorted_set p ss)

abbrev pub is_empty : List String → Bool
is_empty [] = true
is_empty (s ∷ ss) = false

-- `a - b` is empty when all of `a` is in `b`.
pub is_empty-difference : (xs ys : List String) → is_empty (difference xs ys) ≡ all (contains ys) xs
unfolding difference filter all
is_empty-difference [] ys = refl
is_empty-difference (x ∷ xs) ys = ground (arith, is_empty-difference xs ys)

pub contains-append :
    (xs ys : List String) (a : String) → contains (xs ++ ys) a ≡ (contains xs a || contains ys a)
contains-append [] ys a = refl
contains-append (x ∷ xs) ys a = ground (arith, contains-append xs ys a)

pub all-contains :
    (p : String → Bool) (xs : List String) (a : String)
    → all p xs ≡ true
    → contains xs a ≡ true
    → p a ≡ true
unfolding all
all-contains p [] a h c = ground arith
all-contains p (x ∷ xs) a h c = ground (arith, all-contains p xs a)

pub all-cong :
    (p q : String → Bool) → ((a : String) → p a ≡ q a) → (xs : List String) → all p xs ≡ all q xs
unfolding all
all-cong p q e [] = refl
all-cong p q e (x ∷ xs) = ground (arith, all-cong p q e xs, e x)
