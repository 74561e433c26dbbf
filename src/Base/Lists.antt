-- ===== src/Base/Lists.antt =====
-- Lists tested by Boolean functions, and measured by the native numbers.
use Prim.Native.Nat.{ℕ, suc, ◌+◌, ◌≤◌}
use mathlib.Core.Path.{◌≡◌, refl}
use mathlib.Core.Bool.{Bool, true, false, ◌&&◌, ◌||◌}
use mathlib.Core.Option.{Option, none, some}
use mathlib.Core.List.{List, [], ◌∷◌, ◌++◌}
use native.Mathlib.Omega.{arith}
use agent_factor.Base.Tests.{if◌then◌else◌}

module _ {ℓ} {A : Type ℓ} where
  abbrev pub length : List A → ℕ
  length [] = 0
  length (x ∷ xs) = suc (length xs)

  -- `any(p(x) for x in xs)`
  unfoldable pub any : (A → Bool) → List A → Bool
  any p [] = false
  any p (x ∷ xs) = p x || any p xs

  -- `all(p(x) for x in xs)`
  unfoldable pub all : (A → Bool) → List A → Bool
  all p [] = true
  all p (x ∷ xs) = p x && all p xs

  -- `[x for x in xs if p(x)]`
  unfoldable pub filter : (A → Bool) → List A → List A
  filter p [] = []
  filter p (x ∷ xs) = let rest = filter p xs in if p x then x ∷ rest else rest

  -- `next((x for x in xs if p(x)), None)`
  unfoldable pub find? : (A → Bool) → List A → Option A
  find? p [] = none
  find? p (x ∷ xs) = if p x then some x else find? p xs

  -- Every row that passes `p` is changed by `f`.
  unfoldable pub update_where : (A → Bool) → (A → A) → List A → List A
  update_where p f [] = []
  update_where p f (x ∷ xs) = (if p x then f x else x) ∷ update_where p f xs

  -- The number of rows that pass `p`.
  unfoldable pub count_if : (A → Bool) → List A → ℕ
  count_if p [] = 0
  count_if p (x ∷ xs) = (if p x then 1 else 0) + count_if p xs

  abbrev pub All {κ} : (A → Type κ) → List A → Type κ
  All P [] = Unit
  All P (x ∷ xs) = P x × All P xs

  pub All-append {κ} : (P : A → Type κ) (xs ys : List A) → All P xs → All P ys → All P (xs ++ ys)
  All-append P [] ys h k = k
  All-append P (x ∷ xs) ys (p, h) k = (p, All-append P xs ys h k)

  pub length-append : (xs ys : List A) → length (xs ++ ys) ≡ length xs + length ys
  length-append [] ys = omega arith
  length-append (x ∷ xs) ys = omega (arith, length-append xs ys)

module _ {ℓ} {A : Type ℓ} (p : A → Bool) where
  pub find?-append :
      (xs ys : List A)
      → find? p (xs ++ ys) ≡ elim (find? p xs) [ none ↦ find? p ys | some x ↦ some x ]
  unfolding find?
  find?-append [] ys = refl
  find?-append (x ∷ xs) ys = ground (arith, find?-append xs ys)

  -- What is found passes the test.
  pub find?-passes : (xs : List A) (a : A) → find? p xs ≡ some a → p a ≡ true
  unfolding find?
  find?-passes [] a h = ground arith
  find?-passes (x ∷ xs) a h = ground (arith, find?-passes xs a)

  pub count_if-append : (xs ys : List A) → count_if p (xs ++ ys) ≡ count_if p xs + count_if p ys
  unfolding count_if
  count_if-append [] ys = omega arith
  count_if-append (x ∷ xs) ys = omega (arith, count_if-append xs ys)

  pub filter-append : (xs ys : List A) → filter p (xs ++ ys) ≡ filter p xs ++ filter p ys
  unfolding filter
  filter-append [] ys = refl
  filter-append (x ∷ xs) ys = ground (arith, filter-append xs ys)

  pub find?-none : (xs : List A) → find? p xs ≡ none → any p xs ≡ false
  unfolding find? any
  find?-none [] h = refl
  find?-none (x ∷ xs) h = ground (arith, find?-none xs)

  pub any-find? : (xs : List A) → any p xs ≡ false → find? p xs ≡ none
  unfolding find? any
  any-find? [] h = refl
  any-find? (x ∷ xs) h = ground (arith, any-find? xs)

  pub any-append : (xs ys : List A) → any p (xs ++ ys) ≡ (any p xs || any p ys)
  unfolding any
  any-append [] ys = refl
  any-append (x ∷ xs) ys = ground (arith, any-append xs ys)

  -- A change that every passing row of the list undergoes leaves the others as they are.
  pub update_where-none : (f : A → A) (xs : List A) → any p xs ≡ false → update_where p f xs ≡ xs
  unfolding update_where any
  update_where-none f [] h = refl
  update_where-none f (x ∷ xs) h = ground (arith, update_where-none f xs)

module _ {ℓ} {A : Type ℓ} (p q : A → Bool) where
  find?-count_zero : (xs : List A) → count_if p xs ≡ 0 → find? (λ x. q x && p x) xs ≡ none
  unfolding find? count_if
  find?-count_zero [] h = refl
  find?-count_zero (x ∷ xs) h = ground (arith, find?-count_zero xs)

  -- Where one element at most passes `p`, a stronger test finds the same one.
  pub find?-at_most_one :
      (xs : List A) (a : A)
      → count_if p xs ≤ 1
      → find? (λ x. q x && p x) xs ≡ some a
      → find? p xs ≡ some a
  unfolding find? count_if
  find?-at_most_one [] a c h = ground arith
  find?-at_most_one (x ∷ xs) a c h = ground (arith, find?-at_most_one xs a, find?-count_zero xs)

  pub any-filter : (xs : List A) → any p (filter q xs) ≡ any (λ x. q x && p x) xs
  unfolding any filter
  any-filter [] = refl
  any-filter (x ∷ xs) = ground (arith, any-filter xs)

  pub find?-filter : (xs : List A) → find? p (filter q xs) ≡ find? (λ x. q x && p x) xs
  unfolding find? filter
  find?-filter [] = refl
  find?-filter (x ∷ xs) = ground (arith, find?-filter xs)

-- What is found after a change of the rows that pass, where they pass as before.
module _ {ℓ} {A : Type ℓ} (p : A → Bool) (f : A → A) (same : (x : A) → p (f x) ≡ p x) where
  abbrev change : Option A → Option A
  change none = none
  change (some x) = some (f x)

  pub find?-update_where : (xs : List A) → find? p (update_where p f xs) ≡ change (find? p xs)
  unfolding find? update_where
  find?-update_where [] = refl
  find?-update_where (x ∷ xs) = ground (arith, find?-update_where xs, same x)

module _ {ℓ} {A : Type ℓ} (q : A → Bool) where
  -- What holds of every row holds after a change of some rows that keeps it.
  pub all-update_where :
      (p : A → Bool) (f : A → A)
      → ((x : A) → p x ≡ true → q x ≡ true → q (f x) ≡ true)
      → (xs : List A) → all q xs ≡ true
      → all q (update_where p f xs) ≡ true
  unfolding all update_where
  all-update_where p f keep [] h = refl
  all-update_where p f keep (x ∷ xs) h = ground (arith, keep x, all-update_where p f keep xs)

  -- What holds of every row holds of the one that is found.
  pub all-find? :
      (p : A → Bool) (xs : List A) (a : A) → all q xs ≡ true → find? p xs ≡ some a → q a ≡ true
  unfolding all find?
  all-find? p [] a h e = ground arith
  all-find? p (x ∷ xs) a h e = ground (arith, all-find? p xs a)
