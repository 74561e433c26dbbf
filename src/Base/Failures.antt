-- ===== src/Base/Failures.antt =====
-- The services raise exceptions that carry a code and an HTTP status.
use Prim.Native.Nat.{ℕ}
use Prim.Native.String.{String}
use mathlib.Core.Path.{◌≡◌, refl}
use mathlib.Core.Logic.{◌⊎◌, inl, inr}
use mathlib.Core.Bool.{Bool, true, false}
use native.Mathlib.Omega.{arith}
use mathlib.Core.List.{List, [], ◌∷◌}
use native.Mathlib.Omega.{arith}

-- `err code status` stands for `raise …Error(code, status)`.
pub data Result {ℓ} (A : Type ℓ) : Type ℓ where
  ok : A → Result A
  err : String → ℕ → Result A

abbrev pub and_then {ℓ κ} : {A : Type ℓ} {B : Type κ} → Result A → (A → Result B) → Result B
and_then (ok a) f = f a
and_then (err e n) f = err e n

abbrev pub then_do {ℓ κ} : {A : Type ℓ} {B : Type κ} → Result A → Result B → Result B
then_do m k = and_then m (λ _. k)

-- `if not test: raise`
abbrev pub guard : Bool → String → ℕ → Result (Unit {0})
guard true e n = ok tt
guard false e n = err e n

-- `[f(x) for x in xs]`, where `f` may raise.
unfoldable pub map_result {ℓ κ} :
    {A : Type ℓ} {B : Type κ} → (A → Result B) → List A → Result (List B)
map_result f [] = ok []
map_result f (x ∷ xs) = and_then (f x) (λ y. and_then (map_result f xs) (λ ys. ok (y ∷ ys)))

pub and_then-eq-ok {ℓ κ} :
    {A : Type ℓ} {B : Type κ} (m : Result A) (f : A → Result B) {b : B}
    → and_then m f ≡ ok b
    → (a : A) × (m ≡ ok a) × (f a ≡ ok b)
and_then-eq-ok (ok a) f h = (a, refl, h)
and_then-eq-ok (err e n) f h = cc

pub Result-cases {ℓ} :
    {A : Type ℓ} (r : Result A) → ((a : A) × (r ≡ ok a)) ⊎ ((e : String) × (n : ℕ) × (r ≡ err e n))
Result-cases (ok a) = inl (a, refl)
Result-cases (err e n) = inr (e, n, refl)

pub ok-injective {ℓ} : {A : Type ℓ} (a b : A) → ok a ≡ ok b → a ≡ b
ok-injective a b h = ground arith

-- The value of a result, or a default.
abbrev pub ok_value {ℓ} : {A : Type ℓ} → A → Result A → A
ok_value d (ok a) = a
ok_value d (err e n) = d
