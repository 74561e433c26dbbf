-- ===== src/Base/Methods.antt =====
-- Methods that change the state and may raise. What was written before a raise stays written.
use Prim.Native.Nat.{ℕ}
use Prim.Native.String.{String}
use mathlib.Core.Path.{◌≡◌, refl}
use native.Mathlib.Omega.{arith}
use agent_factor.Base.Failures.{Result, ok, err}

abbrev pub Exec {ℓ} : Type ℓ → Type ℓ → Type ℓ
Exec S A = S → Result A × S

module _ {ℓ} {S A : Type ℓ} where
  abbrev pub pure : A → Exec S A
  pure a s = (ok a, s)

  abbrev pub raise : String → ℕ → Exec S A
  raise e n s = (err e n, s)

  abbrev pub lift : Result A → Exec S A
  lift r s = (r, s)

  abbrev pub gets : (S → A) → Exec S A
  gets f s = (ok (f s), s)

module _ {ℓ} {S A B : Type ℓ} where
  abbrev pub continue : Result A → (A → Exec S B) → S → Result B × S
  continue (ok a) f s = f a s
  continue (err e n) f s = (err e n, s)

  infixl 10 ◌>>=◌ ◌>>◌
  abbrev pub ◌>>=◌ : Exec S A → (A → Exec S B) → Exec S B
  ◌>>=◌ m f s = let (r, s') = m s in continue r f s'

  abbrev pub ◌>>◌ : Exec S A → Exec S B → Exec S B
  m >> n = m >>= λ _. n

-- `with session_scope() as db:` over the tables of one service: what the block wrote is committed
-- when it ends, and rolled back when it raises.
module _ {ℓ} {S A : Type ℓ} where
  abbrev settle : S → Result (A × S) → Result A × S
  settle s (ok (a, s')) = (ok a, s')
  settle s (err e n) = (err e n, s)

  unfoldable pub transaction : (S → Result (A × S)) → Exec S A
  transaction body s = settle s (body s)

module _ {ℓ} {S A B : Type ℓ} where
  pub continue-eq-ok :
      (r : Result A) (f : A → Exec S B) (s1 s' : S) (b : B)
      → continue r f s1 ≡ (ok b, s')
      → (a : A) × (r ≡ ok a) × (f a s1 ≡ (ok b, s'))
  continue-eq-ok (ok a) f s1 s' b h = (a, refl, h)
  continue-eq-ok (err e n) f s1 s' b h = absurd (ground arith)

  -- A sequence that returned: its first part returned, and its second part from there.
  pub bind-eq-ok :
      (m : Exec S A) (f : A → Exec S B) (s s' : S) (b : B)
      → (m >>= f) s ≡ (ok b, s')
      → (a : A) × (s1 : S) × (m s ≡ (ok a, s1)) × (f a s1 ≡ (ok b, s'))
  bind-eq-ok m f s s' b h =
      let (r, s1) = m s in
      let (a, e, k) = continue-eq-ok r f s1 s' b h in (a, s1, ground (arith, e), k)

module _ {ℓ} {S A : Type ℓ} where
  pub lift-eq-ok : (r : Result A) (s s' : S) (a : A) → lift r s ≡ (ok a, s') → (r ≡ ok a) × (s' ≡ s)
  lift-eq-ok r s s' a h = ground arith
