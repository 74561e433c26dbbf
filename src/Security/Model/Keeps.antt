-- ===== src/Security/Model/Keeps.antt =====
-- Properties of the tables that a method keeps, whether it returns or raises: one rule for each way
-- to build a method.
use agent_factor.Base.{
  ℕ, String, ◌≡◌, refl, arith, Result, ok, err, Exec, lift, pure, raise, continue, ◌>>=◌,
}
use agent_factor.Base.{Bool, true, false, if◌then◌else◌}
use agent_factor.Security.Model.{Db, State, commit, session_scope, draw}

pub record Keeps {A : Type 0} (P : Db → Type 0) (m : Exec State A) : Type 0 where
  pub at : (s : State) → P s.db → P (m s).1.db

module _ {A : Type 0} {P : Db → Type 0} where
  pub Keeps-pure : (a : A) → Keeps P (pure a)
  Keeps-pure a = record { at = λ s p. p }

  pub Keeps-raise : (e : String) (n : ℕ) → Keeps P (raise {A = A} e n)
  Keeps-raise e n = record { at = λ s p. p }

  pub Keeps-lift : (r : Result A) → Keeps P (lift r)
  Keeps-lift r = record { at = λ s p. p }

  commit_at :
      (s : State) (r : Result (A × Db))
      → ((a : A) (db' : Db) → r ≡ ok (a, db') → P db')
      → P s.db
      → P (commit s r).1.db
  commit_at s (ok (a, db')) k p = k a db' refl
  commit_at s (err e n) k p = p

  pub Keeps-session_scope :
      (body : Db → Result (A × Db))
      → ((db db' : Db) (a : A) → body db ≡ ok (a, db') → P db → P db')
      → Keeps P (session_scope body)
  unfolding session_scope
  Keeps-session_scope body k = record {
    at = λ s p. commit_at s (body s.db) (λ a db' e. k s.db db' a e p) p;
  }

  pub Keeps-if :
      (b : Bool) (m n : Exec State A) → Keeps P m → Keeps P n → Keeps P (if b then m else n)
  Keeps-if true m n km kn = km
  Keeps-if false m n km kn = kn

pub Keeps-draw : {P : Db → Type 0} (n : ℕ) → Keeps P (draw n)
Keeps-draw n = record { at = λ s p. p }

module _ {A B : Type 0} {P : Db → Type 0} where
  continue_at :
      (f : A → Exec State B)
      → ((a : A) → Keeps P (f a))
      → (r : Result A) (s : State) → P s.db
      → P (continue r f s).1.db
  continue_at f kf (ok a) s p = (kf a).at s p
  continue_at f kf (err e n) s p = p

  pub Keeps-bind :
      (m : Exec State A) (f : A → Exec State B)
      → Keeps P m
      → ((a : A) → Keeps P (f a))
      → Keeps P (m >>= f)
  Keeps-bind m f km kf = record {
    at = λ s p. let (r, s') = m s in continue_at f kf r s' (km.at s p);
  }

pub ruleset keeps_rules = (Keeps-pure, Keeps-raise, Keeps-lift, Keeps-if, Keeps-draw, Keeps-bind)

module _ {A : Type 0} where
  commit-eq-ok :
      (s s' : State) (r : Result (A × Db)) (a : A) → commit s r ≡ (ok a, s') → r ≡ ok (a, s'.db)
  commit-eq-ok s s' r a h = ground arith

  -- A block whose method returned has returned, with the tables that were committed.
  pub session_scope-eq-ok :
      (body : Db → Result (A × Db)) (s s' : State) (a : A)
      → session_scope body s ≡ (ok a, s')
      → body s.db ≡ ok (a, s'.db)
  unfolding session_scope
  session_scope-eq-ok body s s' a h = commit-eq-ok s s' (body s.db) a h
