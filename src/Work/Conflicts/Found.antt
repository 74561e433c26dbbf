-- ===== src/Work/Conflicts/Found.antt =====
-- Which conflicts are found.
use mathlib.Core.Path.{subst}
use mathlib.Core.Logic.{ite}
use agent_factor.Base.{
  String, Bool, true, false, ◌&&◌, ◌||◌, ◌≡◌, refl, arith, Option, some, List, [], ◌∷◌, ◌++◌, map,
  inl, inr, sym, ◌∙◌,
}
use agent_factor.Base.{
  ◌==◌, contains, string_eq, option_eq, if◌then◌else◌, any, any-append, Bool-cases,
}
use agent_factor.Base.{Result, ok, err, and_then, ok-injective}
use agent_factor.Store.{get}
use agent_factor.Work.Graph.{WorkItem, WorkEdge, Graph}
use agent_factor.Work.Conflicts.{
  candidates, collab_pairs, FileOwners, file_owners, combinations, Conflict, mapped_item,
  is_excused, conflicts_over, conflicts_of, detect_scope_conflicts,
}
use agent_factor.Work.Conflicts.Listed.{joins, is_listed, ids-contain, collab_pairs-joins}
use agent_factor.Work.Conflicts.Owners.{names, names-file_owners, paired, paired-combinations}

-- The conflict is about the two items and the file.
unfoldable pub is_about : String → String → String → Conflict → Bool
is_about f a b c =
    c.shared_file == f && ((c.item_a == a && c.item_b == b) || (c.item_a == b && c.item_b == a))

-- What three steps in a row have returned.
steps-eq-ok :
    {A B C : Type 0} (m : Result A) (n : Result B) (l : Result C) (h : A → B → C → C) (c : C)
    → and_then m (λ x. and_then n (λ y. and_then l (λ z. ok (h x y z)))) ≡ ok c
    → (x : A) × (y : B) × (z : C) × (m ≡ ok x) × (n ≡ ok y) × (l ≡ ok z) × (h x y z ≡ c)
steps-eq-ok (ok x) (ok y) (ok z) h c e = (x, y, z, refl, refl, refl, ok-injective _ _ e)
steps-eq-ok (ok x) (ok y) (err _ _) h c e = ground arith
steps-eq-ok (ok x) (err _ _) l h c e = ground arith
steps-eq-ok (err _ _) n l h c e = ground arith

module _ (items : List WorkItem) (pairs : List (String × String)) where
  mapped_item-eq :
      (x : String) (i j : WorkItem)
      → get (λ i. i.id) x items ≡ some i
      → mapped_item items pairs x ≡ ok j
      → i ≡ j
  unfolding mapped_item
  mapped_item-eq x i j h k = ok-injective i j (sym (rw (h, mapped_item) refl) ∙ k)

  conflict : String → String → String → WorkItem → WorkItem → List Conflict → List Conflict
  conflict f x y ix iy rest =
      if is_excused items pairs x y ix iy
      then rest
      else (record { item_a = x; item_b = y; shared_file = f }) ∷ rest

  module _ (a b : String) (ia ib : WorkItem) (ga : get (λ i. i.id) a items ≡ some ia)
      (gb : get (λ i. i.id) b items ≡ some ib) (apart : is_excused items pairs a b ia ib ≡ false)
      (f : String) where
    -- The pair itself is a conflict.
    conflict-first :
        (x y : String) (ix iy : WorkItem) (rest : List Conflict)
        → x ≡ a
        → y ≡ b
        → mapped_item items pairs x ≡ ok ix
        → mapped_item items pairs y ≡ ok iy
        → any (is_about f a b) (conflict f x y ix iy rest) ≡ true
    unfolding conflict any is_about
    conflict-first x y ix iy rest p q ex ey =
        let i = mapped_item-eq a ia ix ga (rw (← p) ex) in
        let j = mapped_item-eq b ib iy gb (rw (← q) ey) in
        let free : is_excused items pairs x y ix iy ≡ false = cc in ground (arith, free, p, q)

    conflict-rest :
        (x y : String) (ix iy : WorkItem) (rest : List Conflict)
        → any (is_about f a b) rest ≡ true
        → any (is_about f a b) (conflict f x y ix iy rest) ≡ true
    unfolding conflict any
    conflict-rest x y ix iy rest h = ground arith

    eq_of_both : (x y : String) → (x == a && y == b) ≡ true → (x ≡ a) × (y ≡ b)
    eq_of_both x y h = ground arith

    conflicts_over-finds :
        (ps : List (String × String)) (cs : List Conflict)
        → paired a b ps ≡ true
        → conflicts_over items pairs f ps ≡ ok cs
        → any (is_about f a b) cs ≡ true
    unfolding conflicts_over paired any conflict
    conflicts_over-finds [] cs h k = ground arith
    conflicts_over-finds ((x, y) ∷ ps) cs h k =
        let (ix, iy, rest, ex, ey, er, eq) =
          steps-eq-ok (mapped_item items pairs x) (mapped_item items pairs y)
            (conflicts_over items pairs f ps) (conflict f x y) cs k in
        rw (← eq) (elim (Bool-cases (x == a && y == b)) [
          | inl both ↦ let (p, q) = eq_of_both x y both in conflict-first x y ix iy rest p q ex ey
          | inr other ↦
              conflict-rest x y ix iy rest (conflicts_over-finds ps rest (ground arith) er)
        ])

eq_of_test : (x y : String) → (x == y) ≡ true → x ≡ y
eq_of_test x y h = ground arith

or_true : (x y : Bool) → y ≡ true → (x || y) ≡ true
or_true x y h = ground arith

decided_swap :
    (x y : Option String) (d : Dec (x ≡ y)) (e : Dec (y ≡ x))
    → ite d true false ≡ false
    → ite e true false ≡ false
decided_swap x y (yes p) e h = ground arith
decided_swap x y (no n) (yes q) h = absurd (n (sym q))
decided_swap x y (no n) (no _) h = refl

test_swap : (x y : Option String) → (x == y) ≡ false → (y == x) ≡ false
test_swap x y = decided_swap x y (option_eq.dec x y) (option_eq.dec y x)

any-is_about-swap :
    (f a b : String) (cs : List Conflict) → any (is_about f b a) cs ≡ any (is_about f a b) cs
unfolding any is_about
any-is_about-swap f a b [] = refl
any-is_about-swap f a b (c ∷ cs) = ground (arith, any-is_about-swap f a b cs)

found_and_rest-eq-ok :
    (m n : Result (List Conflict)) (cs : List Conflict)
    → and_then m (λ found. and_then n (λ rest. ok (found ++ rest))) ≡ ok cs
    → (found rest : List Conflict) × (m ≡ ok found) × (n ≡ ok rest) × (found ++ rest ≡ cs)
found_and_rest-eq-ok (ok xs) (ok ys) cs e = (xs, ys, refl, refl, ok-injective _ _ e)
found_and_rest-eq-ok (ok xs) (err _ _) cs e = ground arith
found_and_rest-eq-ok (err _ _) n cs e = ground arith

module _ (items : List WorkItem) (pairs : List (String × String)) (a b f : String)
    (ia ib : WorkItem) (ga : get (λ i. i.id) a items ≡ some ia)
    (gb : get (λ i. i.id) b items ≡ some ib) (differ : (a == b) ≡ false)
    (apart : is_excused items pairs a b ia ib ≡ false)
    (apart' : is_excused items pairs b a ib ia ≡ false) where
  owners-finds :
      (owners : List String) (cs : List Conflict)
      → contains owners a ≡ true
      → contains owners b ≡ true
      → conflicts_over items pairs f (combinations owners) ≡ ok cs
      → any (is_about f a b) cs ≡ true
  owners-finds owners cs ha hb k = elim (Bool-cases (paired a b (combinations owners))) [
    | inl p ↦ conflicts_over-finds items pairs a b ia ib ga gb apart f (combinations owners) cs p k
    | inr n ↦
        let p : paired b a (combinations owners) ≡ true =
          ground (arith, n, paired-combinations a b owners differ ha hb) in
        sym (any-is_about-swap f a b cs)
        ∙ conflicts_over-finds items pairs b a ib ia gb ga apart' f (combinations owners) cs p k
  ]

  conflicts_of-finds :
      (os : List FileOwners) (cs : List Conflict)
      → names f a os ≡ true
      → names f b os ≡ true
      → conflicts_of items pairs os ≡ ok cs
      → any (is_about f a b) cs ≡ true
  unfolding conflicts_of names
  conflicts_of-finds [] cs ha hb k = ground arith
  conflicts_of-finds (o ∷ os) cs ha hb k =
      let (found, rest, ef, er, eq) =
        found_and_rest-eq-ok (conflicts_over items pairs o.file (combinations o.owners))
          (conflicts_of items pairs os) cs k in
      rw (← eq) (
        any-append (is_about f a b) found rest ∙ elim (Bool-cases (o.file == f)) [
          | inl e ↦
              let here : any (is_about f a b) found ≡ true =
                owners-finds o.owners found (ground arith) (ground arith) (
                  subst (λ x. conflicts_over items pairs x (combinations o.owners) ≡ ok found)
                    (eq_of_test o.file f e) ef) in
              rw here refl
          | inr e ↦
              let later : any (is_about f a b) rest ≡ true =
                conflicts_of-finds os rest (ground arith) (ground arith) er in
              or_true (any (is_about f a b) found) (any (is_about f a b) rest) later
        ])

joins-swap : (a b : String) (es : List WorkEdge) → any (joins a b) es ≡ any (joins b a) es
unfolding any joins
joins-swap a b [] = refl
joins-swap a b (e ∷ es) = ground (arith, joins-swap a b es)

module _ (project_id : String) (g : Graph) where
  -- Nothing excuses two candidates of different terminals that no edge joins.
  not_excused :
      (f a b : String) (ia ib : WorkItem)
      → is_listed (candidates project_id g) f a ≡ true
      → is_listed (candidates project_id g) f b ≡ true
      → (ia.owner_terminal_id == ib.owner_terminal_id) ≡ false
      → any (joins a b) g.edges ≡ false
      → is_excused
          (candidates project_id g)
          (collab_pairs (map (λ i. i.id) (candidates project_id g)) g.edges)
          a
          b
          ia
          ib
        ≡ false
  unfolding is_excused
  not_excused f a b ia ib ha hb d j = ground (
    arith,
    d,
    j,
    collab_pairs-joins (map (λ i. i.id) (candidates project_id g)) a b
        (ids-contain f a (candidates project_id g) ha)
        (ids-contain f b (candidates project_id g) hb) g.edges,
  )

  -- Two different candidates of different terminals that are both interested in a file, and that no
  -- edge COLLABORATES_ON joins, are reported as a conflict over it, in one order or the other.
  pub detect_scope_conflicts-finds :
      (f a b : String) (ia ib : WorkItem) (cs : List Conflict)
      → (a == b) ≡ false
      → get (λ i. i.id) a (candidates project_id g) ≡ some ia
      → get (λ i. i.id) b (candidates project_id g) ≡ some ib
      → (ia.owner_terminal_id == ib.owner_terminal_id) ≡ false
      → is_listed (candidates project_id g) f a ≡ true
      → is_listed (candidates project_id g) f b ≡ true
      → any (joins a b) g.edges ≡ false
      → detect_scope_conflicts project_id g ≡ ok cs
      → any (is_about f a b) cs ≡ true
  unfolding detect_scope_conflicts names is_listed
  detect_scope_conflicts-finds f a b ia ib cs differ ga gb d ha hb j k =
      conflicts_of-finds (candidates project_id g)
        (collab_pairs (map (λ i. i.id) (candidates project_id g)) g.edges) a b f ia ib ga gb differ
        (not_excused f a b ia ib ha hb d j)
        (not_excused f b a ib ia hb ha (test_swap _ _ d) (joins-swap b a g.edges ∙ j))
        (file_owners (candidates project_id g) []) cs
        (names-file_owners f a (candidates project_id g) [] ∙ ha)
        (names-file_owners f b (candidates project_id g) [] ∙ hb) k
