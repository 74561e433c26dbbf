-- ===== src/Work/Conflicts/Reported.antt =====
-- What is reported as a conflict.
use agent_factor.Base.{
  String, true, false, ◌≡◌, ◌≢◌, refl, arith, some, List, [], ◌∷◌, ◌++◌, map, inl, inr,
}
use agent_factor.Base.{
  string_eq, option_eq, ne_of_test, if◌then◌else◌, any, all, All, All-append, Bool-cases,
}
use agent_factor.Base.{Result, ok}
use agent_factor.Store.{get}
use agent_factor.Work.Graph.{WorkItem, Graph}
use agent_factor.Work.Conflicts.{
  candidates, collab_pairs, FileOwners, file_owners, combinations, Conflict, mapped_item,
  is_excused, conflicts_over, conflicts_of, detect_scope_conflicts,
}
use agent_factor.Work.Conflicts.Listed.{
  joins, is_listed, entry_listed, both_listed, ids-contain, collab_pairs-joins, file_owners-listed,
  combinations-listed, get-listed,
}

-- A pair of items that are found is looked at.
conflicts_over-step :
    (items : List WorkItem) (pairs : List (String × String)) (f a b : String)
    (ps : List (String × String)) (ia ib : WorkItem) (cs : List Conflict)
    → get (λ i. i.id) a items ≡ some ia
    → get (λ i. i.id) b items ≡ some ib
    → conflicts_over items pairs f ps ≡ ok cs
    → conflicts_over items pairs f ((a, b) ∷ ps)
      ≡ ok (
          if is_excused items pairs a b ia ib
          then cs
          else (record { item_a = a; item_b = b; shared_file = f }) ∷ cs)
unfolding conflicts_over mapped_item
conflicts_over-step items pairs f a b ps ia ib cs ga gb e =
    rw (ga, mapped_item) (rw (gb, mapped_item) (rw e refl))

module _ (project_id : String) (g : Graph) where
  -- The two items are candidates of different terminals that are interested in the file, and no edge
  -- says that they collaborate.
  abbrev pub IsConflict : Conflict → Type 0
  IsConflict c =
      (ia ib : WorkItem) × (get (λ i. i.id) c.item_a (candidates project_id g) ≡ some ia)
      × (get (λ i. i.id) c.item_b (candidates project_id g) ≡ some ib)
      × (ia.owner_terminal_id ≢ ib.owner_terminal_id)
      × (is_listed (candidates project_id g) c.shared_file c.item_a ≡ true)
      × (is_listed (candidates project_id g) c.shared_file c.item_b ≡ true)
      × (any (joins c.item_a c.item_b) g.edges ≡ false)

  abbrev pairs : List (String × String)
  pairs = collab_pairs (map (λ i. i.id) (candidates project_id g)) g.edges

  abbrev pub Reports : Result (List Conflict) → Type 0
  Reports r = (cs : List Conflict) × (r ≡ ok cs) × All IsConflict cs

  pair_reported :
      (f a b : String) (ia ib : WorkItem) (cs : List Conflict)
      → is_listed (candidates project_id g) f a ≡ true
      → is_listed (candidates project_id g) f b ≡ true
      → get (λ i. i.id) a (candidates project_id g) ≡ some ia
      → get (λ i. i.id) b (candidates project_id g) ≡ some ib
      → All IsConflict cs
      → All IsConflict (
          if is_excused (candidates project_id g) pairs a b ia ib
          then cs
          else (record { item_a = a; item_b = b; shared_file = f }) ∷ cs)
  unfolding is_excused
  pair_reported f a b ia ib cs ha hb ga gb k =
      elim (Bool-cases (is_excused (candidates project_id g) pairs a b ia ib)) [
        | inl e ↦ rw e k
        | inr e ↦ rw e (
          (
            ia,
            ib,
            ga,
            gb,
            ne_of_test _ _ (ground arith),
            ha,
            hb,
            (ground (
              arith,
              collab_pairs-joins (map (λ i. i.id) (candidates project_id g)) a b
                  (ids-contain f a (candidates project_id g) ha)
                  (ids-contain f b (candidates project_id g) hb) g.edges,
            )),
          ),
          k,
        )
      ]

  conflicts_over-Reports :
      (f : String) (ps : List (String × String))
      → all (both_listed (candidates project_id g) f) ps ≡ true
      → Reports (conflicts_over (candidates project_id g) pairs f ps)
  unfolding all both_listed conflicts_over
  conflicts_over-Reports f [] h = ([], refl, tt)
  conflicts_over-Reports f ((a, b) ∷ ps) h =
      let (ia, ga) = get-listed f a (candidates project_id g) (ground arith) in
      let (ib, gb) = get-listed f b (candidates project_id g) (ground arith) in
      let (cs, e, k) = conflicts_over-Reports f ps (ground arith) in
      (
        _,
        conflicts_over-step (candidates project_id g) pairs f a b ps ia ib cs ga gb e,
        pair_reported f a b ia ib cs (ground arith) (ground arith) ga gb k,
      )

  conflicts_of-Reports :
      (os : List FileOwners)
      → all (entry_listed (candidates project_id g)) os ≡ true
      → Reports (conflicts_of (candidates project_id g) pairs os)
  unfolding conflicts_of all entry_listed
  conflicts_of-Reports [] h = ([], refl, tt)
  conflicts_of-Reports (o ∷ os) h =
      let (found, e, k) =
        conflicts_over-Reports o.file (combinations o.owners)
          (combinations-listed (candidates project_id g) o.file o.owners (ground arith)) in
      let (cs, e', k') = conflicts_of-Reports os (ground arith) in
      (found ++ cs, rw e (rw e' refl), All-append IsConflict found cs k k')

  -- The conflicts are always found, and each is between two candidates (in progress or ready, with an
  -- owner) of different terminals that are interested in the file and that no edge
  -- COLLABORATES_ON joins, in either direction.
  pub detect_scope_conflicts-Reports : Reports (detect_scope_conflicts project_id g)
  unfolding detect_scope_conflicts is_listed all
  detect_scope_conflicts-Reports =
      conflicts_of-Reports (file_owners (candidates project_id g) []) (
        file_owners-listed (candidates project_id g) (candidates project_id g) (λ f a h. h) [] refl)
