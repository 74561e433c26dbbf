-- ===== src/Security/Policies/Revisions/Versions.antt =====
-- The versions of the revisions of a policy.
use agent_factor.Base.{
  ℕ, ◌+◌, ◌≤◌, ◌<◌, String, ◌<>◌, Bool, false, ◌&&◌, ◌||◌, ◌≡◌, refl, arith, List, [], ◌∷◌, ◌++◌,
  inl, inr, All,
}
use agent_factor.Base.{string_eq, nat_eq, filter, any, any-filter, ltb, leb, Bool-cases}
use agent_factor.Base.{ok, and_then-eq-ok}
use agent_factor.Store.{add}
use agent_factor.Security.Model.{Db, State, Machine, PolicyRevision, RevisionStatus}
use agent_factor.Security.Model.Keeps.{session_scope-eq-ok}
use agent_factor.Security.Policies.{digest}
use agent_factor.Security.Policies.Revisions.{
  RevisionRequest, of_policy, insert_version, by_version, revisions, next_version, add_revision,
  revision_row, revision_rows, create_revision,
}

-- Every revision in the list has a version of at most `v`.
abbrev Bounded : ℕ → List PolicyRevision → Type 0
Bounded v rows = All (λ r. r.version ≤ v) rows

-- The first of the list has the greatest version.
abbrev Topped : List PolicyRevision → Type 0
Topped [] = Unit
Topped (r ∷ rows) = Bounded r.version rows

Bounded-weaken : (v w : ℕ) (rows : List PolicyRevision) → v ≤ w → Bounded v rows → Bounded w rows
Bounded-weaken v w [] h b = tt
Bounded-weaken v w (r ∷ rows) h (x, b) = (omega arith, Bounded-weaken v w rows h b)

Bounded-insert_version :
    (v : ℕ) (r : PolicyRevision) (rows : List PolicyRevision)
    → r.version ≤ v
    → Bounded v rows
    → Bounded v (insert_version r rows)
unfolding insert_version
Bounded-insert_version v r [] h b = (h, tt)
Bounded-insert_version v r (q ∷ rows) h (x, b) = elim (Bool-cases (ltb r.version q.version)) [
  | inl below ↦ rw below (x, Bounded-insert_version v r rows h b)
  | inr above ↦ rw above (h, (x, b))
]

Topped-insert_version :
    (r : PolicyRevision) (rows : List PolicyRevision) → Topped rows → Topped (insert_version r rows)
unfolding insert_version
Topped-insert_version r [] t = tt
Topped-insert_version r (q ∷ rows) t = elim (Bool-cases (ltb r.version q.version)) [
  | inl below ↦ rw below (Bounded-insert_version q.version r rows (ground (arith, below)) t)
  | inr above ↦
      rw above
        (ground (arith, above), Bounded-weaken q.version r.version rows (ground (arith, above)) t)
]

Topped-by_version : (rows : List PolicyRevision) → Topped (by_version rows)
unfolding by_version
Topped-by_version [] = tt
Topped-by_version (r ∷ rows) = Topped-insert_version r (by_version rows) (Topped-by_version rows)

module _ (p : PolicyRevision → Bool) where
  any-insert_version :
      (r : PolicyRevision) (rows : List PolicyRevision)
      → any p (insert_version r rows) ≡ (p r || any p rows)
  unfolding insert_version any
  any-insert_version r [] = refl
  any-insert_version r (q ∷ rows) = ground (arith, any-insert_version r rows)

  any-by_version : (rows : List PolicyRevision) → any p (by_version rows) ≡ any p rows
  unfolding by_version any
  any-by_version [] = refl
  any-by_version (r ∷ rows) =
      ground (arith, any-insert_version r (by_version rows), any-by_version rows)

any-Bounded :
    (v w : ℕ) (rows : List PolicyRevision)
    → v < w
    → Bounded v rows
    → any (λ r. leb w r.version) rows ≡ false
unfolding any
any-Bounded v w [] h b = refl
any-Bounded v w (r ∷ rows) h (x, b) = ground (arith, any-Bounded v w rows h b)

any-next_version :
    (rows : List PolicyRevision)
    → Topped rows
    → any (λ r. leb (next_version rows) r.version) rows ≡ false
unfolding next_version any
any-next_version [] t = refl
any-next_version (r ∷ rows) t =
    ground (arith, any-Bounded r.version (r.version + 1) rows (omega arith) t)

-- No revision of the policy has the version `v` or a later one.
abbrev pub IsNewer : String → ℕ → List PolicyRevision → Type 0
IsNewer policy_id v rows = any (λ r. of_policy policy_id r && leb v r.version) rows ≡ false

module _ (policy_id : String) (rows : List PolicyRevision) where
  next-IsNewer :
      IsNewer policy_id (next_version (by_version (filter (of_policy policy_id) rows))) rows
  next-IsNewer =
      let own = filter (of_policy policy_id) rows in
      let v = next_version (by_version own) in
      ground (
        arith,
        any-next_version (by_version own) (Topped-by_version own),
        any-by_version (λ r. leb v r.version) own,
        any-filter (λ r. leb v r.version) (of_policy policy_id) rows,
      )

-- The digest of a revision is that of its document.
abbrev HasDigest : Machine → PolicyRevision → Type 0
HasDigest machine row = row.document_digest ≡ "sha256:" <> machine.sha256_hex row.document

-- What `create_revision` has added to the tables.
abbrev pub AddsRevision : Machine → String → Db → PolicyRevision → Db → Type 0
AddsRevision machine policy_id db row db' =
    (row.policy_id ≡ policy_id)
    × (row.status ≡ RevisionStatus.draft)
    × HasDigest machine row
    × IsNewer policy_id row.version db.revisions
    × (db' ≡ record db { revisions = db.revisions ++ row ∷ [] })

module _ (machine : Machine) (policy_id : String) (request : RevisionRequest) where
  revision_row-HasDigest :
      (n version : ℕ) (row : PolicyRevision)
      → revision_row machine n policy_id version request ≡ ok row
      → (row.policy_id ≡ policy_id)
        × (row.version ≡ version)
        × (row.status ≡ RevisionStatus.draft)
        × HasDigest machine row
  unfolding revision_row digest
  revision_row-HasDigest n version row h = ground arith

  add_revision-eq :
      (row : PolicyRevision) (rows rows' : List PolicyRevision)
      → add_revision row rows ≡ ok rows'
      → rows' ≡ rows ++ row ∷ []
  unfolding add_revision add
  add_revision-eq row rows rows' h = ground arith

  revisions-eq :
      (db : Db) (rows : List PolicyRevision)
      → revisions policy_id db ≡ ok rows
      → rows ≡ by_version (filter (of_policy policy_id) db.revisions)
  unfolding revisions
  revisions-eq db rows h = ground arith

  revision_rows-AddsRevision :
      (n : ℕ) (db db' : Db) (row : PolicyRevision)
      → revision_rows machine n policy_id request db ≡ ok (row, db')
      → AddsRevision machine policy_id db row db'
  unfolding revision_rows
  revision_rows-AddsRevision n db db' row h =
      let (rows, e, h1) = and_then-eq-ok (revisions policy_id db) _ h in
      let (made, f, h2) =
        and_then-eq-ok (revision_row machine n policy_id (next_version rows) request) _ h1 in
      let (stored, g, h3) = and_then-eq-ok (add_revision made db.revisions) _ h2 in
      let same : made ≡ row = ground (arith, h3) in
      let (of, version, drafted, digests) =
        revision_row-HasDigest n (next_version rows) row (rw (← same) f) in
      (
        of,
        drafted,
        digests,
        rw (version, revisions-eq db rows e) (next-IsNewer policy_id db.revisions),
        ground (arith, h3, add_revision-eq made db.revisions stored g),
      )

  -- A revision that was created is a draft, has the digest of its document and a version above all
  -- versions of its policy, and is the only change of the tables.
  pub create_revision-AddsRevision :
      (s s' : State) (row : PolicyRevision)
      → create_revision machine policy_id request s ≡ (ok row, s')
      → AddsRevision machine policy_id s.db row s'.db
  unfolding create_revision
  create_revision-AddsRevision s s' row h =
      revision_rows-AddsRevision s.drawn s.db s'.db row
        (session_scope-eq-ok _ (record s { drawn = s.drawn + 1 }) s' row h)
