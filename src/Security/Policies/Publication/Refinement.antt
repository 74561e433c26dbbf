-- ===== src/Security/Policies/Publication/Refinement.antt =====
-- `publish` refines one assignment: it puts its revision in force, or leaves the one in force as it
-- was when it raises.
use mathlib.Core.Path.{subst}
use agent_factor.Base.{
  ℕ, ◌+◌, String, ◌<>◌, Bool, true, ◌&&◌, ◌≡◌, refl, arith, Option, some, ◌⊎◌, inl, inr, sym,
}
use agent_factor.Base.{string_eq, option_eq, find?, find?-passes, find?-at_most_one, Bool-cases}
use agent_factor.Base.{Result, ok, err, Result-cases}
use agent_factor.Json.{Json}
use agent_factor.Store.{get-add}
use agent_factor.Security.Model.{Db, State, Machine, PolicyBundle, contents, session_scope}
use agent_factor.Security.Access.{Identity}
use agent_factor.Security.Policies.{canonical}
use agent_factor.Security.Policies.Publication.{
  Staging, current, staged, bundle_published, set_published, activated, activate, stage,
  write_gateway_config, finish, publish,
}
use agent_factor.Security.Policies.Publication.Active.{
  published_revision, InForce, activated-InForce, staged-InForce,
}
use agent_factor.Security.Policies.Publication.Staged.{
  IsStaged, is_of, StageResult, eq_of_test, and_parts, stage-StageResult,
}

-- What `publish` leaves, where `o` was in force.
abbrev pub Publishes : Option String → String → State → Result PolicyBundle × State → Type 0
Publishes o revision_id s (ok b, s') =
    InForce (some revision_id) s'.db × (b.revision_id ≡ revision_id) × (bundle_published b ≡ true)
Publishes o revision_id s (err _ _, s') = InForce o s'.db × (s'.config_file ≡ s.config_file)

module _ (machine : Machine) (identity : Identity) (hmac_sha256 : String → String → String)
    (replaces : String → Bool) (now n : ℕ) where
  -- A bundle that is returned as it is was in force.
  current-Publishes :
      (o : Option String) (revision_id : String) (b : PolicyBundle) (s s' : State)
      → find? (λ x. is_of revision_id x && bundle_published x) s.db.bundles ≡ some b
      → s'.db ≡ s.db
      → InForce o s.db
      → Publishes o revision_id s (ok b, s')
  unfolding published_revision
  current-Publishes o revision_id b s s' e same v =
      let (names, published) =
        and_parts (is_of revision_id b) (bundle_published b)
          (find?-passes (λ x. is_of revision_id x && bundle_published x) s.db.bundles b e) in
      let is_revision : b.revision_id ≡ revision_id = eq_of_test b.revision_id revision_id names in
      let in_force : o ≡ some revision_id = ground (
        arith,
        v.of_bundle,
        is_revision,
        find?-at_most_one bundle_published (is_of revision_id) s.db.bundles b v.one_bundle e,
      ) in
      (
        subst (λ d. InForce (some revision_id) d) (sym same)
            (subst (λ p. InForce p s.db) in_force v),
        is_revision,
        published,
      )

  -- The tables after the first transaction have all that the second one looks up.
  activate_staged :
      (policy_id revision_id : String) (row : PolicyBundle) (db db' : Db)
      → IsStaged db policy_id revision_id row db'
      → activate policy_id revision_id row.id db'
        ≡ ok (set_published row, activated policy_id revision_id row db')
  unfolding activate
  activate_staged policy_id revision_id row db db'
        (bundles, policy, revision, hp, hr, names, fresh, added, rows) =
      ground (arith, hp, hr, rows, get-add (λ b. b.id) row db.bundles bundles added)

  activate_staged-InForce :
      (policy_id revision_id : String) (row : PolicyBundle) (o : Option String) (db db' : Db)
      → IsStaged db policy_id revision_id row db'
      → InForce o db
      → InForce o db' × InForce (some revision_id) (activated policy_id revision_id row db')
  activate_staged-InForce policy_id revision_id row o db db'
        (bundles, policy, revision, hp, hr, names, fresh, added, rows) v =
      let before : InForce o db' =
        subst (λ d. InForce o d) (sym rows) (staged-InForce o db row bundles fresh added v) in
      (
        before,
        activated-InForce policy_id revision_id db' policy row (ground (arith, hp, rows))
            (ground (arith, rows, get-add (λ b. b.id) row db.bundles bundles added)) names
            before.bundle_ids before.policy_ids,
      )

  module _ (policy_id revision_id : String) (doc : Json) (row : PolicyBundle) (s : State) where
    finish_refused :
        (e : String) (code : ℕ)
        → (write_gateway_config machine identity hmac_sha256 replaces doc s ≡ (err e code, s))
        → finish machine identity hmac_sha256 replaces policy_id revision_id (staged doc row) s
          ≡ (err e code, s)
    unfolding finish
    finish_refused e code h = rw h

    finish_written :
        (s' : State)
        → write_gateway_config machine identity hmac_sha256 replaces doc s ≡ (ok tt, s')
        → activate policy_id revision_id row.id s'.db
          ≡ ok (set_published row, activated policy_id revision_id row s'.db)
        → finish machine identity hmac_sha256 replaces policy_id revision_id (staged doc row) s
          ≡ (ok (set_published row), record s' { db = activated policy_id revision_id row s'.db })
    unfolding finish session_scope
    finish_written s' h done = rw (h, done)

    -- The file was written, and nothing else; or nothing was.
    write_cases :
        ((s' : State) × (write_gateway_config machine identity hmac_sha256 replaces doc s
            ≡ (ok tt, s'))
          × (s'.db ≡ s.db))
        ⊎ ((e : String) × (code : ℕ) × (write_gateway_config machine identity hmac_sha256 replaces
                doc s
              ≡ (err e code, s)))
    unfolding write_gateway_config
    write_cases = elim (Result-cases (canonical machine doc)) [
      | inr (e, code, h) ↦ inr (e, code, ground (arith, h))
      | inl (text, h) ↦ elim (Bool-cases (replaces (text <> "\n"))) [
        | inl written ↦
            inl
              (record s { config_file = contents (text <> "\n") }, ground (arith, h, written), refl)
        | inr refused ↦ inr ("policy_publish_failed", 503, ground (arith, h, refused))
      ]
    ]

  staged-Publishes :
      (o : Option String) (policy_id revision_id : String) (doc : Json) (row : PolicyBundle)
      (s s' : State)
      → IsStaged s.db policy_id revision_id row s'.db
      → s'.config_file ≡ s.config_file
      → InForce o s.db
      → Publishes o revision_id s
          (finish machine identity hmac_sha256 replaces policy_id revision_id (staged doc row) s')
  unfolding finish write_gateway_config session_scope
  staged-Publishes o policy_id revision_id doc row s s' h same v =
      let (before, after) = activate_staged-InForce policy_id revision_id row o s.db s'.db h v in
      let (_, _, _, _, _, names, _, _, _) = h in
      elim (write_cases policy_id revision_id doc row s') [
        | inr (e, code, refused) ↦
            rw (finish_refused policy_id revision_id doc row s' e code refused) (before, same)
        | inl (s'', written, kept) ↦
            rw
              (finish_written policy_id revision_id doc row s' s'' written
                (rw kept (activate_staged policy_id revision_id row s.db s'.db h)))
              (rw kept after, names, refl)
      ]

module _ (machine : Machine) (identity : Identity) (hmac_sha256 : String → String → String)
    (replaces : String → Bool) (now : ℕ) where
  staging-Publishes :
      (o : Option String) (policy_id revision_id : String) (x : Staging) (s s' : State)
      → StageResult s.db policy_id revision_id x s'.db
      → s'.config_file ≡ s.config_file
      → InForce o s.db
      → Publishes o revision_id s
          (finish machine identity hmac_sha256 replaces policy_id revision_id x s')
  unfolding finish
  staging-Publishes o policy_id revision_id (current b) s s' (e, same) config v =
      current-Publishes machine identity hmac_sha256 replaces now 0 o revision_id b s s' e same v
  staging-Publishes o policy_id revision_id (staged doc row) s s' h config v =
      staged-Publishes machine identity hmac_sha256 replaces now 0 o policy_id revision_id doc row s
        s' h config v

  -- Where a revision or none was in force, a publication that succeeds puts its revision in force and
  -- answers its published bundle; one that raises leaves in force what was, and the file of the
  -- gateway as it was.
  pub publish-Publishes :
      (o : Option String) (policy_id revision_id : String) (s : State)
      → InForce o s.db
      → Publishes o revision_id s
          (publish machine identity hmac_sha256 replaces now policy_id revision_id s)
  unfolding publish session_scope
  publish-Publishes o policy_id revision_id s v =
      elim (Result-cases
        (stage machine identity hmac_sha256 replaces now s.drawn policy_id revision_id s.db)) [
          | inr (_, _, e) ↦ rw e (v, refl)
          | inl ((x, db'), e) ↦ rw e (
              staging-Publishes o policy_id revision_id x s
                (record s { db = db'; drawn = s.drawn + 1 })
                (stage-StageResult machine identity hmac_sha256 replaces now s.drawn policy_id
                  revision_id s.db db' x e)
                refl v)
        ]
