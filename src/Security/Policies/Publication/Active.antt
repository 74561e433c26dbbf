-- ===== src/Security/Policies/Publication/Active.antt =====
-- Which revision is in force: for the tables, the revision of the published bundle and the active
-- revision of the active policy; for a reader, one identifier or none.
use agent_factor.Base.{◌≤◌, String, false, ◌≡◌, refl, arith, Option, none, some, List, [], ◌∷◌}
use agent_factor.Base.{string_eq, find?, find?-append, count_if, count_if-append}
use agent_factor.Base.{ok}
use agent_factor.Store.{get, add, add-eq-ok, add-UniqueKeys, UniqueKeys}
use agent_factor.Store.Exclusive.{find?-exclusive, count_if-exclusive, UniqueKeys-exclusive}
use agent_factor.Security.Model.{Db, SecurityPolicy, PolicyBundle}
use agent_factor.Security.Documents.{is_active}
use agent_factor.Security.Policies.Publication.{
  bundle_published, set_published, set_superseded, set_inactive, set_active, publish_bundle,
  activate_policy, activated,
}

abbrev bundle_revision : Option PolicyBundle → Option String
bundle_revision none = none
bundle_revision (some b) = some b.revision_id

abbrev policy_revision : Option SecurityPolicy → Option String
policy_revision none = none
policy_revision (some p) = p.active_revision_id

-- The revision of the published bundle.
unfoldable pub published_revision : Db → Option String
published_revision db = bundle_revision (find? bundle_published db.bundles)

-- The active revision of the active policy, which `active_document` reads.
unfoldable pub active_revision : Db → Option String
active_revision db = policy_revision (find? (λ p. is_active p.status) db.policies)

-- The tables stand for the revision `o` in force: the published bundle and the active policy agree
-- on it, no two bundles are published and no two policies active.
pub record InForce (o : Option String) (db : Db) : Type 0 where
  pub of_bundle : published_revision db ≡ o
  pub of_policy : active_revision db ≡ o
  pub one_bundle : count_if bundle_published db.bundles ≤ 1
  pub one_policy : count_if (λ p. is_active p.status) db.policies ≤ 1
  pub bundle_ids : UniqueKeys (λ b. b.id) db.bundles
  pub policy_ids : UniqueKeys (λ p. p.id) db.policies

-- The second transaction puts the revision of its bundle in force.
pub activated-InForce :
    (policy_id revision_id : String) (db : Db) (policy : SecurityPolicy) (bundle : PolicyBundle)
    → get (λ p. p.id) policy_id db.policies ≡ some policy
    → get (λ b. b.id) bundle.id db.bundles ≡ some bundle
    → bundle.revision_id ≡ revision_id
    → UniqueKeys (λ b. b.id) db.bundles
    → UniqueKeys (λ p. p.id) db.policies
    → InForce (some revision_id) (activated policy_id revision_id bundle db)
unfolding published_revision active_revision publish_bundle activate_policy
activated-InForce policy_id revision_id db policy bundle hp hb same ub up = record {
  of_bundle = ground (
    arith,
    hb,
    same,
    find?-exclusive (λ b. b.id) bundle_published set_published set_superseded (λ b. refl)
        (λ b. refl) (λ b. refl) (λ b. refl) bundle.id db.bundles,
  );
  of_policy = ground (
    arith,
    hp,
    find?-exclusive (λ p. p.id) (λ p. is_active p.status) (set_active revision_id) set_inactive
        (λ p. refl) (λ p. refl) (λ p. refl) (λ p. refl) policy_id db.policies,
  );
  one_bundle = omega (
    arith,
    count_if-exclusive (λ b. b.id) bundle_published set_published set_superseded (λ b. refl)
        (λ b. refl) (λ b. refl) (λ b. refl) bundle.id db.bundles bundle ub hb,
  );
  one_policy = omega (
    arith,
    count_if-exclusive (λ p. p.id) (λ p. is_active p.status) (set_active revision_id) set_inactive
        (λ p. refl) (λ p. refl) (λ p. refl) (λ p. refl) policy_id db.policies policy up hp,
  );
  bundle_ids =
      UniqueKeys-exclusive (λ b. b.id) bundle_published set_published set_superseded (λ b. refl)
        (λ b. refl) (λ b. refl) (λ b. refl) bundle.id db.bundles ub;
  policy_ids =
      UniqueKeys-exclusive (λ p. p.id) (λ p. is_active p.status) (set_active revision_id)
        set_inactive (λ p. refl) (λ p. refl) (λ p. refl) (λ p. refl) policy_id db.policies up;
}

-- A staged bundle changes nothing that is in force.
pub staged-InForce :
    (o : Option String) (db : Db) (row : PolicyBundle) (bundles : List PolicyBundle)
    → bundle_published row ≡ false
    → add (λ b. b.id) row db.bundles ≡ ok bundles
    → InForce o db
    → InForce o (record db { bundles = bundles })
unfolding published_revision active_revision find? count_if
staged-InForce o db row bundles fresh h v =
    let (_, e) = add-eq-ok (λ b. b.id) row db.bundles bundles h in
    record {
      of_bundle =
          ground (arith, e, v.of_bundle, find?-append bundle_published db.bundles (row ∷ []));
      of_policy = v.of_policy;
      one_bundle =
          ground (arith, e, v.one_bundle, count_if-append bundle_published db.bundles (row ∷ []));
      one_policy = v.one_policy;
      bundle_ids = add-UniqueKeys (λ b. b.id) row db.bundles bundles h v.bundle_ids;
      policy_ids = v.policy_ids;
    }
