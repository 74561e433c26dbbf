-- ===== src/Security/Access/Roles.antt =====
-- What the bindings of roles permit, and how they come about.
use agent_factor.Base.{String, ◌<>◌, Bool, true, ◌||◌, ◌&&◌, ◌≡◌, arith, none, some, inl, inr}
use agent_factor.Base.{List, [], ◌∷◌, ◌++◌, any, find?, if◌then◌else◌, ◌==◌, string_eq}
use agent_factor.Base.{ok, Option-cases, find?-none, ==-refl}
use agent_factor.Store.{add}
use agent_factor.Security.Model.{Db, State, Machine, RoleBinding, session_scope}
use agent_factor.Security.Access.{
  Bound, is_bootstrap, is_principal, is_role, is_permitted, authorize, bind_rows, bind,
}

-- A binding gives this role to this principal.
abbrev pub binds : String → String → RoleBinding → Bool
binds principal_id role b = b.principal_id == principal_id && b.role == role

abbrev pub row_of : String → String → String → String → RoleBinding
row_of id actor_id principal_id role = record {
  id = id;
  principal_id = principal_id;
  role = role;
  created_by = actor_id;
}

-- The actor may bind roles, the request is valid, and the tables changed by one row at most.
pub record IsBound (actor_id principal_id role : String) (r : Bound) (db db' : Db) : Type 0 where
  pub actor : (is_bootstrap actor_id || is_permitted actor_id "*" db) ≡ true
  pub valid : (is_principal principal_id && is_role role) ≡ true
  pub reply : (r.principal_id ≡ principal_id) × (r.role ≡ role)
  pub found :
      (b : RoleBinding) × (find? (binds principal_id role) db'.bindings ≡ some b) × (b.id ≡ r.id)
  pub change : db'.bindings ≡ (
      if any (binds principal_id role) db.bindings
      then db.bindings
      else db.bindings ++ row_of r.id actor_id principal_id role ∷ [])

find?-append-new :
    (principal_id role id actor_id : String) (bs : List RoleBinding)
    → find? (binds principal_id role) bs ≡ none
    → find? (binds principal_id role) (bs ++ row_of id actor_id principal_id role ∷ [])
      ≡ some (row_of id actor_id principal_id role)
unfolding find?
find?-append-new principal_id role id actor_id [] h =
    ground (arith, ==-refl principal_id, ==-refl role)
find?-append-new principal_id role id actor_id (b ∷ bs) h =
    ground (arith, find?-append-new principal_id role id actor_id bs)

find?-any :
    (p : RoleBinding → Bool) (bs : List RoleBinding) (b : RoleBinding)
    → find? p bs ≡ some b
    → any p bs ≡ true
unfolding find? any
find?-any p [] b h = ground arith
find?-any p (c ∷ bs) b h = ground (arith, find?-any p bs b)

module _ (actor_id principal_id role : String) where
  bind_rows-eq :
      (id : String) (db db' : Db) (r : Bound)
      → bind_rows id actor_id principal_id role db ≡ ok (r, db')
      → (r.principal_id ≡ principal_id)
        × (r.role ≡ role)
        × ((b : RoleBinding) × (find? (binds principal_id role) db'.bindings ≡ some b)
            × (b.id ≡ r.id))
        × (db'.bindings ≡ (
            if any (binds principal_id role) db.bindings
            then db.bindings
            else db.bindings ++ row_of r.id actor_id principal_id role ∷ []))
  unfolding bind_rows add
  bind_rows-eq id db db' r h = elim (Option-cases (find? (binds principal_id role) db.bindings)) [
    | inl e ↦ (
      ground arith,
      ground arith,
      (
        row_of id actor_id principal_id role,
        ground (arith, find?-append-new principal_id role id actor_id db.bindings e),
        ground arith,
      ),
      ground (arith, find?-none (binds principal_id role) db.bindings e),
    )
    | inr (b, e) ↦ (
      ground arith,
      ground arith,
      (b, ground arith, ground arith),
      ground (arith, find?-any (binds principal_id role) db.bindings b e),
    )
  ]

  module _ (machine : Machine) (s : State) (r : Bound) where
    bind-eq :
        (bind machine actor_id principal_id role s).0 ≡ ok r
        → ((is_bootstrap actor_id || is_permitted actor_id "*" s.db) ≡ true)
          × ((is_principal principal_id && is_role role) ≡ true)
          × (bind_rows ("role_binding_" <> machine.uuid_hex s.drawn) actor_id principal_id role s.db
              ≡ ok (r, (bind machine actor_id principal_id role s).1.db))
    unfolding bind authorize session_scope
    bind-eq h = (ground arith, ground arith, ground arith)

    -- A binding that succeeds was made by a bootstrap principal or an administrator, for a valid
    -- principal and a known role. The principal then has the role by the row that is answered, which
    -- is new unless the principal had the role; no other row changes.
    pub bind-IsBound :
        (bind machine actor_id principal_id role s).0 ≡ ok r
        → IsBound actor_id principal_id role r s.db (bind machine actor_id principal_id role s).1.db
    bind-IsBound h =
        let (actor, valid, rows) = bind-eq h in
        let (e, e₁, found, change) =
          bind_rows-eq ("role_binding_" <> machine.uuid_hex s.drawn) s.db _ r rows in
        record { actor = actor; valid = valid; reply = (e, e₁); found = found; change = change }
