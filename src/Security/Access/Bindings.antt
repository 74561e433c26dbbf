-- ===== src/Security/Access/Bindings.antt =====
-- What a principal may do after a role was bound.
use agent_factor.Base.{String, true, false, ◌||◌, ◌&&◌, ◌≡◌, refl, arith, some, inl, inr}
use agent_factor.Base.{List, [], ◌∷◌, any, find?, ◌==◌, string_eq, count_if, ◌≤◌, ◌+◌}
use agent_factor.Base.{ok, Bool-cases, any-append, count_if-append}
use agent_factor.Security.Model.{State, Machine, RoleBinding, session_scope}
use agent_factor.Security.Access.{
  Bound, is_bootstrap, is_principal, is_role, is_permitted, role_permits, authorize, bind_rows,
  bind,
}
use agent_factor.Security.Access.Roles.{binds, row_of, bind-IsBound}

binds-parts :
    (principal_id role : String) (b : RoleBinding)
    → binds principal_id role b ≡ true
    → ((b.principal_id == principal_id) ≡ true) × (b.role ≡ role)
binds-parts principal_id role b h = (ground arith, ground arith)

binds-permits :
    (principal_id role permission : String) (bs : List RoleBinding) (b : RoleBinding)
    → role_permits permission role ≡ true
    → find? (binds principal_id role) bs ≡ some b
    → any (λ b. b.principal_id == principal_id && role_permits permission b.role) bs ≡ true
unfolding find? any
binds-permits principal_id role permission [] b h e = ground arith
binds-permits principal_id role permission (c ∷ bs) b h e =
    let same_principal = binds-parts principal_id role c in
    elim (Bool-cases (binds principal_id role c)) [
      | inl here ↦ ground (arith, same_principal here)
      | inr there ↦ ground (arith, binds-permits principal_id role permission bs b)
    ]

count-none :
    (principal_id role p q : String) (bs : List RoleBinding)
    → (principal_id == p && role == q) ≡ true
    → any (binds principal_id role) bs ≡ false
    → count_if (binds p q) bs ≡ 0
unfolding any count_if
count-none principal_id role p q [] same h = refl
count-none principal_id role p q (b ∷ bs) same h =
    ground (arith, count-none principal_id role p q bs same)

-- A binding that is there is found again.
bind-again :
    (machine : Machine) (actor_id principal_id role : String) (t : State) (b : RoleBinding)
    → (is_bootstrap actor_id || is_permitted actor_id "*" t.db) ≡ true
    → (is_principal principal_id && is_role role) ≡ true
    → find? (binds principal_id role) t.db.bindings ≡ some b
    → bind machine actor_id principal_id role t ≡ (
      ok (record { id = b.id; principal_id = principal_id; role = role }),
      record t { drawn = t.drawn + 1 },
    )
unfolding bind bind_rows authorize session_scope
bind-again machine actor_id principal_id role t b actor valid found = ground arith

reply-eq :
    (r : Bound) (id principal_id role : String)
    → id ≡ r.id
    → r.principal_id ≡ principal_id
    → r.role ≡ role
    → record { id = id; principal_id = principal_id; role = role } ≡ r
reply-eq r id principal_id role e e₁ e₂ = ground arith

module _ (machine : Machine) (actor_id principal_id role : String) (s : State) (r : Bound) where
  -- After a binding that succeeds, the principal is authorized for whatever the role permits.
  pub bind_then_authorize :
      (permission : String)
      → (bind machine actor_id principal_id role s).0 ≡ ok r
      → role_permits permission role ≡ true
      → (authorize principal_id permission (bind machine actor_id principal_id role s).1).0 ≡ ok tt
  unfolding authorize is_permitted
  bind_then_authorize permission h permits =
      let bound = bind-IsBound actor_id principal_id role machine s r h in
      let (b, found, same) = bound.found in
      ground (
        arith,
        binds-permits principal_id role permission
            (bind machine actor_id principal_id role s).1.db.bindings b permits found,
      )

  -- No permission that somebody has is lost by a binding.
  permitted-kept :
      (other permission : String)
      → (bind machine actor_id principal_id role s).0 ≡ ok r
      → is_permitted other permission s.db ≡ true
      → is_permitted other permission (bind machine actor_id principal_id role s).1.db ≡ true
  unfolding is_permitted any
  permitted-kept other permission h p =
      let bound = bind-IsBound actor_id principal_id role machine s r h in
      let test = λ (b : RoleBinding). b.principal_id == other && role_permits permission b.role in
      ground (
        arith,
        bound.change,
        any-append test s.db.bindings (row_of r.id actor_id principal_id role ∷ []),
      )

  -- A principal has a role by one row at most, and a binding keeps it so.
  pub bind-AtMostOne :
      (p q : String)
      → (bind machine actor_id principal_id role s).0 ≡ ok r
      → count_if (binds p q) s.db.bindings ≤ 1
      → count_if (binds p q) (bind machine actor_id principal_id role s).1.db.bindings ≤ 1
  unfolding count_if
  bind-AtMostOne p q h le =
      let bound = bind-IsBound actor_id principal_id role machine s r h in
      elim (Bool-cases (any (binds principal_id role) s.db.bindings)) [
        | inl there ↦ ground (arith, bound.change)
        | inr absent ↦ ground (
          arith,
          bound.change,
          count_if-append (binds p q) s.db.bindings (row_of r.id actor_id principal_id role ∷ []),
          count-none principal_id role p q s.db.bindings,
        )
      ]

  -- Binding a role twice is binding it once: the second call answers the same and changes no table.
  pub bind_twice :
      (bind machine actor_id principal_id role s).0 ≡ ok r
      → let t = (bind machine actor_id principal_id role s).1 in
        ((bind machine actor_id principal_id role t).0 ≡ ok r)
        × ((bind machine actor_id principal_id role t).1.db ≡ t.db)
  bind_twice h =
      let bound = bind-IsBound actor_id principal_id role machine s r h in
      let (b, found, same) = bound.found in
      let t = (bind machine actor_id principal_id role s).1 in
      let again =
        bind-again machine actor_id principal_id role t b
          (ground (arith, bound.actor, permitted-kept actor_id "*" h)) bound.valid found in
      let e = reply-eq r b.id principal_id role same (bound.reply.0) (bound.reply.1) in
      (rw (again, e) refl, rw again refl)
