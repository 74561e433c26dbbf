-- ===== src/Security/Gateway/Decisions/Spent.antt =====
-- A token that was consumed is spent for good, whatever the gateway does afterwards.
use agent_factor.Base.{ℕ, String, Bool, true, false, ◌&&◌, ◌≡◌, refl, arith, none, some}
use agent_factor.Base.{List, [], ◌∷◌, ◌++◌, ◌==◌, string_eq, option_eq, nat_eq}
use agent_factor.Base.{find?, update_where, Bool-cases, inl, inr, any, ok, any-append}
use agent_factor.Store.{
  UniqueKeys, has_key, add-eq-ok, has_key-append, UniqueKeys-append, UniqueKeys-update_where,
  has_key-update_where,
}
use agent_factor.Security.Model.{ExecutionGrant, Db}
use agent_factor.Security.Gateway.Decisions.{
  Consumed, is_usable, is_open, spend, consume_rows, add_grant,
}
use agent_factor.Security.Gateway.Decisions.Grants.{consume_rows-ok}

-- A grant of this token that is not consumed
abbrev pub has_open : String → List ExecutionGrant → Bool
has_open t grants = any (λ g. g.token_hash == t && g.consumed_at == none) grants

-- The token had a grant, and every grant of it is consumed.
pub record IsSpent (t : String) (grants : List ExecutionGrant) : Type 0 where
  pub known : has_key (λ g. g.token_hash) t grants ≡ true
  pub closed : has_open t grants ≡ false

has_open-of_unknown :
    (t : String) (grants : List ExecutionGrant)
    → has_key (λ g. g.token_hash) t grants ≡ false
    → has_open t grants ≡ false
unfolding has_key any
has_open-of_unknown t [] h = refl
has_open-of_unknown t (g ∷ grants) h = ground (arith, has_open-of_unknown t grants)

-- Consuming opens nothing.
has_open-update_where :
    (t id : String) (now : ℕ) (grants : List ExecutionGrant)
    → has_open t grants ≡ false
    → has_open t (update_where (is_open id) (spend now) grants) ≡ false
unfolding any update_where
has_open-update_where t id now [] h = refl
has_open-update_where t id now (g ∷ grants) h =
    ground (arith, has_open-update_where t id now grants)

find?-known :
    (t f p : String) (now : ℕ) (grants : List ExecutionGrant) (g : ExecutionGrant)
    → find? (is_usable t f p now) grants ≡ some g
    → has_key (λ x. x.token_hash) t grants ≡ true
unfolding find? has_key any is_usable
find?-known t f p now [] g h = ground arith
find?-known t f p now (x ∷ grants) g h = ground (arith, find?-known t f p now grants g)

-- The token's one grant is consumed.
has_open-spend :
    (t f p : String) (now : ℕ) (grants : List ExecutionGrant) (g : ExecutionGrant)
    → UniqueKeys (λ x. x.token_hash) grants
    → find? (is_usable t f p now) grants ≡ some g
    → has_open t (update_where (is_open g.id) (spend now) grants) ≡ false
unfolding find? any update_where is_usable
has_open-spend t f p now [] g u h = refl
has_open-spend t f p now (x ∷ grants) g (fresh, u) h = elim (Bool-cases (is_usable t f p now x)) [
  | inl hit ↦ ground (arith, has_open-update_where t x.id now grants, has_open-of_unknown t grants)
  | inr miss ↦ ground (arith, has_open-spend t f p now grants g u, find?-known t f p now grants g)
]

pub consume_rows-IsSpent :
    (t f p : String) (now : ℕ) (db db' : Db) (c : Consumed)
    → UniqueKeys (λ x. x.token_hash) db.grants
    → consume_rows t f p now db ≡ ok (c, db')
    → IsSpent t db'.grants
consume_rows-IsSpent t f p now db db' c u h =
    let (g, found, _, e) = consume_rows-ok t f p now db db' c h in
    rw e (record {
      known =
          rw (has_key-update_where (λ x. x.token_hash) (is_open g.id) (spend now) (λ r. refl) t)
            (find?-known t f p now db.grants g found);
      closed = has_open-spend t f p now db.grants g u found;
    })

-- Nothing that the gateway does to the table opens a spent token, or repeats a token.
pub record IsSound (grants : List ExecutionGrant) : Type 0 where
  pub ids : UniqueKeys (λ g. g.id) grants
  pub tokens : UniqueKeys (λ g. g.token_hash) grants

consumed-IsSound :
    (id : String) (now : ℕ) (grants : List ExecutionGrant)
    → IsSound grants
    → IsSound (update_where (is_open id) (spend now) grants)
consumed-IsSound id now grants s = record {
  ids = UniqueKeys-update_where (λ g. g.id) (is_open id) (spend now) (λ r. refl) grants s.ids;
  tokens =
      UniqueKeys-update_where (λ g. g.token_hash) (is_open id) (spend now) (λ r. refl) grants
        s.tokens;
}

add_grant-eq-ok :
    (g : ExecutionGrant) (grants grants' : List ExecutionGrant)
    → add_grant g grants ≡ ok grants'
    → (has_key (λ x. x.token_hash) g.token_hash grants ≡ false)
      × (has_key (λ x. x.id) g.id grants ≡ false)
      × (grants' ≡ grants ++ g ∷ [])
unfolding add_grant
add_grant-eq-ok g grants grants' h = ground (arith, add-eq-ok (λ x. x.id) g grants grants')

pub added-IsSound :
    (g : ExecutionGrant) (grants grants' : List ExecutionGrant)
    → add_grant g grants ≡ ok grants'
    → IsSound grants
    → IsSound grants'
added-IsSound g grants grants' h s =
    let (token_new, id_new, e) = add_grant-eq-ok g grants grants' h in
    rw e (record {
      ids = UniqueKeys-append (λ x. x.id) grants g s.ids id_new;
      tokens = UniqueKeys-append (λ x. x.token_hash) grants g s.tokens token_new;
    })

pub added-IsSpent :
    (t : String) (g : ExecutionGrant) (grants grants' : List ExecutionGrant)
    → add_grant g grants ≡ ok grants'
    → IsSpent t grants
    → IsSpent t grants'
added-IsSpent t g grants grants' h s =
    let (token_new, _, e) = add_grant-eq-ok g grants grants' h in
    rw e (record {
      known = ground (arith, has_key-append (λ x. x.token_hash) t grants g, s.known);
      closed =
          unfold any in
          ground (
            arith,
            any-append (λ x. x.token_hash == t && x.consumed_at == none) grants (g ∷ []),
            s.closed,
            s.known,
          );
    })

pub consume_rows-IsSound :
    (t f p : String) (now : ℕ) (db db' : Db) (c : Consumed)
    → consume_rows t f p now db ≡ ok (c, db')
    → IsSound db.grants
    → IsSound db'.grants
consume_rows-IsSound t f p now db db' c h s =
    let (g, _, _, e) = consume_rows-ok t f p now db db' c h in
    rw e (consumed-IsSound g.id now db.grants s)

pub consumed-IsSpent :
    (t : String) (t' f p : String) (now : ℕ) (db db' : Db) (c : Consumed)
    → consume_rows t' f p now db ≡ ok (c, db')
    → IsSpent t db.grants
    → IsSpent t db'.grants
consumed-IsSpent t t' f p now db db' c h s =
    let (g, _, _, e) = consume_rows-ok t' f p now db db' c h in
    rw e (record {
      known =
          rw (has_key-update_where (λ x. x.token_hash) (is_open g.id) (spend now) (λ r. refl) t)
            s.known;
      closed = has_open-update_where t g.id now db.grants s.closed;
    })
