-- ===== src/Security/Gateway/Decisions/Grants.antt =====
-- What `consume` demands of a grant, and that it takes the grant.
use agent_factor.Base.{ℕ, ◌<◌, String, Bool, true, false, ◌≡◌, refl, arith, none, some}
use agent_factor.Base.{List, [], ◌∷◌, string_eq, option_eq, nat_eq}
use agent_factor.Base.{find?, update_where, count_if, Bool-cases, inl, inr, any, ok, Option-cases}
use agent_factor.Store.{UniqueKeys, has_key}
use agent_factor.Security.Model.{ExecutionGrant, Db}
use agent_factor.Security.Gateway.Decisions.{Consumed, is_usable, is_open, spend, consume_rows}

-- A grant bound to the token, the action and the policy, neither expired nor consumed.
pub record IsUsable (token_hash print policy_digest : String) (now : ℕ) (g : ExecutionGrant)
    : Type 0 where
  pub of_token : g.token_hash ≡ token_hash
  pub of_action : g.action_fingerprint ≡ print
  pub of_policy : g.policy_digest ≡ policy_digest
  pub fresh : g.consumed_at ≡ none
  pub in_time : now < g.expires_at

pub is_usable-IsUsable :
    (t f p : String) (now : ℕ) (g : ExecutionGrant)
    → is_usable t f p now g ≡ true
    → IsUsable t f p now g
unfolding is_usable
is_usable-IsUsable t f p now g h = ground arith

pub IsUsable-is_usable :
    (t f p : String) (now : ℕ) (g : ExecutionGrant)
    → IsUsable t f p now g
    → is_usable t f p now g ≡ true
unfolding is_usable
IsUsable-is_usable t f p now g u = ground arith

-- Where the identifiers are unique no row is counted but the one that was found.
count_open-zero :
    (id : String) (grants : List ExecutionGrant)
    → has_key (λ g. g.id) id grants ≡ false
    → count_if (is_open id) grants ≡ 0
unfolding has_key any count_if
count_open-zero id [] h = refl
count_open-zero id (g ∷ grants) h = ground (arith, count_open-zero id grants)

find?-has_key :
    (q : ExecutionGrant → Bool) (grants : List ExecutionGrant) (g : ExecutionGrant)
    → find? q grants ≡ some g
    → has_key (λ x. x.id) g.id grants ≡ true
unfolding find? has_key any
find?-has_key q [] g h = ground arith
find?-has_key q (x ∷ grants) g h = ground (arith, find?-has_key q grants g)

pub count_open-one :
    (t f p : String) (now : ℕ) (grants : List ExecutionGrant) (g : ExecutionGrant)
    → UniqueKeys (λ x. x.id) grants
    → find? (is_usable t f p now) grants ≡ some g
    → count_if (is_open g.id) grants ≡ 1
unfolding find? count_if is_usable
count_open-one t f p now [] g u h = ground arith
count_open-one t f p now (x ∷ grants) g (fresh, u) h = elim (Bool-cases (is_usable t f p now x)) [
  | inl hit ↦ ground (arith, count_open-zero x.id grants)
  | inr miss ↦
      ground
        (arith, count_open-one t f p now grants g u, find?-has_key (is_usable t f p now) grants g)
]

-- A grant is consumed exactly if a usable one is there, and then one row changes.
pub consume_rows-usable :
    (t f p : String) (now : ℕ) (db : Db) (g : ExecutionGrant)
    → UniqueKeys (λ x. x.id) db.grants
    → find? (is_usable t f p now) db.grants ≡ some g
    → consume_rows t f p now db
      ≡ ok (
        record { grant_id = g.id; decision_id = g.decision_id; action_fingerprint = f },
        record db { grants = update_where (is_open g.id) (spend now) db.grants },
      )
unfolding consume_rows
consume_rows-usable t f p now db g u h = ground (arith, count_open-one t f p now db.grants g u h)

pub consume_rows-ok :
    (t f p : String) (now : ℕ) (db db' : Db) (c : Consumed)
    → consume_rows t f p now db ≡ ok (c, db')
    → (g : ExecutionGrant) × (find? (is_usable t f p now) db.grants ≡ some g)
      × (c ≡ record { grant_id = g.id; decision_id = g.decision_id; action_fingerprint = f })
      × (db' ≡ record db { grants = update_where (is_open g.id) (spend now) db.grants })
unfolding consume_rows
consume_rows-ok t f p now db db' c h = elim (Option-cases (find? (is_usable t f p now) db.grants)) [
  | inl missing ↦ absurd (ground (arith, missing))
  | inr (g, found) ↦ (g, found, ground arith, ground arith)
]
