-- ===== src/Security/Gateway/Policy/Matching.antt =====
-- Which rule decides, and what a file prefix covers.
use text.Mathlib.TextEquality.{starts_with_iff}
use text.Mathlib.TextPositions.{starts_with-append}
use agent_factor.Base.{sym, String, ◌<>◌, true, false, starts_with, ◌≡◌, refl}
use agent_factor.Base.{◌⊎◌, inl, inr, ◌↔◌, List, [], ◌∷◌, ◌++◌, arith}
use agent_factor.Base.{string_eq, any, Bool-cases, ap, ◌≢◌}
use agent_factor.Security.Gateway.Config.{Rule, GatewayConfig}
use agent_factor.Security.Gateway.Action.{filesystem, SecurityAction, is_abs}
use agent_factor.Security.Gateway.Policy.{
  applies, rule_match, default_match, match_rules, match_policy, directory, within,
  resource_matches,
}

-- `rules` has `before`, none of which applies, in front of `rule`, which does.
pub record IsFirstApplying (action : SecurityAction) (rules : List Rule) (rule : Rule)
    : Type 0 where
  pub before : List Rule
  pub after : List Rule
  pub split : rules ≡ before ++ rule ∷ after
  pub skipped : any (λ r. applies r action) before ≡ false
  pub hit : applies rule action ≡ true

match_rules-first :
    (config : GatewayConfig) (action : SecurityAction) (before : List Rule) (rule : Rule)
    (after : List Rule)
    → any (λ r. applies r action) before ≡ false
    → applies rule action ≡ true
    → match_rules config action (before ++ rule ∷ after) ≡ rule_match rule
unfolding match_rules any
match_rules-first config action [] rule after s h = ground arith
match_rules-first config action (r ∷ before) rule after s h =
    ground (arith, match_rules-first config action before rule after)

match_rules-none :
    (config : GatewayConfig) (action : SecurityAction) (rules : List Rule)
    → any (λ r. applies r action) rules ≡ false
    → match_rules config action rules ≡ default_match config
unfolding match_rules any
match_rules-none config action [] h = refl
match_rules-none config action (r ∷ rules) h = ground (arith, match_rules-none config action rules)

first_or_none :
    (action : SecurityAction) (rules : List Rule)
    → ((rule : Rule) × IsFirstApplying action rules rule)
      ⊎ (any (λ r. applies r action) rules ≡ false)
unfolding any
first_or_none action [] = inr refl
first_or_none action (r ∷ rules) = elim (Bool-cases (applies r action)) [
  | inl hit ↦
      inl (r, record { before = []; after = rules; split = refl; skipped = refl; hit = hit })
  | inr skip ↦ elim (first_or_none action rules) [
    | inl (rule, f) ↦ inl (
      rule,
      record {
        before = r ∷ f.before;
        after = f.after;
        split = ap (λ l. r ∷ l) f.split;
        skipped = rw skip f.skipped;
        hit = f.hit;
      },
    )
    | inr h ↦ inr (rw skip h)
  ]
]

-- An action is decided by the first rule of the configuration that applies to it, with that rule's
-- effect and identifier, and where no rule applies by the default effect.
pub match_policy-first :
    (config : GatewayConfig) (action : SecurityAction)
    → ((rule : Rule) × IsFirstApplying action config.rules rule
        × (match_policy config action ≡ rule_match rule))
      ⊎ ((any (λ r. applies r action) config.rules ≡ false)
          × (match_policy config action ≡ default_match config))
unfolding match_policy
match_policy-first config action = elim (first_or_none action config.rules) [
  | inl (rule, f) ↦
      inl (
        rule,
        f,
        rw f.split (match_rules-first config action f.before rule f.after f.skipped f.hit),
      )
  | inr h ↦ inr (h, match_rules-none config action config.rules h)
]

-- `resource` is the directory, or stands below it.
pub record IsBelow (resource dir : String) : Type 0 where
  pub rest : String
  pub split : resource ≡ (dir <> "/") <> rest

within_sound :
    (resource dir : String)
    → dir ≢ "/"
    → within resource dir ≡ true
    → (resource ≡ dir) ⊎ IsBelow resource dir
unfolding within
within_sound resource dir ne h = elim (Bool-cases (starts_with resource (dir <> "/"))) [
  | inl p ↦
      let (u, e) = (starts_with_iff resource (dir <> "/")).0 p in
      inr (record { rest = u; split = sym e })
  | inr q ↦ inl (ground arith)
]

within_complete :
    (resource dir : String)
    → dir ≢ "/"
    → (resource ≡ dir) ⊎ IsBelow resource dir
    → within resource dir ≡ true
unfolding within
within_complete resource dir ne (inl e) = ground arith
within_complete resource dir ne (inr b) =
    let p : starts_with resource (dir <> "/") ≡ true =
      rw b.split (starts_with-append (dir <> "/") b.rest) in
    ground arith

-- A rule's file prefix covers exactly the directory that it names and the paths below it, at whole
-- components: the prefix `/etc` covers `/etc` and `/etc/x`, and not `/etcx`.
pub resource_matches-within :
    (resource prefix : String)
    → is_abs prefix ≡ true
    → directory prefix ≢ "/"
    → (resource_matches filesystem resource prefix ≡ true)
      ↔ ((resource ≡ directory prefix) ⊎ IsBelow resource (directory prefix))
unfolding resource_matches
resource_matches-within resource prefix absolute ne = (
  λ h. within_sound resource (directory prefix) ne (ground arith),
  λ h. let w = within_complete resource (directory prefix) ne h in ground arith,
)
