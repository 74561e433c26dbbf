-- ===== src/Security/Gateway/Decisions/OneUse.antt =====
-- A token authorizes one execution, in every run of the system.
use agent_factor.Base.{ℕ, String, false, ◌≡◌, ◌≢◌, refl, arith, none}
use mathlib.Core.Path.{subst}
use agent_factor.Base.{
  sym, ◌∙◌, ok-injective, List, [], ◌∷◌, string_eq, option_eq, nat_eq, find?, any, ok,
}
use agent_factor.Json.{str}
use agent_factor.Security.Model.{State, Machine, ExecutionGrant}
use agent_factor.Security.Gateway.Ids.{digest}
use agent_factor.Security.Gateway.Action.{SecurityAction}
use agent_factor.Security.Gateway.Decisions.{Consumed, is_usable, consume}
use agent_factor.Security.Gateway.Decisions.Spent.{
  IsSpent, IsSound, has_open, consume_rows-IsSpent, added-IsSound, added-IsSpent, consumed-IsSpent,
  consume_rows-IsSound,
}
use agent_factor.Security.Gateway.Decisions.Runs.{IsStable, Run, Run-keeps}
use agent_factor.Security.Gateway.Decisions.Consumption.{
  consumption, consume-eq-ok, consume_in, binding-token_hash,
}

find?-closed :
    (t f p : String) (now : ℕ) (grants : List ExecutionGrant)
    → has_open t grants ≡ false
    → find? (is_usable t f p now) grants ≡ none
unfolding find? any is_usable
find?-closed t f p now [] h = refl
find?-closed t f p now (g ∷ grants) h = ground (arith, find?-closed t f p now grants)

IsSound-IsStable : IsStable IsSound
IsSound-IsStable = record { added = added-IsSound; consumed = consume_rows-IsSound }

IsSpent-IsStable : (t : String) → IsStable (IsSpent t)
IsSpent-IsStable t = record { added = added-IsSpent t; consumed = consumed-IsSpent t }

module _ (machine : Machine) where
  -- In every run the identifiers of the grants, and the hashes of their tokens, stay pairwise
  -- different.
  pub Run-IsSound : {s t : State} → IsSound s.db.grants → Run machine s t → IsSound t.db.grants
  Run-IsSound sound run = Run-keeps IsSound IsSound-IsStable machine run sound

  consume-IsSpent :
      (now : ℕ) (token : String) (a : SecurityAction) (s : State) (c : Consumed) (h : String)
      → IsSound s.db.grants
      → (consume machine now token a s).0 ≡ ok c
      → digest machine (str token) ≡ ok h
      → IsSpent h (consume machine now token a s).1.db.grants
  unfolding consume_in
  consume-IsSpent now token a s c h sound e d =
      let k = consumption machine now token a s c e in
      let b = k.bound in
      subst (λ x. IsSpent x (consume machine now token a s).1.db.grants)
        (ok-injective _ _ (sym (binding-token_hash machine token a s b k.of_request) ∙ d))
        (consume_rows-IsSpent b.token_hash b.print b.policy_digest now s.db _ c sound.tokens
          (consume-eq-ok machine now token a s c b e k.of_request))

  -- After a token was consumed no call consumes it again: not later, not for another action, and
  -- not after any steps of the gateway and of other services in between.
  pub consume_once :
      (now later : ℕ) (token : String) (a a' : SecurityAction) (s t : State) (c c' : Consumed)
      → IsSound s.db.grants
      → (consume machine now token a s).0 ≡ ok c
      → Run machine (consume machine now token a s).1 t
      → (consume machine later token a' t).0 ≢ ok c'
  consume_once now later token a a' s t c c' sound e run e' =
      let k = consumption machine later token a' t c' e' in
      let b = k.bound in
      let d = binding-token_hash machine token a' t b k.of_request in
      let spent =
        Run-keeps (IsSpent b.token_hash) (IsSpent-IsStable b.token_hash) machine run
          (consume-IsSpent now token a s c b.token_hash sound e d) in
      cc (find?-closed b.token_hash b.print b.policy_digest later t.db.grants spent.closed, k.found)
