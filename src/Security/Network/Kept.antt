-- ===== src/Security/Network/Kept.antt =====
-- What a hop asks of the tables leaves them alone.
use mathlib.Core.Path.{subst}
use agent_factor.Base.{String, ◌≡◌, arith, Option, List, Option-cases, inl, inr, ℕ, [], ◌∷◌, Exec}
use agent_factor.Security.Model.{Db, State, Machine}
use agent_factor.Security.Model.Keeps.{
  Keeps, Keeps-pure, Keeps-raise, Keeps-lift, Keeps-bind, Keeps-if, Keeps-session_scope,
}
use agent_factor.Security.Documents.{Document, active_document, active_document-eq}
use agent_factor.Security.DataFlow.{session_labels, decide_egress, authorize_egress, is_public}
use agent_factor.Security.Network.{Web, resolve, check_url}

module _ (P : Db → Type 0) where
  active_document-Keeps : (parse : String → Option Document) → Keeps P (active_document parse)
  active_document-Keeps parse = record { at = λ s p. rw (active_document-eq parse s) p }

  session_labels-Keeps : (session_id : String) → Keeps P (session_labels session_id)
  unfolding session_labels
  session_labels-Keeps session_id =
      Keeps-session_scope _ (λ db db' a e p. subst P (let same : db ≡ db' = ground arith in same) p)

  on_list :
      {A B : Type 0} (l : List A) (m n : Exec State B)
      → Keeps P m
      → Keeps P n
      → Keeps P (elim l [ [] ↦ m | _ ∷ _ ↦ n ])
  on_list [] m n km kn = km
  on_list (_ ∷ _) m n km kn = kn

  decide_egress-Keeps :
      (surface destination : String) (labels : List String) (d : Document × String)
      → Keeps P (decide_egress surface destination labels d)
  unfolding decide_egress
  decide_egress-Keeps surface destination labels (document, digest) =
      on_list _ _ _ (Keeps-pure _) (Keeps-raise _ _)

  pub authorize_egress-Keeps :
      (machine : Machine) (parse : String → Option Document)
      (session_id surface destination : String)
      → Keeps P (authorize_egress machine parse session_id surface destination)
  unfolding authorize_egress
  authorize_egress-Keeps machine parse session_id surface destination =
      Keeps-bind _ _ (session_labels-Keeps session_id) (λ labels.
        Keeps-if (is_public labels) _ _ (Keeps-pure _) (
          Keeps-bind _ _ (active_document-Keeps parse)
            (decide_egress-Keeps surface destination labels)))

  pub resolve-Keeps :
      (web : Web) (parse : String → Option Document) (count : ℕ) (url : String)
      → Keeps P (resolve web parse count url)
  unfolding resolve
  resolve-Keeps web parse count url = elim (Option-cases (web.urlsplit url)) [
    | inl e ↦ rw (e, resolve) (Keeps-raise _ _)
    | inr (parts, e) ↦
        rw (e, resolve)
          (Keeps-bind _ _ (Keeps-lift (check_url web parts)) (λ (host, port).
            Keeps-bind _ _ (active_document-Keeps parse) (λ (document, _). Keeps-lift _)))
  ]
