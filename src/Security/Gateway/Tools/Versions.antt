-- ===== src/Security/Gateway/Tools/Versions.antt =====
-- What the catalogue forgets: a tool that was missing from one list.
use agent_factor.Base.{
  ℕ, String, true, false, not, ◌&&◌, ◌==◌, ◌≡◌, ◌≢◌, refl, arith, inl, inr, ◌∙◌, ap, sym, Result,
  pure, ◌>>=◌,
}
use agent_factor.Base.{string_eq, option_eq, Option, none, some, List, [], ◌∷◌, contains, map}
use agent_factor.Base.{find?, update_where, Option-cases}
use agent_factor.Base.{ok, and_then-eq-ok, bind-eq-ok, continue-eq-ok}
use agent_factor.Json.{Json, str, object, field, end, Fields}
use agent_factor.Store.{get, add}
use agent_factor.Security.Model.{
  McpToolVersion, ToolStatus, ServerStatus, allowed, schema_changed, missing, State, Machine,
  healthy, session_scope,
}
use agent_factor.Security.Model.Keeps.{Keeps, Keeps-session_scope, session_scope-eq-ok}
use agent_factor.Security.Gateway.Ids.{digest, canonical}
use agent_factor.Security.Gateway.Config.{ToolPolicy, ServerConfig}
use agent_factor.Security.Gateway.Tools.{
  is_current, unpinned, tool_status, sweep, store_server, store_tool, put_version, list_tool,
  list_all, discover_server, Discovered, tool_parts, tool_policy,
}

-- The names that a discovery has listed.
abbrev pub names : List Discovered → List String
names found = map (λ t. t.name) found

no_current :
    (server_id name : String) (seen : List String) (tools : List McpToolVersion)
    → contains seen name ≡ false
    → find? (is_current server_id name) (
        update_where
          (λ v. v.server_id == server_id && v.current && not (contains seen v.tool_name))
          (λ v. record v { current = false; status = missing })
          tools)
      ≡ none
unfolding find? update_where is_current
no_current server_id name seen [] h = refl
no_current server_id name seen (v ∷ tools) h =
    ground (arith, no_current server_id name seen tools h)

sweep-no_current :
    (server_id name : String) (seen : List String) (s : State)
    → contains seen name ≡ false
    → find? (is_current server_id name) (sweep server_id seen s).1.db.tools ≡ none
unfolding sweep session_scope
sweep-no_current server_id name seen s h = no_current server_id name seen s.db.tools h

store_server-tools :
    (server_id : String) (config : ServerConfig) (config_digest : String) (status : ServerStatus)
    (error : Option String) (at : Option ℕ) (tools : List McpToolVersion)
    → Keeps (λ db. db.tools ≡ tools) (store_server server_id config config_digest status error at)
unfolding store_server
store_server-tools server_id config config_digest status error at tools =
    Keeps-session_scope _ (λ db db' a h p.
      elim (Option-cases (get (λ r. r.id) server_id db.servers)) [
        | inl e ↦
            let (servers, _, k) = and_then-eq-ok (add (λ r. r.id) _ db.servers) _ (rw e at h) in
            ground (arith, k, p)
        | inr (r, e) ↦ ground (arith, e, h, p)
      ])

module _ (machine : Machine) where
  store_tool-status :
      (server_id name : String) (schema : Json) (d : String) (policy : Option ToolPolicy) (now : ℕ)
      (s s' : State) (status : ToolStatus)
      → store_tool machine server_id name schema d policy now s ≡ (ok status, s')
      → status ≡ tool_status (find? (is_current server_id name) s.db.tools) policy d
  unfolding store_tool
  store_tool-status server_id name schema d policy now s s' status h =
      let (text, _, h₁) =
        and_then-eq-ok (canonical machine schema) _ (session_scope-eq-ok _ s s' status h) in
      let (tools, _, h₂) = and_then-eq-ok (put_version _ now _) _ h₁ in ground (arith, h₂)

  module _ (server_id : String) (config : ServerConfig) where
    -- What a discovery answers is what the loop has listed, and the rest is swept.
    discover_server-eq-ok :
        (now : ℕ) (payloads : List Json) (found : List Discovered) (s s' : State)
        → discover_server machine now (some payloads) server_id config s ≡ (ok found, s')
        → (s₁ s₂ : State) × (s₁.db.tools ≡ s.db.tools)
          × (list_all machine server_id config now [] payloads s₁ ≡ (ok found, s₂))
          × (s' ≡ (sweep server_id (names found) s₂).1)
    unfolding discover_server
    discover_server-eq-ok now payloads found s s' h =
        let (config_digest, _, h₁) =
          continue-eq-ok (digest machine config.transport_config) _ s s' found h in
        let storing = store_server server_id config config_digest healthy none (some now) in
        let (_, s₁, e₁, h₂) = bind-eq-ok storing _ s s' found h₁ in
        let (found', s₂, e₂, h₃) =
          bind-eq-ok (list_all machine server_id config now [] payloads) _ s₁ s' found h₂ in
        let (_, s₃, e₃, h₄) = bind-eq-ok (sweep server_id (names found')) _ s₂ s' found h₃ in
        let same : found' ≡ found = ground (arith, h₄) in
        let last : s₃ ≡ s' = ground (arith, h₄) in
        let kept =
          (store_server-tools server_id config config_digest healthy none (some now) s.db.tools).at
            s refl in
        (
          s₁,
          s₂,
          ap (λ (o : Result (Unit {0}) × State). o.1.db.tools) (sym e₁) ∙ kept,
          rw (← same) e₂,
          rw (← same, ← last) (ap (λ (o : Result (Unit {0}) × State). o.1) (sym e₃)),
        )

    module _ (payload : Json) (name : String) (schema : Fields) (description d : String)
        (parts : tool_parts payload ≡ some (name, schema, description))
        (hashed : digest machine (
            object
              (field "input_schema" (object schema) (field "description" (str description) end)))
          ≡ ok d) where
      -- The entry of the tool in what a discovery answers.
      abbrev pub entry : ToolStatus → Discovered
      entry status = record { name = name; input_schema = schema; status = status }

      list_tool-eq :
          (now : ℕ) (s : State)
          → list_tool machine server_id config now [] payload s
            ≡ (store_tool machine server_id name
                    (object schema)
                    d
                    (tool_policy name config.tools)
                    now
                  >>= λ status. pure (entry status ∷ []))
                s
      unfolding list_tool
      list_tool-eq now s = ground (arith, parts, hashed)

      list_tool-status :
          (now : ℕ) (found : List Discovered) (s s' : State)
          → list_tool machine server_id config now [] payload s ≡ (ok found, s')
          → found
            ≡ entry (
                tool_status
                  (find? (is_current server_id name) s.db.tools)
                  (tool_policy name config.tools)
                  d)
              ∷ []
      list_tool-status now found s s' h =
          let policy = tool_policy name config.tools in
          let (status, s₁, stored, done) =
            bind-eq-ok (store_tool machine server_id name (object schema) d policy now) _ s s' found
              (sym (list_tool-eq now s) ∙ h) in
          let given : found ≡ entry status ∷ [] = ground (arith, done) in
          given
          ∙ ap (λ x. entry x ∷ [])
              (store_tool-status server_id name (object schema) d policy now s s₁ status stored)

      -- A list of just this tool gives it the status for the version that was current before.
      discover_one :
          (now : ℕ) (found : List Discovered) (s s' : State)
          → discover_server machine now (some (payload ∷ [])) server_id config s ≡ (ok found, s')
          → found
            ≡ entry (
                tool_status
                  (find? (is_current server_id name) s.db.tools)
                  (tool_policy name config.tools)
                  d)
              ∷ []
      unfolding list_all
      discover_one now found s s' h =
          let (s₁, s₂, kept, listed, _) = discover_server-eq-ok now (payload ∷ []) found s s' h in
          let (found', s₃, e, rest) =
            bind-eq-ok (list_tool machine server_id config now [] payload) _ s₁ s₂ found listed in
          let same : found ≡ found' = ground (arith, rest) in
          rw (← kept) (same ∙ list_tool-status now found' s₁ s₃ e)

      -- A tool that is listed right after another schema was current, and one that is listed with a
      -- discovery in between that did not list it: the first is flagged as changed, and the second is
      -- allowed, for the same schema, where the configuration names the tool and pins no schema.
      pub relisted_tool_allowed :
          (v : McpToolVersion) (s between s₁ s₂ : State) (now then later : ℕ) (others : List Json)
          (first omitted second : List Discovered)
          → unpinned (tool_policy name config.tools) ≡ true
          → find? (is_current server_id name) s.db.tools ≡ some v
          → v.schema_digest ≢ d
          → discover_server machine now (some (payload ∷ [])) server_id config s ≡ (ok first, s₁)
          → discover_server machine then (some others) server_id config s ≡ (ok omitted, between)
          → contains (names omitted) name ≡ false
          → discover_server machine later (some (payload ∷ [])) server_id config between
            ≡ (ok second, s₂)
          → (first ≡ entry schema_changed ∷ []) × (second ≡ entry allowed ∷ [])
      unfolding tool_status
      relisted_tool_allowed v s between s₁ s₂ now then later others first omitted second u current
            differs h before missed h' =
          let (_, sₗ, _, _, swept) = discover_server-eq-ok then others omitted s between before in
          (
            discover_one now first s s₁ h ∙ ground (arith, current, differs, u),
            discover_one later second between s₂ h'
                ∙ ground
                    (arith, u, swept, sweep-no_current server_id name (names omitted) sₗ missed),
          )
