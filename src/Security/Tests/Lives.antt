-- ===== src/Security/Tests/Lives.antt =====
-- The theorems about native sessions at concrete inputs.
use agent_factor.Base.{◌+◌, false, ◌≡◌, refl, arith, some, [], ◌∷◌, ok, err}
use agent_factor.Base.{string_eq, nat_eq, find?, any, str_length, update_where}
use agent_factor.Store.{get, add, has_key}
use agent_factor.Security.Model.{State, NativeSession, session_scope, seconds}
use agent_factor.Security.Executor.{
  Created, native_session, session_query, close_session, close_rows, create_session, create_rows,
  opens,
}
use agent_factor.Security.Gateway.Policy.{within}
use agent_factor.Security.Response.{Response, session_status, session_rows, record_response}
use agent_factor.Security.Executor.Sessions.{close_session-unauthorized}
use agent_factor.Security.Executor.Creation.{create_then_open}
use agent_factor.Security.Executor.Reopening.{unblock-reopens}
use agent_factor.Security.Samples.{machine, flowing, files, workspace_request, session_of}

abbrev shut : State
shut = (close_session machine 7 "n1" "t1" flowing).1

closing : (close_session machine 7 "n1" "t1" flowing).0 ≡ ok tt
unfolding close_session native_session session_query session_scope close_rows opens find? get
    string_eq str_length
closing = refl

close_session-unauthorized_example :
    native_session machine 8 "n1" "t1" shut ≡ (err "native_session_unauthorized" 403, shut)
close_session-unauthorized_example =
    close_session-unauthorized machine 7 8 "n1" "t1" "t1" flowing shut closing refl

abbrev unblocking : Response
unblocking = record {
  id = "response_action_0";
  action = "session_unblock";
  target_type = "native_session";
  target_id = "n1";
  previous_status = "closed";
  resulting_status = "active";
}

unblock-reopens_example :
    (native_session machine 9 "n1" "t1"
      (session_status machine 8 "n1" false "root" "again" shut).1).0
    ≡ ok (record (session_of "n1" "t1" ("pii" ∷ [])) { ended_at = some 7 })
unfolding close_session native_session session_query session_scope close_rows opens find? get
    string_eq str_length session_status session_rows record_response add has_key any update_where
unblock-reopens_example =
    unblock-reopens machine 6 7 8 9 "n1" "t1" "root" "again" flowing
      (session_of "n1" "t1" ("pii" ∷ [])) unblocking (refl, (refl, tt)) refl refl refl (omega arith)

abbrev created : Created
created = record {
  id = "native_session_01";
  token = "token0";
  workspace_digest = "sha256:/work";
  expires_at = 5 + seconds 60;
}

create_then_open_example :
    (x : NativeSession) × ((native_session machine 6 "native_session_01" "token0"
        (create_session machine files 5 workspace_request flowing).1).0
      ≡ ok x)
    × (x.principal_id ≡ "alice")
    × (some "/work" ≡ some x.workspace_path)
    × (x.taint_labels ≡ [])
unfolding create_session create_rows session_scope add has_key any string_eq str_length within
create_then_open_example =
    create_then_open machine files 5 workspace_request flowing created 6 refl refl (omega arith)
