-- ===== src/Remote/Server.antt =====
-- internal/control/remote/server.go: the server's state, what it answers, and the parts of its handler.
use faultline.Common.{
  ℕ, Bool, false, not, ◌&&◌, ◌||◌, Option, none, some, List, [], ◌∷◌, String, Text, ◌==◌, text_eq,
  string_eq, nat_eq, ltb, is_nil, if◌then◌else◌,
}
use faultline.Control.Service.{Service, Applied}
use faultline.Recorder.State.{Recorder, Event, record_event}
use faultline.Remote.Store.{Store, Audit}
use faultline.Remote.Accounts.{Users, User, find_user}
use faultline.Remote.Draft.{Draft}

pub record Session : Type 0 where
  pub name : Text
  pub role : Text
  pub hash : Text
  pub csrf : Text
  pub expires : ℕ

abbrev pub no_session : Session
no_session = record { name = []; role = []; hash = []; csrf = []; expires = 0 }

-- The store of the program is what the service has saved. `failed` says that an error waits for the main
-- program; the channel takes one.
pub record Server (R F : Type 0) : Type 0 where
  pub service : Service R (Store F)
  pub sessions : List (Text × Session)
  pub login_window : ℕ
  pub login_count : ℕ
  pub records : Recorder
  pub failed : Bool

-- What the handler reads of a request, with what `decode` makes of its body, and beside it the clock, what
-- `readUsers` returns and two random texts.
pub record Request : Type 0 where
  pub has_tls : Bool
  pub method : String
  pub path : String
  pub origin : Text
  pub host : Text
  pub cookie : Option Text
  pub csrf_token : Text
  pub draft : Option Draft
  pub credentials : Option (Text × Text)
  pub now : ℕ
  pub users : Option Users
  pub token : Text
  pub new_csrf : Text

pub data Content : Type 0 where
  problem : String → Content
  assets : Content
  session_view : Session → Content
  done : Content
  config_view : ℕ → Applied → Content
  status_view : Content
  audit_view : List Audit → Content
  capabilities : Content
  result_view : Applied → Content
  valid_draft : ℕ → Content
  config_changed : Content

pub record Response : Type 0 where
  pub status : ℕ
  pub content : Content

abbrev pub refuse : ℕ → String → Response
refuse status message = record { status = status; content = problem message }

abbrev pub reply : ℕ → Content → Response
reply status content = record { status = status; content = content }

-- `operation`
unfoldable pub operation : String → String
operation path =
    if path == "/api/login"
    then "login"
    else if path == "/api/logout"
    then "logout"
    else if path == "/api/apply"
    then "apply"
    else if path == "/api/validate"
    then "validate"
    else if path == "/api/enable"
    then "enable"
    else if path == "/api/disable"
    then "disable"
    else "unknown"

unfoldable pub is_asset : String → Bool
is_asset path =
    path == "/"
    || path == "/app.js"
    || path == "/diff.js"
    || path == "/style.css"
    || path == "/favicon.svg"

-- `s.sessions[token]`, `delete(s.sessions, token)` and `s.sessions[token] = session`
abbrev pub find_session : Text → List (Text × Session) → Session
find_session token [] = no_session
find_session token ((t, sess) ∷ rest) = if t == token then sess else find_session token rest

unfoldable pub delete_session : Text → List (Text × Session) → List (Text × Session)
delete_session token [] = []
delete_session token ((t, sess) ∷ rest) =
    let others = delete_session token rest in if t == token then others else (t, sess) ∷ others

unfoldable pub put_session : Text → Session → List (Text × Session) → List (Text × Session)
put_session token new [] = (token, new) ∷ []
put_session token new ((t, sess) ∷ rest) =
    if t == token then (t, new) ∷ rest else (t, sess) ∷ put_session token new rest

-- The loop that deletes the sessions that have expired.
unfoldable pub expire : ℕ → List (Text × Session) → List (Text × Session)
expire now [] = []
expire now ((t, sess) ∷ rest) =
    let others = expire now rest in
    if not (ltb now sess.expires) then others else (t, sess) ∷ others

abbrev pub session_of : Option Text → List (Text × Session) → Session
session_of none sessions = no_session
session_of (some token) sessions = find_session token sessions

-- Whether the accounts still have the session's user, with the session's password and role.
unfoldable pub same_account : Session → Option User → Bool
same_account sess none = false
same_account sess (some u) = u.hash == sess.hash && u.role == sess.role

unfoldable pub is_logged_in : Session → Option Users → Bool
is_logged_in sess none = false
is_logged_in sess (some users) =
    not (is_nil sess.name) && same_account sess (find_user sess.name users)

abbrev pub control_event : Text → Text → Event
control_event operation outcome = record {
  kind = "control";
  rule_id = [];
  selected = false;
  applied = false;
  outcome = outcome;
  rest = operation;
}

module _ {R F : Type 0} where
  abbrev pub with_sessions : List (Text × Session) → Server R F → Server R F
  with_sessions sessions s = record s { sessions = sessions }

  abbrev pub record_control : Text → Text → Server R F → Server R F
  record_control operation outcome s = record s {
    records = record_event (control_event operation outcome) s.records;
  }

  abbrev pub revision_now : Server R F → ℕ
  revision_now s = s.service.active.info.revision
