-- ===== src/Remote/Login.antt =====
-- internal/control/remote/server.go, `audit` and `login`, and the views of `ServeHTTP`. Each branch gives the answer
-- and the server that it leaves. `verify` stands for `verify_password` of Remote/Accounts over its two parameters.
use faultline.Common.{
  ℕ, ◌+◌, ◌*◌, Bool, true, false, not, ◌||◌, Option, none, some, List, String, Text, ◌==◌, text_eq,
  string_eq, nat_eq, length, ltb, leb, if◌then◌else◌,
}
use faultline.Common.Strings.{codes}
use faultline.Remote.Store.{Store, Attempt, audit}
use faultline.Remote.Accounts.{User, Users, find_user, user_or_none, users_or_none}
use faultline.Remote.Server.{
  Server, Request, Response, Session, Content, refuse, reply, delete_session, put_session,
  with_sessions, revision_now, session_view, config_view, status_view, audit_view, capabilities,
}

abbrev pub Handled : Type 0 → Type 0 → Type 0
Handled R F = Option (Response × Server R F)

abbrev pub minute : ℕ
minute = 60000000000

-- The sessions without the one of a cookie.
abbrev pub without : Option Text → List (Text × Session) → List (Text × Session)
without none sessions = sessions
without (some token) sessions = delete_session token sessions

abbrev pub is_missing : Option Users → Bool
is_missing none = true
is_missing (some users) = false

module _ {R F : Type 0} where
  -- `s.store.poisoned`
  abbrev pub is_poisoned : Server R F → Bool
  is_poisoned s = s.service.saved.poisoned

  -- `if s.store.poisoned { s.fail(err) }`
  abbrev pub fail_if_poisoned : Server R F → Server R F
  fail_if_poisoned s = record s { failed = s.failed || is_poisoned s }

  abbrev pub with_saved : Store F → Server R F → Server R F
  with_saved saved s = record s { service = record s.service { saved = saved } }

  -- What stands behind `s.audit`: the code goes on, or the answer is that nothing was performed.
  abbrev pub after_audit : Option ℕ → (Server R F → Handled R F) → Server R F → Handled R F
  after_audit none go_on s = go_on s
  after_audit (some e) go_on s =
      some (refuse 503 "audit storage unavailable; no operation performed", fail_if_poisoned s)

  abbrev pub answer : Response → Server R F → Handled R F
  answer response s = some (response, s)

module _ {R F : Type 0} (attempt : F → Attempt × F) where
  unfoldable pub audited :
      Text → String → Text → Server R F → (Server R F → Handled R F) → Handled R F
  audited actor op outcome s go_on =
      let (e, saved) = audit attempt actor (codes op) outcome (revision_now s) s.service.saved in
      after_audit e go_on (with_saved saved s)

  -- The answers to `GET` of the interface; `none` for another path.
  unfoldable pub view : String → Server R F → Option Content
  view path s =
      if path == "/api/config"
      then some (config_view (revision_now s) s.service.saved.state.last_apply)
      else if path == "/api/status"
      then some status_view
      else if path == "/api/audit"
      then some (audit_view s.service.saved.state.audit)
      else if path == "/api/capabilities"
      then some capabilities
      else none

  module _ (verify : User → Text → Bool) where
    -- The session that a login makes, behind the audit.
    abbrev pub start_session : Request → Text → User → Server R F → Handled R F
    start_session r name u s =
        let sess : Session = record {
          name = name;
          role = u.role;
          hash = u.hash;
          csrf = r.new_csrf;
          expires = r.now + 8 * 60 * minute;
        } in
        answer (reply 200 (session_view sess))
          (with_sessions (put_session r.token sess (without r.cookie s.sessions)) s)

    -- `login` behind its rate limit.
    unfoldable pub check_login : Request → Server R F → Handled R F
    check_login r s = elim r.credentials [
      | none ↦ answer (refuse 400 "invalid login request") s
      | some (name, password) ↦
          let u = user_or_none (find_user name (users_or_none r.users)) in
          if ltb 1024 (length password)
          then answer (refuse 400 "invalid login request") s
          else if not (verify u password) || is_missing r.users
          then audited (codes "anonymous") "login" (codes "rejected") s
              (answer (refuse 401 "invalid username or password"))
          else if leb 256 (length s.sessions)
          then answer (refuse 503 "session limit reached") s
          else audited name "login" (codes "ok") s (start_session r name u)
    ]

    unfoldable pub login : Request → Server R F → Handled R F
    login r s =
        let fresh = leb (s.login_window + minute) r.now in
        let count = if fresh then 0 else s.login_count in
        let window = if fresh then r.now else s.login_window in
        let opened = record s { login_window = window; login_count = count } in
        if leb 20 count
        then answer (refuse 429 "login rate limit; retry in one minute") opened
        else check_login r (record opened { login_count = count + 1 })
