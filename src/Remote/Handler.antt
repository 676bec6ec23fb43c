-- ===== src/Remote/Handler.antt =====
-- internal/control/remote/server.go, `ServeHTTP` and `document`. Each branch gives the
-- answer and the server that it leaves; the server's lock makes it one step. `verify` stands for
-- `verify_password` of Remote/Accounts over its two parameters; the texts of a library's errors are left out.
use faultline.Common.{
  ℕ, Bool, true, false, not, ◌&&◌, ◌||◌, Option, none, some, ◌++◌, String, Text, ◌==◌, text_eq,
  string_eq, nat_eq, is_nil, if◌then◌else◌,
}
use faultline.Common.Strings.{codes}
use faultline.Config.Model.{Config}
use faultline.Config.Document.{Document}
use faultline.Control.Service.{
  Service, Answer, applied, refused, Refusal, conflict, apply_revision, set_enabled, revision_of,
}
use faultline.Remote.Store.{Store, Attempt, persist}
use faultline.Remote.Accounts.{User}
use faultline.Remote.Draft.{Draft, Edited, edited, rejected, draft_config}
use faultline.Remote.Login.{Handled, without, is_poisoned, answer, audited, view, login}
use faultline.Remote.Server.{
  Server, Request, Response, Session, refuse, reply, operation, is_asset, session_of, expire,
  is_logged_in, record_control, with_sessions, revision_now, assets, session_view, done,
  result_view, valid_draft, config_changed,
}

module _ {R F : Type 0} (new_pcg : ℕ → ℕ → R) (sha256 : Text → Text) (attempt : F → Attempt × F)
    (encode : Config → Option Text) (parse : Text → Option Document) where
  -- `document`: the edited configuration, encoded and parsed again; `none` is an error.
  abbrev pub parsed : Option Text → Option Document
  parsed none = none
  parsed (some encoded) = parse encoded

  abbrev pub edited_document : Edited Config → Option Document
  edited_document (rejected message) = none
  edited_document (edited c) = parsed (encode c)

  abbrev pub is_conflict : Refusal → Bool
  is_conflict conflict = true
  is_conflict _ = false

  unfoldable pub apply_problem : Refusal → Response
  apply_problem e =
      if is_conflict e
      then refuse 409 "config revision conflict"
      else refuse 503 "apply failed; refresh active revision before retrying"

  -- What stands behind `ApplyRevision`.
  unfoldable pub after_apply : Text → Answer → Server R F → Handled R F
  after_apply actor (applied result) s =
      answer (reply 200 (result_view result)) (record_control (codes "apply") (codes "ok") s)
  after_apply actor (refused e) s =
      let s' = record_control (codes "apply") (codes "rejected") s in
      if is_poisoned s'
      then answer (apply_problem e) (record s' { failed = true })
      else audited attempt actor "apply" (codes "failed") s' (answer (apply_problem e))

  abbrev pub with_service : Option (Answer × Service R (Store F)) → Text → Server R F → Handled R F
  with_service none actor s = none
  with_service (some (a, service)) actor s = after_apply actor a (record s { service = service })

  -- `apply` and `validate` on the document of a draft; `actor` is the session's name, which the persisting
  -- function sees while `ApplyRevision` runs.
  unfoldable pub submit : Text → String → ℕ → Draft → Option Document → Server R F → Handled R F
  submit actor op now draft none s =
      audited attempt actor op (codes "invalid_config") s (answer (refuse 422 "invalid config"))
  submit actor op now draft (some d) s =
      if op == "validate"
      then audited attempt actor op (codes "ok") s
          (answer (reply 200 (valid_draft draft.base_revision)))
      else with_service
          (apply_revision new_pcg sha256 (persist attempt encode actor) (some d) draft.base_revision
            now s.service)
          actor s

  -- `none` is a nil revision.
  unfoldable pub submit_draft : Text → String → ℕ → Draft → Server R F → Handled R F
  submit_draft actor op now draft s =
      if not (draft.base_revision == revision_now s)
      then audited attempt actor op (codes "conflict") s (answer (reply 409 config_changed))
      else elim (revision_of s.service.active s.service) [
        | none ↦ none
        | some current ↦
            submit actor op now draft (edited_document (draft_config draft current.document.config))
              s
      ]

  -- `enable` and `disable`, behind the audit.
  unfoldable pub switch : String → ℕ → Server R F → Handled R F
  switch op now s =
      let (result, service) = set_enabled (op == "enable") now s.service in
      answer (reply 200 (result_view result))
        (record_control (codes op) (codes "ok") (record s { service = service }))

  -- The operations of an editor.
  unfoldable pub edit : Session → String → Request → Server R F → Handled R F
  edit sess op r s =
      if op == "enable" || op == "disable"
      then audited attempt sess.name op (codes "ok") s (switch op r.now)
      else if not (op == "apply") && not (op == "validate")
      then answer (refuse 404 "unknown API operation") s
      else elim r.draft [
        | none ↦
            audited attempt sess.name op (codes "invalid_request") s
              (answer (refuse 400 "invalid JSON request or unknown field"))
        | some draft ↦ submit_draft sess.name op r.now draft s
      ]

  -- Requests of a session that is logged in.
  unfoldable pub operate : Session → Request → Server R F → Handled R F
  operate sess r s =
      let op = operation r.path in
      if not (r.method == "POST") || op == "unknown"
      then answer (refuse 404 "unknown API operation") s
      else if not (sess.role == codes "editor")
      then audited attempt sess.name op (codes "forbidden") s
          (answer (refuse 403 "editor role required"))
      else edit sess op r s

  unfoldable pub look : Session → Request → Server R F → Handled R F
  look sess r s =
      if not (r.method == "GET") then operate sess r s else elim (view attempt r.path s) [
        | some content ↦ answer (reply 200 content) s
        | none ↦ operate sess r s
      ]

  unfoldable pub serve_session : Session → Request → Server R F → Handled R F
  serve_session sess r s =
      if r.method == "POST" && not (r.csrf_token == sess.csrf)
      then audited attempt sess.name (operation r.path) (codes "csrf_rejected") s
          (answer (refuse 403 "CSRF token required"))
      else if r.path == "/api/session" && r.method == "GET"
      then answer (reply 200 (session_view sess)) s
      else if r.path == "/api/logout" && r.method == "POST"
      then audited attempt sess.name "logout" (codes "ok") s
          (λ s'. answer (reply 200 done) (with_sessions (without r.cookie s'.sessions) s'))
      else look sess r s

  -- A request without a session.
  unfoldable pub turn_away : Request → Server R F → Handled R F
  turn_away r s =
      let s' = with_sessions (without r.cookie s.sessions) s in
      if not (r.method == "GET")
      then audited attempt (codes "anonymous") (operation r.path) (codes "unauthorized") s'
          (answer (refuse 401 "login required"))
      else answer (refuse 401 "login required") s'

  module _ (verify : User → Text → Bool) where
    -- The part of `ServeHTTP` behind the lock.
    unfoldable pub serve_locked : Request → Server R F → Handled R F
    serve_locked r s =
        if is_poisoned s
        then answer (refuse 503 "storage commit uncertain; restart required") s
        else (let s' = with_sessions (expire r.now s.sessions) s in
            let sess = session_of r.cookie s'.sessions in
            if r.path == "/api/login" && r.method == "POST"
            then login attempt verify r s'
            else if not (is_logged_in sess r.users)
            then turn_away r s'
            else serve_session sess r s')

    -- `ServeHTTP`
    unfoldable pub serve : Request → Server R F → Handled R F
    serve r s =
        if not r.has_tls
        then answer (refuse 400 "HTTPS required") s
        else if not (r.method == "GET")
            && not (is_nil r.origin)
            && not (r.origin == codes "https://" ++ r.host)
        then answer (refuse 403 "cross-origin request rejected") s
        else if is_asset r.path
        then (if not (r.method == "GET")
            then answer (refuse 405 "GET required") s
            else answer (reply 200 assets) s)
        else serve_locked r s
