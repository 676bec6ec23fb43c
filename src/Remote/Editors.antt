-- ===== src/Remote/Editors.antt =====
-- Who may change what the instance does.
use faultline.Common.{
  ℕ, Bool, true, false, not, ◌&&◌, ◌||◌, Option, some, Text, ◌==◌, text_eq, string_eq, ◌≡◌, refl,
  arith, ◌⊎◌, Bool-cases, Option-cases, inl, inr,
}
use faultline.Common.Strings.{codes}
use faultline.Config.Model.{Config}
use faultline.Config.Document.{Document}
use faultline.Remote.Store.{Attempt}
use faultline.Remote.Accounts.{User}
use faultline.Remote.Server.{
  Server, Request, Response, Session, session_of, expire, with_sessions, is_logged_in, operation,
}
use faultline.Remote.Login.{view, login, check_login, is_poisoned}
use faultline.Remote.Handler.{serve, serve_locked, serve_session, turn_away, look, operate}
use faultline.Remote.Leaves.{Leaves, Leaves-some, all-Leaves, leaving}

module _ {R F : Type 0} where
  -- The injection state and the revisions are as they were.
  abbrev pub SameControl : Server R F → Server R F → Type 0
  SameControl s t =
      (t.service.active ≡ s.service.active) × (t.service.revisions ≡ s.service.revisions)

  -- A request that an editor sends with the token of a session that is alive, whose account still has its
  -- password and role.
  pub record IsEditor (r : Request) (s : Server R F) : Type 0 where
    pub secure : r.has_tls ≡ true
    pub intact : is_poisoned s ≡ false
    pub logged_in : is_logged_in (session_of r.cookie (expire r.now s.sessions)) r.users ≡ true
    pub posted : (r.method == "POST") ≡ true
    pub token : (r.csrf_token == (session_of r.cookie (expire r.now s.sessions)).csrf) ≡ true
    pub role : ((session_of r.cookie (expire r.now s.sessions)).role == codes "editor") ≡ true

  abbrev pub Allowed : Request → Server R F → Server R F → Type 0
  Allowed r s t = SameControl s t ⊎ IsEditor r s

  same-Allowed :
      (r : Request) (s t : Server R F)
      → t.service.active ≡ s.service.active
      → t.service.revisions ≡ s.service.revisions
      → Allowed r s t
  same-Allowed r s t h h' = inl (h, h')

  module _ (attempt : F → Attempt × F) (verify : User → Text → Bool) (r0 : Request)
      (s0 : Server R F) where
    check_login-Allowed :
        (r : Request) (s : Server R F)
        → Allowed r0 s0 s
        → Leaves (Allowed r0 s0) (check_login attempt verify r s)
    unfolding check_login
    check_login-Allowed r s h = elim (Option-cases r.credentials) [
      | inl missing ↦ rw (missing, check_login) (search leaving)
      | inr ((name, password), given) ↦ rw (given, check_login) (search leaving depth 8)
    ]

    login-Allowed :
        (r : Request) (s : Server R F)
        → Allowed r0 s0 s
        → Leaves (Allowed r0 s0) (login attempt verify r s)
    unfolding login
    login-Allowed r s h = search (leaving, check_login-Allowed) depth 8

  module _ (new_pcg : ℕ → ℕ → R) (sha256 : Text → Text) (attempt : F → Attempt × F)
      (encode : Config → Option Text) (parse : Text → Option Document) (r : Request)
      (s0 : Server R F) where
    turn_away-Allowed :
        (s : Server R F)
        → Allowed r s0 s
        → Leaves (Allowed r s0) (turn_away new_pcg sha256 attempt encode parse r s)
    unfolding turn_away
    turn_away-Allowed s h = search leaving depth 8

    -- An operation is performed for an editor alone.
    operate-Allowed :
        (sess : Session) (s : Server R F)
        → Allowed r s0 s
        → ((r.method == "POST") ≡ true → (sess.role == codes "editor") ≡ true → IsEditor r s0)
        → Leaves (Allowed r s0) (operate new_pcg sha256 attempt encode parse sess r s)
    unfolding operate
    operate-Allowed sess s h editor =
        elim (Bool-cases (not (r.method == "POST") || operation r.path == "unknown")) [
          | inl q ↦ rw (q, operate) (search leaving)
          | inr q ↦ elim (Bool-cases (not (sess.role == codes "editor"))) [
            | inl q' ↦ rw (q, operate) (rw (q', operate) (search leaving))
            | inr q' ↦
                let e = editor (ground (arith, q)) (ground (arith, q')) in
                rw (q, operate) (rw (q', operate) (all-Leaves (Allowed r s0) _ (λ t. inr e)))
          ]
        ]

    look-Allowed :
        (sess : Session) (s : Server R F)
        → Allowed r s0 s
        → ((r.method == "POST") ≡ true → (sess.role == codes "editor") ≡ true → IsEditor r s0)
        → Leaves (Allowed r s0) (look new_pcg sha256 attempt encode parse sess r s)
    unfolding look
    look-Allowed sess s h editor = elim (Bool-cases (not (r.method == "GET"))) [
      | inl q ↦ rw (q, look) (operate-Allowed sess s h editor)
      | inr q ↦ elim (Option-cases (view attempt r.path s)) [
        | inl missing ↦ rw (q, look) (rw (missing, look) (operate-Allowed sess s h editor))
        | inr (content, found) ↦ rw (q, look) (rw (found, look) (search leaving))
      ]
    ]

    serve_session-Allowed :
        (sess : Session) (s : Server R F)
        → Allowed r s0 s
        → ((r.method == "POST") ≡ true
            → (r.csrf_token == sess.csrf) ≡ true
            → (sess.role == codes "editor") ≡ true
            → IsEditor r s0)
        → Leaves (Allowed r s0) (serve_session new_pcg sha256 attempt encode parse sess r s)
    unfolding serve_session
    serve_session-Allowed sess s h editor =
        elim (Bool-cases (r.method == "POST" && not (r.csrf_token == sess.csrf))) [
          | inl q ↦ rw (q, serve_session) (search leaving)
          | inr q ↦
              let looked = look-Allowed sess s h (λ p role. editor p (ground (arith, q, p)) role) in
              rw (q, serve_session) (search (leaving, looked) depth 8)
        ]

    module _ (verify : User → Text → Bool) where
      serve_locked-Allowed :
          not r.has_tls ≡ false
          → Leaves (Allowed r s0) (serve_locked new_pcg sha256 attempt encode parse verify r s0)
      unfolding serve_locked
      serve_locked-Allowed secure =
          let s1 = with_sessions (expire r.now s0.sessions) s0 in
          let sess = session_of r.cookie s1.sessions in
          let base : Allowed r s0 s0 = inl (refl, refl) in
          let logged_in = login-Allowed attempt verify r s0 r s1 base in
          let turned_away = turn_away-Allowed s1 base in
          let served : is_poisoned s0 ≡ false
              → not (is_logged_in sess r.users) ≡ false
              → Leaves (Allowed r s0)
                  (serve_session new_pcg sha256 attempt encode parse sess r s1) =
            λ q in_use. serve_session-Allowed sess s1 base (λ posted token role. record {
              secure = ground (arith, secure);
              intact = q;
              logged_in = ground (arith, in_use);
              posted = posted;
              token = token;
              role = role;
            }) in
          search (leaving, logged_in, turned_away, served) depth 8

      -- Whatever request the server answers, either the injection state, the active revision and all
      -- revisions stay as they are, or an editor sent it: over HTTPS, as a POST, with the CSRF token of a
      -- session that has not expired and whose account still has its password and the role of an editor, while the
      -- store is certain.
      pub serve-Allowed :
          {response : Response} {t : Server R F}
          → serve new_pcg sha256 attempt encode parse verify r s0 ≡ some (response, t)
          → SameControl s0 t ⊎ IsEditor r s0
      unfolding serve
      serve-Allowed h =
          let base : Allowed r s0 s0 = inl (refl, refl) in
          let locked = serve_locked-Allowed in
          let l : Leaves (Allowed r s0) (serve new_pcg sha256 attempt encode parse verify r s0) =
            search (leaving, locked) depth 8 in
          Leaves-some (Allowed r s0) l h
