-- ===== src/Remote/Kept.antt =====
-- A property of the server that its operations keep is kept by every request.
use faultline.Common.{
  ℕ, ◌+◌, ◌≤◌, ◌<◌, Bool, true, false, Option, none, some, List, [], ◌∷◌, String, Text, text_eq,
  string_eq, nat_eq, ◌≡◌, ◌⊎◌, arith, leb, length, Bool-cases, Option-cases, inl, inr,
  if◌then◌else◌,
}
use faultline.Common.Strings.{codes}
use faultline.Config.Model.{Config}
use faultline.Config.Document.{Document}
use faultline.Control.Service.{Service, Answer, apply_revision, set_enabled}
use faultline.Remote.Store.{Store, Attempt, audit, persist}
use faultline.Remote.Accounts.{User, find_user, user_or_none, users_or_none}
use faultline.Remote.Server.{
  Server, Request, Session, expire, delete_session, put_session, with_sessions, record_control,
  revision_now,
}
use faultline.Remote.Login.{
  Handled, audited, after_audit, with_saved, login, check_login, without, minute, start_session,
}
use faultline.Remote.Leaves.{Leaves, if-Leaves, answer-Leaves}

pub expire-le : (now : ℕ) (l : List (Text × Session)) → length (expire now l) ≤ length l
unfolding expire
expire-le now [] = omega arith
expire-le now ((t, sess) ∷ l) = ground (arith, expire-le now l)

delete_session-le :
    (token : Text) (l : List (Text × Session)) → length (delete_session token l) ≤ length l
unfolding delete_session
delete_session-le token [] = omega arith
delete_session-le token ((t, sess) ∷ l) = ground (arith, delete_session-le token l)

put_session-le :
    (token : Text) (new : Session) (l : List (Text × Session))
    → length (put_session token new l) ≤ length l + 1
unfolding put_session
put_session-le token new [] = omega arith
put_session-le token new ((t, sess) ∷ l) = ground (arith, put_session-le token new l)

pub without-le :
    (token : Option Text) (l : List (Text × Session)) → length (without token l) ≤ length l
without-le none l = omega arith
without-le (some token) l = delete_session-le token l

module _ {R F : Type 0} (attempt : F → Attempt × F) where
  -- The store behind an audit.
  abbrev pub store_after : Text → String → Text → Server R F → Store F
  store_after actor op outcome s =
      (audit attempt actor (codes op) outcome (revision_now s) s.service.saved).1

  module _ (new_pcg : ℕ → ℕ → R) (sha256 : Text → Text) (encode : Config → Option Text) where
    -- What the server does to its state, piece by piece.
    pub record IsKept (P : Server R F → Type 0) : Type 0 where
      pub audits :
          (s : Server R F) (actor : Text) (op : String) (outcome : Text)
          → P s
          → P (with_saved (store_after actor op outcome s) s)
      pub fails : (s : Server R F) (b : Bool) → P s → P (record s { failed = b })
      pub records_event :
          (s : Server R F) (op outcome : Text) → P s → P (record_control op outcome s)
      pub drops :
          (s : Server R F) (sessions : List (Text × Session))
          → length sessions ≤ length s.sessions
          → P s
          → P (with_sessions sessions s)
      pub joins :
          (s : Server R F) (sessions : List (Text × Session))
          → length sessions ≤ 256
          → P s
          → P (with_sessions sessions s)
      pub counts :
          (s : Server R F) (window count : ℕ)
          → (count ≤ 20) ⊎ (count ≡ s.login_count)
          → P s
          → P (record s { login_window = window; login_count = count })
      pub switches :
          (s : Server R F) (on : Bool) (now : ℕ)
          → P s
          → P (record s { service = (set_enabled on now s.service).1 })
      pub applies :
          (s : Server R F) (actor : Text) (d : Option Document) (expected now : ℕ) (a : Answer)
          (service : Service R (Store F))
          → apply_revision new_pcg sha256 (persist attempt encode actor) d expected now s.service
            ≡ some (a, service)
          → P s
          → P (record s { service = service })

    module _ (P : Server R F → Type 0) (kept : IsKept P) where
      after_audit-Leaves :
          (e : Option ℕ) (go_on : Server R F → Handled R F) (s : Server R F)
          → P s
          → Leaves P (go_on s)
          → Leaves P (after_audit e go_on s)
      unfolding Leaves
      after_audit-Leaves none go_on s p h = h
      after_audit-Leaves (some e) go_on s p h = kept.fails s _ p

      pub audited-kept :
          (actor : Text) (op : String) (outcome : Text) (s : Server R F)
          (go_on : Server R F → Handled R F)
          → P s
          → (P (with_saved (store_after actor op outcome s) s)
              → Leaves P (go_on (with_saved (store_after actor op outcome s) s)))
          → Leaves P (audited attempt actor op outcome s go_on)
      unfolding audited
      audited-kept actor op outcome s go_on p h =
          let p' = kept.audits s actor op outcome p in
          after_audit-Leaves _ go_on (with_saved (store_after actor op outcome s) s) p' (h p')

      ruleset keeping = (if-Leaves, answer-Leaves, audited-kept)

      start_session-kept :
          (verify : User → Text → Bool) (r : Request) (name : Text) (u : User) (s : Server R F)
          → length s.sessions < 256
          → P s
          → Leaves P (start_session attempt verify r name u s)
      start_session-kept verify r name u s room p = answer-Leaves P _ _ (
          kept.joins s _
            (omega (
              arith,
              room,
              put_session-le r.token _ (without r.cookie s.sessions),
              without-le r.cookie s.sessions,
            ))
            p)

      check_login-kept :
          (verify : User → Text → Bool) (r : Request) (s : Server R F)
          → P s
          → Leaves P (check_login attempt verify r s)
      unfolding check_login
      check_login-kept verify r s p = elim (Option-cases r.credentials) [
        | inl missing ↦ rw (missing, check_login) (search (keeping, p))
        | inr ((name, password), given) ↦
            let u = user_or_none (find_user name (users_or_none r.users)) in
            let s' = with_saved (store_after name "login" (codes "ok") s) s in
            let started : leb 256 (length s.sessions) ≡ false
                → P s'
                → Leaves P (start_session attempt verify r name u s') =
              λ q p'. start_session-kept verify r name u s' (ground (arith, q)) p' in
            rw (given, check_login) (search (keeping, p, started) depth 9)
      ]

      pub login-kept :
          (verify : User → Text → Bool) (r : Request) (s : Server R F)
          → P s
          → Leaves P (login attempt verify r s)
      unfolding login
      login-kept verify r s p =
          let fresh = leb (s.login_window + minute) r.now in
          let count = if fresh then 0 else s.login_count in
          let window = if fresh then r.now else s.login_window in
          let opened : (n : ℕ)
              → (n ≤ 20) ⊎ (n ≡ s.login_count)
              → P (record s { login_window = window; login_count = n }) =
            λ n le. kept.counts s window n le p in
          let few : leb 20 count ≡ true
              → P (record s { login_window = window; login_count = count }) =
            λ q. opened count (elim (Bool-cases fresh) [
              | inl f ↦ inl (ground (arith, f))
              | inr f ↦ inr (ground (arith, f))
            ]) in
          let counted : leb 20 count ≡ false
              → Leaves P (
                  check_login attempt verify r
                    (record s { login_window = window; login_count = count + 1 })) =
            λ q.
              check_login-kept verify r
                (record s { login_window = window; login_count = count + 1 })
                (opened (count + 1) (inl (ground (arith, q)))) in
          search (keeping, few, counted)

      pub panic : Leaves P none
      unfolding Leaves
      panic = tt
