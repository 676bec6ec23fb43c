-- ===== src/Remote/Requests.antt =====
-- A property of the server that its operations keep is kept by every request.
use faultline.Common.{
  ℕ, Bool, true, Option, none, some, String, Text, ◌==◌, text_eq, string_eq, nat_eq, Option-cases,
  inl, inr,
}
use faultline.Common.Strings.{codes}
use faultline.Config.Model.{Config}
use faultline.Config.Document.{Document}
use faultline.Control.Service.{Answer, applied, refused, apply_revision, revision_of}
use faultline.Remote.Store.{Attempt, persist}
use faultline.Remote.Accounts.{User}
use faultline.Remote.Draft.{Draft}
use faultline.Remote.Server.{Server, Request, Session, expire, with_sessions}
use faultline.Remote.Login.{view, with_saved, without}
use faultline.Remote.Handler.{
  serve, serve_locked, serve_session, turn_away, look, operate, edit, switch, submit_draft, submit,
  after_apply,
}
use faultline.Remote.Kept.{
  IsKept, store_after, audited-kept, login-kept, without-le, expire-le, panic,
}
use faultline.Remote.Leaves.{Leaves, if-Leaves, answer-Leaves}

module _ {R F : Type 0} (attempt : F → Attempt × F) (new_pcg : ℕ → ℕ → R) (sha256 : Text → Text)
    (encode : Config → Option Text) (P : Server R F → Type 0)
    (kept : IsKept attempt new_pcg sha256 encode P) (parse : Text → Option Document) where
  ruleset keeping = (if-Leaves, answer-Leaves, audited-kept)

  after_apply-kept :
      (actor : Text) (a : Answer) (s : Server R F)
      → P s
      → Leaves P (after_apply new_pcg sha256 attempt encode parse actor a s)
  unfolding after_apply
  after_apply-kept actor (applied result) s p =
      answer-Leaves P _ _ (kept.records_event s (codes "apply") (codes "ok") p)
  after_apply-kept actor (refused e) s p =
      let p' = kept.records_event s (codes "apply") (codes "rejected") p in
      let p2 = kept.fails _ true p' in search (keeping, p', p2) depth 8

  submit-kept :
      (actor : Text) (op : String) (now : ℕ) (draft : Draft) (d : Option Document) (s : Server R F)
      → P s
      → Leaves P (submit new_pcg sha256 attempt encode parse actor op now draft d s)
  unfolding submit
  submit-kept actor op now draft none s p = search (keeping, p) depth 8
  submit-kept actor op now draft (some d) s p =
      elim (Option-cases (
        apply_revision new_pcg sha256 (persist attempt encode actor) (some d) draft.base_revision
          now s.service)) [
            | inl nothing ↦ rw (nothing, submit) (search (keeping, p, panic) depth 8)
            | inr ((a, service), answered) ↦
                let p' =
                  kept.applies s actor (some d) draft.base_revision now a service answered p in
                let done = after_apply-kept actor a (record s { service = service }) p' in
                rw (answered, submit) (search (keeping, p, done) depth 8)
          ]

  submit_draft-kept :
      (actor : Text) (op : String) (now : ℕ) (draft : Draft) (s : Server R F)
      → P s
      → Leaves P (submit_draft new_pcg sha256 attempt encode parse actor op now draft s)
  unfolding submit_draft
  submit_draft-kept actor op now draft s p =
      elim (Option-cases (revision_of s.service.active s.service)) [
        | inl missing ↦ rw (missing, submit_draft) (search (keeping, p, panic) depth 8)
        | inr (current, found) ↦ rw (found, submit_draft) (search (keeping, p, submit-kept) depth 8)
      ]

  switch-kept :
      (op : String) (now : ℕ) (s : Server R F)
      → P s
      → Leaves P (switch new_pcg sha256 attempt encode parse op now s)
  unfolding switch
  switch-kept op now s p =
      answer-Leaves P _ _
        (kept.records_event _ (codes op) (codes "ok") (kept.switches s (op == "enable") now p))

  edit-kept :
      (sess : Session) (op : String) (r : Request) (s : Server R F)
      → P s
      → Leaves P (edit new_pcg sha256 attempt encode parse sess op r s)
  unfolding edit
  edit-kept sess op r s p = elim (Option-cases r.draft) [
    | inl missing ↦ rw (missing, edit) (search (keeping, p, switch-kept) depth 8)
    | inr (draft, given) ↦
        rw (given, edit) (search (keeping, p, switch-kept, submit_draft-kept) depth 8)
  ]

  look-kept :
      (sess : Session) (r : Request) (s : Server R F)
      → P s
      → Leaves P (look new_pcg sha256 attempt encode parse sess r s)
  unfolding look operate
  look-kept sess r s p = elim (Option-cases (view attempt r.path s)) [
    | inl missing ↦ rw (missing, look) (search (keeping, p, edit-kept) depth 9)
    | inr (content, found) ↦ rw (found, look) (search (keeping, p, edit-kept) depth 9)
  ]

  serve_session-kept :
      (sess : Session) (r : Request) (s : Server R F)
      → P s
      → Leaves P (serve_session new_pcg sha256 attempt encode parse sess r s)
  unfolding serve_session
  serve_session-kept sess r s p =
      let s' = with_saved (store_after attempt sess.name "logout" (codes "ok") s) s in
      let logged_out : P s' → P (with_sessions (without r.cookie s.sessions) s') =
        λ p'. kept.drops s' (without r.cookie s.sessions) (without-le r.cookie s.sessions) p' in
      search (keeping, p, look-kept, logged_out) depth 9

  pub serve-kept :
      (verify : User → Text → Bool) (r : Request) (s : Server R F)
      → P s
      → Leaves P (serve new_pcg sha256 attempt encode parse verify r s)
  unfolding serve serve_locked turn_away
  serve-kept verify r s p =
      let s1 = with_sessions (expire r.now s.sessions) s in
      let p1 : P s1 = kept.drops s _ (expire-le r.now s.sessions) p in
      let p2 = kept.drops s1 (without r.cookie s1.sessions) (without-le r.cookie s1.sessions) p1 in
      search (keeping, p, p1, p2, login-kept, serve_session-kept) depth 12
