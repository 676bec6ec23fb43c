-- ===== src/Remote/Leaves.antt =====
-- Reasoning on what a handler leaves.
use faultline.Common.{
  ℕ, Bool, true, false, Option, none, some, String, Text, ◌≡◌, Bool-cases, inl, inr, if◌then◌else◌,
}
use faultline.Common.Strings.{codes}
use faultline.Remote.Store.{Store, Attempt, audit}
use faultline.Remote.Server.{Server, Response, revision_now}
use faultline.Remote.Login.{Handled, answer, audited, after_audit, with_saved, fail_if_poisoned}

module _ {R F : Type 0} where
  -- What holds of the server that a branch leaves; a panic leaves none.
  unfoldable pub Leaves : (Server R F → Type 0) → Handled R F → Type 0
  Leaves P none = Unit
  Leaves P (some (response, s)) = P s

  pub answer-Leaves :
      (P : Server R F → Type 0) (response : Response) (s : Server R F)
      → P s
      → Leaves P (answer response s)
  unfolding Leaves
  answer-Leaves P response s h = h

  -- What holds of every server holds of the one that is left.
  pub all-Leaves :
      (P : Server R F → Type 0) (h : Handled R F) → ((s : Server R F) → P s) → Leaves P h
  unfolding Leaves
  all-Leaves P none every = tt
  all-Leaves P (some (response, s)) every = every s

  pub Leaves-some :
      (P : Server R F → Type 0) {h : Handled R F} {response : Response} {s : Server R F}
      → Leaves P h
      → h ≡ some (response, s)
      → P s
  unfolding Leaves
  Leaves-some P {response = response} {s = s} l e = rw e at l

  pub if-Leaves :
      (P : Server R F → Type 0) (b : Bool) (h h' : Handled R F)
      → (b ≡ true → Leaves P h)
      → (b ≡ false → Leaves P h')
      → Leaves P (if b then h else h')
  if-Leaves P b h h' on off = elim (Bool-cases b) [ inl q ↦ rw q (on q) | inr q ↦ rw q (off q) ]

  after_audit-Leaves :
      (P : Server R F → Type 0) (e : Option ℕ) (go_on : Server R F → Handled R F) (s : Server R F)
      → Leaves P (go_on s)
      → P (fail_if_poisoned s)
      → Leaves P (after_audit e go_on s)
  unfolding Leaves
  after_audit-Leaves P none go_on s h k = h
  after_audit-Leaves P (some e) go_on s h k = k

  -- An audit changes nothing but the store and, where it fails, the error that waits.
  pub audited-Leaves :
      (P : Server R F → Type 0) (attempt : F → Attempt × F) (actor : Text) (op : String)
      (outcome : Text) (s : Server R F) (go_on : Server R F → Handled R F)
      → ((saved : Store F) → Leaves P (go_on (with_saved saved s)))
      → ((saved : Store F) → P (fail_if_poisoned (with_saved saved s)))
      → Leaves P (audited attempt actor op outcome s go_on)
  unfolding audited
  audited-Leaves P attempt actor op outcome s go_on h k =
      let saved = (audit attempt actor (codes op) outcome (revision_now s) s.service.saved).1 in
      after_audit-Leaves P
        (audit attempt actor (codes op) outcome (revision_now s) s.service.saved).0 go_on
        (with_saved saved s) (h saved) (k saved)

-- How an answer is built.
pub ruleset leaving = (if-Leaves, answer-Leaves, audited-Leaves)
