-- ===== src/Control/Apply.antt =====
-- What `apply` and the operations over it do, on every branch.

use mathlib.Core.Path.{subst}
use faultline.Common.{
  ℕ, true, false, not, Option, some, Text, ◌≡◌, sym, arith, Bool-cases, Option-cases, inl, inr,
  nat_eq,
}
use faultline.Config.Document.{Document, equal, restart_compatible}
use faultline.Engine.State.{new}
use faultline.Control.Service.{
  Answer, refused, not_validated, conflict, restart_required, Service, Persist, publish, next_info,
  save, replace, apply, conflicts, revision_of,
}
use faultline.Control.Advance.{
  IsAtomic, IsAtomic-refused, IsAtomic-same, IsAtomic-published, save-IsAtomic,
}

module _ {R S : Type 0} (new_pcg : ℕ → ℕ → R) (sha256 : Text → Text) (persist : Persist S) where
  abbrev IsAtomicPair : Document → ℕ → Service R S → Answer × Service R S → Type 0
  IsAtomicPair d now s (a, s') = IsAtomic d now s a s'

  replace-IsAtomic :
      (current d : Document) (now : ℕ) (s : Service R S)
      → IsAtomicPair d now s (replace new_pcg sha256 persist current now d s)
  unfolding replace
  replace-IsAtomic current d now s =
      elim (Bool-cases (not (restart_compatible (some current) (some d)))) [
        | inl c ↦
            let e : replace new_pcg sha256 persist current now d s ≡ (refused restart_required, s) =
              ground (arith, c) in
            rw e (IsAtomic-refused d now s restart_required s.saved)
        | inr c ↦ elim (Bool-cases (equal (some current) (some d))) [
          | inl q ↦
              let e : replace new_pcg sha256 persist current now d s
                  ≡ save persist d (record { changed = false; info = s.active.info }) (λ t. t) s =
                ground (arith, c, q) in
              rw e (save-IsAtomic persist d now s _ (λ t. t) (λ saved. IsAtomic-same d now s saved))
          | inr q ↦ elim (Option-cases (new new_pcg sha256 (some d))) [
            | inl n ↦
                let e : replace new_pcg sha256 persist current now d s
                    ≡ (refused not_validated, s) =
                  ground (arith, c, q, n) in
                rw e (IsAtomic-refused d now s not_validated s.saved)
            | inr (engine, n) ↦
                let e : replace new_pcg sha256 persist current now d s
                    ≡ save persist d (record { changed = true; info = next_info now s.active.info })
                        (publish d engine (next_info now s.active.info)) s =
                  ground (arith, c, q, n) in
                rw e (
                  save-IsAtomic persist d now s _ _
                    (λ saved. IsAtomic-published d now s saved engine))
          ]
        ]
      ]

  -- Whatever `apply` answers to a document that is not nil, it is one of three: a refusal, or an answer without a change,
  -- and then the active snapshot and all revisions are as before; or a change, and then the document is published
  -- as the newest revision under the next numbers. The information in the answer is that of the active
  -- snapshot behind it.
  pub apply-IsAtomic :
      (d : Document) (expected : Option ℕ) (now : ℕ) (s : Service R S) {a : Answer}
      {s' : Service R S}
      → apply new_pcg sha256 persist (some d) expected now s ≡ some (a, s')
      → IsAtomic d now s a s'
  unfolding apply
  apply-IsAtomic d expected now s {a} {s'} h = elim (Bool-cases (not d.valid)) [
    | inl v ↦
        let e : (a, s') ≡ (refused not_validated, s) = ground (arith, v, h) in
        subst (λ x. IsAtomicPair d now s x) (sym e) (IsAtomic-refused d now s not_validated s.saved)
    | inr v ↦ elim (Bool-cases (conflicts expected s.active.info.revision)) [
      | inl c ↦
          let e : (a, s') ≡ (refused conflict, s) = ground (arith, v, c, h) in
          subst (λ x. IsAtomicPair d now s x) (sym e) (IsAtomic-refused d now s conflict s.saved)
      | inr c ↦ elim (Option-cases (revision_of s.active s)) [
        | inl n ↦ absurd (ground (arith, v, c, n, h))
        | inr (current, n) ↦
            let e : (a, s') ≡ replace new_pcg sha256 persist current.document now d s =
              ground (arith, v, c, n, h) in
            subst (λ x. IsAtomicPair d now s x) (sym e) (replace-IsAtomic current.document d now s)
      ]
    ]
  ]
