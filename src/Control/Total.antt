-- ===== src/Control/Total.antt =====
-- internal/control/service.go: `apply` never meets a nil revision.

use faultline.Common.{
  ℕ, zero, suc, ◌+◌, not, Option, none, some, List, [], ◌∷◌, Text, ◌≡◌, refl, nat_eq, arith, length,
  Bool-cases, Option-cases, inl, inr,
}
use faultline.Common.Float.{Float64}
use faultline.Config.Document.{Document}
use faultline.Engine.State.{new}
use faultline.Control.Service.{
  Service, Persist, Answer, apply, apply_revision, new_service, new_managed, get_elem?, conflicts,
  not_validated, conflict, refused, replace,
}
use faultline.Control.Advance.{IsNewest}
use faultline.Control.Runs.{Reaches, Reaches-Advances}

get_elem?-newest :
    {A : Type 0} (xs : List A) (i : ℕ) → i + 1 ≡ length xs → (x : A) × (get_elem? xs i ≡ some x)
get_elem?-newest [] i h = absurd (omega (arith, h))
get_elem?-newest (x ∷ xs) zero h = (x, refl)
get_elem?-newest (x ∷ xs) (suc i) h = get_elem?-newest xs i (omega (arith, h))

module _ {R S : Type 0} (new_pcg : ℕ → ℕ → R) (sha256 : Text → Text) where
  new_service-IsNewest :
      (run_id : Text) (now : ℕ) (d : Option Document) (saved : S) {s : Service R S}
      → new_service new_pcg sha256 run_id now d saved ≡ some s
      → IsNewest s
  unfolding new_service
  new_service-IsNewest run_id now none saved h = cc
  new_service-IsNewest run_id now (some d) saved {s} h =
      elim (Option-cases (new new_pcg sha256 (some d))) [
        | inl n ↦ absurd (ground (arith, n, h))
        | inr (engine, n) ↦ ground (arith, n, h)
      ]

  new_managed-IsNewest :
      (run_id : Text) (now : ℕ) (d : Option Document) (revision : ℕ) (saved : S) {s : Service R S}
      → new_managed new_pcg sha256 run_id now d revision saved ≡ some s
      → IsNewest s
  unfolding new_managed
  new_managed-IsNewest run_id now d revision saved {s} h =
      elim (Option-cases (new_service new_pcg sha256 run_id now d saved)) [
        | inl n ↦ absurd (ground (arith, n, h))
        | inr (t, n) ↦ ground (arith, n, h, new_service-IsNewest run_id now d saved n)
      ]

module _ {R S : Type 0} (draw : R → Float64 × R) (new_pcg : ℕ → ℕ → R) (sha256 : Text → Text)
    (persist : Persist S) where
  apply-returns :
      (d : Option Document) (expected : Option ℕ) (now : ℕ) (s : Service R S)
      → IsNewest s
      → (r : Answer × Service R S) × (apply new_pcg sha256 persist d expected now s ≡ some r)
  unfolding apply
  apply-returns none expected now s h = ((refused not_validated, s), refl)
  apply-returns (some d) expected now s h = elim (Bool-cases (not d.valid)) [
    | inl v ↦ ((refused not_validated, s), ground (arith, v))
    | inr v ↦ elim (Bool-cases (conflicts expected s.active.info.revision)) [
      | inl c ↦ ((refused conflict, s), ground (arith, v, c))
      | inr c ↦
          let (current, q) = get_elem?-newest s.revisions s.active.revision h in
          (replace new_pcg sha256 persist current.document now d s, ground (arith, v, c, q))
    ]
  ]

  -- From a service that `NewManaged` returned, after any operations of it and of its snapshots, `ApplyRevision`
  -- returns an answer on every document, valid or nil, and every expected revision.
  pub apply_revision-returns :
      (run_id : Text) (created : ℕ) (first : Option Document) (revision : ℕ) (saved : S)
      (s t : Service R S) (n : ℕ)
      → new_managed new_pcg sha256 run_id created first revision saved ≡ some s
      → Reaches draw new_pcg sha256 persist s n t
      → (d : Option Document) (expected now : ℕ)
      → (r : Answer × Service R S) × (apply_revision new_pcg sha256 persist d expected now t
          ≡ some r)
  unfolding apply_revision
  apply_revision-returns run_id created first revision saved s t n made r d expected now =
      let start = new_managed-IsNewest new_pcg sha256 run_id created first revision saved made in
      apply-returns d (some expected) now t
        ((Reaches-Advances draw new_pcg sha256 persist r).newest start)
