-- ===== src/Control/Snapshots.antt =====
-- internal/control/service.go: a decision through a snapshot changes no revision's document.

use mathlib.Core.Path.{subst}
use faultline.Common.{
  ℕ, zero, suc, Option, some, List, [], ◌∷◌, Text, ◌≡◌, refl, ap, arith, length, Option-cases, inl,
  inr, nat_eq,
}
use faultline.Common.Float.{Float64}
use faultline.Engine.Match.{Metadata}
use faultline.Engine.State.{Engine, Decision, Outcome, decided, unknown_proxy, panicked, decide}
use faultline.Control.Service.{
  Revision, Snapshot, Service, revision_of, snapshot_decide, answered, get_elem?, set_elem,
}
use faultline.Control.Advance.{documents, Advances, Advances-same}

module _ {R : Type 0} where
  documents-set_elem :
      (rs : List (Revision R)) (i : ℕ) (r : Revision R) (e : Engine R)
      → get_elem? rs i ≡ some r
      → documents (set_elem rs i (record r { engine = e })) ≡ documents rs
  documents-set_elem [] i r e h = cc
  documents-set_elem (x ∷ rs) zero r e h = ground (arith, h)
  documents-set_elem (x ∷ rs) (suc i) r e h = ap (◌∷◌ x.document) (documents-set_elem rs i r e h)

  length-set_elem :
      (rs : List (Revision R)) (i : ℕ) (r : Revision R) → length (set_elem rs i r) ≡ length rs
  length-set_elem [] i r = refl
  length-set_elem (x ∷ rs) zero r = refl
  length-set_elem (x ∷ rs) (suc i) r = ap suc (length-set_elem rs i r)

module _ {R S : Type 0} (draw : R → Float64 × R) where
  answered-Advances :
      (snapshot : Snapshot) (r : Revision R) (s : Service R S) (out : Outcome R)
      {o : Option Decision} {t : Service R S}
      → get_elem? s.revisions snapshot.revision ≡ some r
      → answered draw snapshot r s out ≡ some (o, t)
      → Advances 0 s t
  unfolding answered
  answered-Advances snapshot r s panicked q h = cc
  answered-Advances snapshot r s (unknown_proxy d) {t} q h =
      let e : s ≡ t = ground (arith, h) in
      subst (λ x. Advances 0 s x) e (Advances-same s s refl refl refl refl refl)
  answered-Advances snapshot r s (decided e d) {t} q h =
      let u : Service R S = record s {
        revisions = set_elem s.revisions snapshot.revision (record r { engine = e });
      } in
      let same : u ≡ t = ground (arith, h) in
      subst (λ x. Advances 0 s x) same
        (Advances-same s u (documents-set_elem s.revisions snapshot.revision r e q)
          (length-set_elem s.revisions snapshot.revision (record r { engine = e })) refl refl refl)

  pub snapshot_decide-Advances :
      (snapshot : Snapshot) (proxy_id : Text) (metadata : Metadata) (s : Service R S)
      {o : Option Decision} {t : Service R S}
      → snapshot_decide draw snapshot proxy_id metadata s ≡ some (o, t)
      → Advances 0 s t
  unfolding snapshot_decide
  snapshot_decide-Advances snapshot proxy_id metadata s {o} {t} h =
      elim (Option-cases (revision_of snapshot s)) [
        | inl n ↦ absurd (ground (arith, n, h))
        | inr (r, n) ↦
            answered-Advances snapshot r s
              (decide draw r.engine proxy_id metadata snapshot.info.enabled) {o = o} {t = t} n
              (ground (arith, n, h))
      ]
