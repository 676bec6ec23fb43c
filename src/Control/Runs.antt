-- ===== src/Control/Runs.antt =====
-- internal/control/service.go: any sequence of the operations of one service and of its snapshots.

use mathlib.Core.Path.{subst}
use faultline.Common.{
  ℕ, ◌+◌, ◌<◌, ◌^◌, Bool, true, Option, none, some, Text, ◌≡◌, refl, sym, ap, arith, Bool-cases,
  inl, inr, nat_eq,
}
use faultline.Common.Float.{Float64}
use faultline.Config.Document.{Document}
use faultline.Engine.Match.{Metadata}
use faultline.Engine.State.{Decision}
use faultline.Control.Service.{
  Snapshot, Answer, refused, Refusal, revision_required, parse_failed, conflict, not_validated,
  Service, Persist, set_enabled, apply, apply_revision, apply_unconditionally, reload,
  snapshot_decide, conflicts,
}
use faultline.Control.Advance.{
  publishes, Advances, Advances-same, Advances-trans, set_enabled-Advances,
}
use faultline.Control.Apply.{apply-IsAtomic}
use faultline.Control.Snapshots.{snapshot_decide-Advances}

module _ {R S : Type 0} (draw : R → Float64 × R) (new_pcg : ℕ → ℕ → R) (sha256 : Text → Text)
    (persist : Persist S) where
  -- From `s`, operations in any order lead to `t` and publish `n` revisions. A snapshot may be old.
  pub data Reaches (s : Service R S) : ℕ → Service R S → Type 0 where
    start : Reaches s 0 s
    toggle :
        {n : ℕ} {t : Service R S} (enabled : Bool) (now : ℕ)
        → Reaches s n t
        → Reaches s n (set_enabled enabled now t).1
    replace_if :
        {n : ℕ} {t t' : Service R S} {a : Answer} (d : Option Document) (expected now : ℕ)
        → Reaches s n t
        → apply_revision new_pcg sha256 persist d expected now t ≡ some (a, t')
        → Reaches s (n + publishes a) t'
    replace_any :
        {n : ℕ} {t t' : Service R S} {a : Answer} (d : Option Document) (now : ℕ)
        → Reaches s n t
        → apply_unconditionally new_pcg sha256 persist d now t ≡ some (a, t')
        → Reaches s (n + publishes a) t'
    reread :
        {n : ℕ} {t t' : Service R S} {a : Answer} (d : Option Document) (now : ℕ)
        → Reaches s n t
        → reload new_pcg sha256 persist d now t ≡ some (a, t')
        → Reaches s (n + publishes a) t'
    request :
        {n : ℕ} {t t' : Service R S} {o : Option Decision} (snapshot : Snapshot) (proxy_id : Text)
        (metadata : Metadata)
        → Reaches s n t
        → snapshot_decide draw snapshot proxy_id metadata t ≡ some (o, t')
        → Reaches s n t'

  refused-Advances :
      (e : Refusal) (s : Service R S) {a : Answer} {t : Service R S}
      → ◌≡◌ {A = Answer × Service R S} (refused e, s) (a, t)
      → Advances (publishes a) s t
  refused-Advances e s h =
      subst (λ x. Advances (publishes x.0) s x.1) h (Advances-same s s refl refl refl refl refl)

  apply-Advances :
      (d : Option Document) (expected : Option ℕ) (now : ℕ) (s : Service R S) {a : Answer}
      {t : Service R S}
      → apply new_pcg sha256 persist d expected now s ≡ some (a, t)
      → Advances (publishes a) s t
  unfolding apply
  apply-Advances none expected now s {a} {t} h =
      refused-Advances not_validated s (ground (arith, h))
  apply-Advances (some d) expected now s h =
      (apply-IsAtomic new_pcg sha256 persist d expected now s h).advances

  apply_unconditionally-Advances :
      (d : Option Document) (now : ℕ) (s : Service R S) {a : Answer} {t : Service R S}
      → apply_unconditionally new_pcg sha256 persist d now s ≡ some (a, t)
      → Advances (publishes a) s t
  unfolding apply_unconditionally
  apply_unconditionally-Advances d now s {a} {t} h = elim (Bool-cases s.managed) [
    | inl m ↦ refused-Advances revision_required s (ground (arith, m, h))
    | inr m ↦ apply-Advances d none now s (ground (arith, m, h))
  ]

  reload-Advances :
      (d : Option Document) (now : ℕ) (s : Service R S) {a : Answer} {t : Service R S}
      → reload new_pcg sha256 persist d now s ≡ some (a, t)
      → Advances (publishes a) s t
  unfolding reload
  reload-Advances none now s {a} {t} h = refused-Advances parse_failed s (ground (arith, h))
  reload-Advances (some d) now s h = apply_unconditionally-Advances (some d) now s h

  apply_revision-Advances :
      (d : Option Document) (expected now : ℕ) (s : Service R S) {a : Answer} {t : Service R S}
      → apply_revision new_pcg sha256 persist d expected now s ≡ some (a, t)
      → Advances (publishes a) s t
  unfolding apply_revision
  apply_revision-Advances d expected now s h = apply-Advances d (some expected) now s h

  and_none : {n : ℕ} {s t u : Service R S} → Advances n s t → Advances 0 t u → Advances n s u
  and_none {n} {s} {u} x y =
      let e : n + 0 ≡ n = omega arith in subst (λ m. Advances m s u) e (Advances-trans x y)

  -- Whatever operations lead from one state to another, the documents of all revisions stay as they are, the `n`
  -- published ones stand behind them, the active revision is still the newest and has the number `n` higher
  -- while numbers do not wrap, and the run keeps its name.
  pub Reaches-Advances :
      {s : Service R S} {n : ℕ} {t : Service R S} → Reaches s n t → Advances n s t
  Reaches-Advances {s} start = Advances-same s s refl refl refl refl refl
  Reaches-Advances (toggle {t} enabled now r) =
      and_none (Reaches-Advances r) (set_enabled-Advances enabled now t)
  Reaches-Advances (replace_if {t} d expected now r h) =
      Advances-trans (Reaches-Advances r) (apply_revision-Advances d expected now t h)
  Reaches-Advances (replace_any {t} d now r h) =
      Advances-trans (Reaches-Advances r) (apply_unconditionally-Advances d now t h)
  Reaches-Advances (reread {t} d now r h) =
      Advances-trans (Reaches-Advances r) (reload-Advances d now t h)
  Reaches-Advances (request {t} snapshot proxy_id metadata r h) =
      and_none (Reaches-Advances r) (snapshot_decide-Advances draw snapshot proxy_id metadata t h)

  refused-publishes :
      (e : Refusal) (s : Service R S) {a : Answer} {t : Service R S}
      → ◌≡◌ {A = Answer × Service R S} (refused e, s) (a, t)
      → publishes a ≡ 0
  refused-publishes e s h = ap (λ x. publishes x.0) (sym h)

  conflict-refused :
      (d : Document) (expected now : ℕ) (s : Service R S)
      → d.valid ≡ true
      → conflicts (some expected) s.active.info.revision ≡ true
      → apply_revision new_pcg sha256 persist (some d) expected now s ≡ some (refused conflict, s)
  unfolding apply_revision apply
  conflict-refused d expected now s v c = ground (arith, v, c)

  expected-matches :
      (d : Document) (expected now : ℕ) (s : Service R S) {a : Answer} {t : Service R S}
      → apply_revision new_pcg sha256 persist (some d) expected now s ≡ some (a, t)
      → publishes a ≡ 1
      → s.active.info.revision ≡ expected
  unfolding apply_revision apply
  expected-matches d expected now s {a} {t} h p =
      elim (Bool-cases (conflicts (some expected) s.active.info.revision)) [
        | inl c ↦ elim (Bool-cases d.valid) [
          | inl v ↦ absurd (
              omega
                (arith, refused-publishes conflict s {a = a} {t = t} (ground (arith, v, c, h)), p))
          | inr v ↦ absurd (
              omega (
                arith,
                refused-publishes not_validated s {a = a} {t = t} (ground (arith, v, h)),
                p,
              ))
        ]
        | inr c ↦ ground (arith, c)
      ]

  -- If two calls of `ApplyRevision` expect the same revision and the first one publishes, then the second one, after
  -- any operations that publish `n` revisions, is refused as a conflict and changes nothing, while the numbers
  -- do not wrap.
  pub apply_revision_once :
      (d d' : Document) (expected now now' : ℕ) (s : Service R S) {n : ℕ} {t u : Service R S}
      {a : Answer}
      → d'.valid ≡ true
      → apply_revision new_pcg sha256 persist (some d) expected now s ≡ some (a, t)
      → publishes a ≡ 1
      → Reaches t n u
      → expected + 1 + n < 2 ^ 64
      → apply_revision new_pcg sha256 persist (some d') expected now' u ≡ some (refused conflict, u)
  apply_revision_once d d' expected now now' s {n} {t} {u} v h p r few =
      let here = expected-matches d expected now s h p in
      let first = apply_revision-Advances (some d) expected now s h in
      let behind = Reaches-Advances r in
      let grown : t.active.info.revision ≡ expected + 1 =
        omega (arith, here, p, few, first.revision) in
      let differs : u.active.info.revision ≡ expected + 1 + n =
        omega (arith, grown, few, behind.revision) in
      conflict-refused d' expected now' u v (ground (arith, differs))
