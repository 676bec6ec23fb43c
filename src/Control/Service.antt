-- ===== src/Control/Service.antt =====
-- internal/control/service.go: the published revision, its preconditions and its persistence. The engines of
-- the revisions are mutable and shared, so a snapshot points into a list of all revisions, oldest first. The
-- clock and the run's name are inputs; the engine's generator and hash, the parser, the loader and the
-- function that persists are parameters.
use mathlib.Core.Option
use faultline.Common.{
  ℕ, zero, suc, ◌+◌, ◌%◌, ◌^◌, Bool, true, false, not, Option, none, some, List, [], ◌∷◌, ◌++◌,
  Text, ◌==◌, nat_eq, length, if◌then◌else◌, bool_ne,
}
use faultline.Common.Float.{Float64}
use faultline.Config.Document.{Document, equal, restart_compatible}
use faultline.Engine.Match.{Metadata}
use faultline.Engine.State.{
  Engine, Decision, Outcome, decided, unknown_proxy, panicked, decide, new,
}

pub record Info : Type 0 where
  pub run_id : Text
  pub revision : ℕ
  pub enabled : Bool
  pub control_sequence : ℕ
  pub applied_at : ℕ
  pub state_changed_at : ℕ

pub record Revision (R : Type 0) : Type 0 where
  pub document : Document
  pub engine : Engine R

pub record Snapshot : Type 0 where
  pub info : Info
  pub revision : ℕ

-- `Result`, under a name that is not the validators' result.
pub record Applied : Type 0 where
  pub changed : Bool
  pub info : Info

pub data Refusal : Type 0 where
  not_validated conflict restart_required revision_required parse_failed : Refusal
  not_persisted : ℕ → Refusal

-- What an operation returns: a Go result, or the error.
pub data Answer : Type 0 where
  applied : Applied → Answer
  refused : Refusal → Answer

-- The service with the revisions that it or a snapshot points to, and what the persisting function writes.
-- `managed` says that there is such a function.
pub record Service (R S : Type 0) : Type 0 where
  pub active : Snapshot
  pub revisions : List (Revision R)
  pub managed : Bool
  pub saved : S

-- The function of the caller: an error or none, and what it leaves written.
abbrev pub Persist : Type 0 → Type 0
Persist S = Document → Applied → S → Option ℕ × S

abbrev pub increment : ℕ → ℕ
increment n = (n + 1) % 2 ^ 64

module _ {ℓ} {A : Type ℓ} where
  abbrev pub get_elem? : List A → ℕ → Option A
  get_elem? [] i = none
  get_elem? (x ∷ xs) zero = some x
  get_elem? (x ∷ xs) (suc i) = get_elem? xs i

  abbrev pub set_elem : List A → ℕ → A → List A
  set_elem [] i y = []
  set_elem (x ∷ xs) zero y = y ∷ xs
  set_elem (x ∷ xs) (suc i) y = x ∷ set_elem xs i y

-- `expected != nil && *expected != s.active.info.Revision`
abbrev pub conflicts : Option ℕ → ℕ → Bool
conflicts none revision = false
conflicts (some expected) revision = not (expected == revision)

-- `next`, with the time of the clock.
abbrev pub next_info : ℕ → Info → Info
next_info now info = record info {
  revision = increment info.revision;
  control_sequence = increment info.control_sequence;
  applied_at = now;
}

module _ {R S : Type 0} where
  unfoldable pub set_enabled : Bool → ℕ → Service R S → Applied × Service R S
  set_enabled enabled now s =
      let info = record s.active.info {
        enabled = enabled;
        control_sequence = increment s.active.info.control_sequence;
        state_changed_at = now;
      } in
      if not (bool_ne s.active.info.enabled enabled)
      then (record { changed = false; info = s.active.info }, s)
      else (
        record { changed = true; info = info },
        record s { active = record s.active { info = info } },
      )

  -- `s.active.revision = &revision{...}; s.active.info = next`
  unfoldable pub publish : Document → Engine R → Info → Service R S → Service R S
  publish d engine next s = record s {
    active = record { info = next; revision = length s.revisions };
    revisions = s.revisions ++ record { document = d; engine = engine } ∷ [];
  }

  -- The revision that a snapshot points to: `none` is a nil pointer.
  abbrev pub revision_of : Snapshot → Service R S → Option (Revision R)
  revision_of snapshot s = get_elem? s.revisions snapshot.revision

  abbrev pub acquire : Service R S → Snapshot
  acquire s = s.active

  -- What the service may do when the persisting function has answered.
  unfoldable pub persisted :
      Option ℕ × S → Applied → (Service R S → Service R S) → Service R S → Answer × Service R S
  persisted (some e, saved) result commit s =
      (refused (not_persisted e), record s { saved = saved })
  persisted (none, saved) result commit s = (applied result, commit (record s { saved = saved }))

  -- The service restored at a committed revision; the persisting function is there.
  abbrev pub managed_at : ℕ → Service R S → Service R S
  managed_at revision s = record s {
    active = record s.active { info = record s.active.info { revision = revision } };
    managed = true;
  }

module _ {R S : Type 0} (persist : Persist S) where
  -- `if s.persist != nil { ... }`, and behind it `commit`.
  unfoldable pub save :
      Document → Applied → (Service R S → Service R S) → Service R S → Answer × Service R S
  save d result commit s =
      if s.managed
      then persisted (persist d result s.saved) result commit s
      else (applied result, commit s)

module _ {R S : Type 0} (new_pcg : ℕ → ℕ → R) (sha256 : Text → Text) (persist : Persist S) where
  -- The tests of `apply` behind the lock, on the current revision's document.
  unfoldable pub replace : Document → ℕ → Document → Service R S → Answer × Service R S
  replace current now d s =
      if not (restart_compatible (some current) (some d))
      then (refused restart_required, s)
      else if equal (some current) (some d)
      then save persist d (record { changed = false; info = s.active.info }) (λ t. t) s
      else elim (new new_pcg sha256 (some d)) [
        | none ↦ (refused not_validated, s)
        | some engine ↦
            save persist d (record { changed = true; info = next_info now s.active.info })
              (publish d engine (next_info now s.active.info)) s
      ]

  -- `apply`; `none` is a panic on a nil revision.
  unfoldable pub apply :
      Option Document → Option ℕ → ℕ → Service R S → Option (Answer × Service R S)
  apply none expected now s = some (refused not_validated, s)
  apply (some d) expected now s =
      if not d.valid
      then some (refused not_validated, s)
      else if conflicts expected s.active.info.revision
      then some (refused conflict, s)
      else elim (revision_of s.active s) [
        | none ↦ none
        | some current ↦ some (replace current.document now d s)
      ]

  -- `Apply`
  unfoldable pub apply_unconditionally :
      Option Document → ℕ → Service R S → Option (Answer × Service R S)
  apply_unconditionally d now s =
      if s.managed then some (refused revision_required, s) else apply d none now s

  unfoldable pub apply_revision :
      Option Document → ℕ → ℕ → Service R S → Option (Answer × Service R S)
  apply_revision d expected now s = apply d (some expected) now s

  -- `Reload` and `ReloadFile` behind the parser or the loader, with what that returned.
  unfoldable pub reload : Option Document → ℕ → Service R S → Option (Answer × Service R S)
  reload none now s = some (refused parse_failed, s)
  reload (some d) now s = apply_unconditionally (some d) now s

module _ {R S : Type 0} (new_pcg : ℕ → ℕ → R) (sha256 : Text → Text) where
  -- `New` and `NewManaged`; `none` is the error.
  unfoldable pub new_service : Text → ℕ → Option Document → S → Option (Service R S)
  new_service run_id now none saved = none
  new_service run_id now (some d) saved = elim (new new_pcg sha256 (some d)) [
    | none ↦ none
    | some engine ↦ some (record {
      active = record {
        info = record {
          run_id = run_id;
          revision = 1;
          enabled = false;
          control_sequence = 0;
          applied_at = now;
          state_changed_at = now;
        };
        revision = 0;
      };
      revisions = record { document = d; engine = engine } ∷ [];
      managed = false;
      saved = saved;
    })
  ]

  unfoldable pub new_managed : Text → ℕ → Option Document → ℕ → S → Option (Service R S)
  new_managed run_id now d revision saved =
      if revision == 0
      then none
      else Option.map {B = Service R S} (managed_at revision) (new_service run_id now d saved)

module _ {R S : Type 0} (draw : R → Float64 × R) where
  -- `Snapshot.Decide` on the engine that the snapshot points to.
  unfoldable pub answered :
      Snapshot → Revision R → Service R S → Outcome R → Option (Option Decision × Service R S)
  answered snapshot revision s panicked = none
  answered snapshot revision s (unknown_proxy d) = some (none, s)
  answered snapshot revision s (decided e d) = some (
    some d,
    record s {
      revisions = set_elem s.revisions snapshot.revision (record revision { engine = e });
    },
  )

  unfoldable pub snapshot_decide :
      Snapshot → Text → Metadata → Service R S → Option (Option Decision × Service R S)
  snapshot_decide snapshot proxy_id metadata s = elim (revision_of snapshot s) [
    | none ↦ none
    | some revision ↦
        answered snapshot revision s
          (decide draw revision.engine proxy_id metadata snapshot.info.enabled)
  ]
