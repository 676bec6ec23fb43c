-- ===== src/Control/Advance.antt =====
-- What one operation does to the revisions of the service.

use mathlib.Core.List.{append-nil, append_assoc}
use faultline.Common.{
  ℕ, ◌+◌, ◌<◌, ◌^◌, Bool, true, false, not, Option, none, some, List, [], ◌∷◌, ◌++◌, map, ◌≡◌, refl,
  sym, ap, ◌∙◌, arith, length, length-append, if◌then◌else◌, Bool-cases, bool_ne, inl, inr,
}
use faultline.Config.Document.{Document}
use faultline.Engine.State.{Engine}
use faultline.Control.Service.{
  Info, Revision, Applied, Answer, applied, refused, Refusal, not_persisted, Service, Persist,
  set_enabled, publish, next_info, persisted, save,
}

-- The revisions that an answer says were published.
abbrev pub publishes : Answer → ℕ
publishes (applied r) = if r.changed then 1 else 0
publishes (refused e) = 0

abbrev info_of : Info → Answer → Info
info_of other (applied r) = r.info
info_of other (refused e) = other

module _ {R : Type 0} where
  abbrev pub documents : List (Revision R) → List Document
  documents = map (λ r. r.document)

  documents-append :
      (rs : List (Revision R)) (r : Revision R)
      → documents (rs ++ r ∷ []) ≡ documents rs ++ r.document ∷ []
  documents-append [] r = refl
  documents-append (x ∷ rs) r = ap (◌∷◌ x.document) (documents-append rs r)

module _ {R S : Type 0} where
  -- The active revision is the newest one.
  abbrev pub IsNewest : Service R S → Type 0
  IsNewest s = s.active.revision + 1 ≡ length s.revisions

  -- From `s` to `t`, `n` revisions were published: their documents stand behind those that were there, and
  -- the active revision's number has grown by as many.
  pub record Advances (n : ℕ) (s t : Service R S) : Type 0 where
    pub published : List Document
    pub count : length published ≡ n
    pub grows : documents t.revisions ≡ documents s.revisions ++ published
    pub revision :
        s.active.info.revision + n < 2 ^ 64 → t.active.info.revision ≡ s.active.info.revision + n
    pub newest : IsNewest s → IsNewest t
    pub run_id : t.active.info.run_id ≡ s.active.info.run_id

  pub Advances-same :
      (s t : Service R S)
      → documents t.revisions ≡ documents s.revisions
      → length t.revisions ≡ length s.revisions
      → t.active.revision ≡ s.active.revision
      → t.active.info.revision ≡ s.active.info.revision
      → t.active.info.run_id ≡ s.active.info.run_id
      → Advances 0 s t
  Advances-same s t d l p v r = record {
    published = [];
    count = refl;
    grows = d ∙ sym (append-nil (documents s.revisions));
    revision = λ few. omega (arith, v);
    newest = λ h. omega (arith, h, l, p);
    run_id = r;
  }

  pub Advances-trans :
      {m n : ℕ} {s t u : Service R S} → Advances m s t → Advances n t u → Advances (m + n) s u
  Advances-trans {m} {n} {s} {t} {u} x y = record {
    published = x.published ++ y.published;
    count = omega (arith, length-append x.published y.published, x.count, y.count);
    grows =
        y.grows
        ∙ (ap (λ ds. ds ++ y.published) x.grows
            ∙ append_assoc (documents s.revisions) x.published y.published);
    revision = λ few. omega (arith, x.revision, y.revision, few);
    newest = λ h. y.newest (x.newest h);
    run_id = y.run_id ∙ x.run_id;
  }

  pub set_enabled-Advances :
      (enabled : Bool) (now : ℕ) (s : Service R S) → Advances 0 s (set_enabled enabled now s).1
  unfolding set_enabled
  set_enabled-Advances enabled now s =
      elim (Bool-cases (not (bool_ne s.active.info.enabled enabled))) [
        | inl e ↦ rw e (Advances-same s s refl refl refl refl refl)
        | inr e ↦ rw e (Advances-same s _ refl refl refl refl refl)
      ]

  pub publish-Advances :
      (saved : S) (d : Document) (now : ℕ) (s : Service R S) (engine : Engine R)
      → Advances 1 s (publish d engine (next_info now s.active.info) (record s { saved = saved }))
  unfolding publish
  publish-Advances saved d now s engine = record {
    published = d ∷ [];
    count = refl;
    grows = documents-append s.revisions _;
    revision = λ few. ground (arith, few);
    newest = λ h.
        omega (arith, length-append s.revisions (record { document = d; engine = engine } ∷ []));
    run_id = refl;
  }

module _ {R S : Type 0} where
  -- What an answer says, and what it leaves: a refusal leaves the active snapshot and the revisions, and an
  -- answer returns the active information that it leaves.
  pub record IsAtomic (d : Document) (now : ℕ) (s : Service R S) (a : Answer) (s' : Service R S)
      : Type 0 where
    pub advances : Advances (publishes a) s s'
    pub refusal : publishes a ≡ 0 → (s'.active ≡ s.active) × (s'.revisions ≡ s.revisions)
    pub next :
        publishes a ≡ 1
        → (s'.active.info ≡ next_info now s.active.info)
          × (documents s'.revisions ≡ documents s.revisions ++ d ∷ [])
    pub report : (r : Applied) → a ≡ applied r → r.info ≡ s'.active.info
    pub kept : s'.managed ≡ s.managed

  pub IsAtomic-refused :
      (d : Document) (now : ℕ) (s : Service R S) (e : Refusal) (saved : S)
      → IsAtomic d now s (refused e) (record s { saved = saved })
  IsAtomic-refused d now s e saved = record {
    advances = Advances-same s _ refl refl refl refl refl;
    refusal = λ h. (refl, refl);
    next = λ h. absurd (omega (arith, h));
    report = λ r h. cc;
    kept = refl;
  }

  pub IsAtomic-same :
      (d : Document) (now : ℕ) (s : Service R S) (saved : S)
      → IsAtomic d now s
          (applied (record { changed = false; info = s.active.info }))
          (record s { saved = saved })
  IsAtomic-same d now s saved = record {
    advances = Advances-same s _ refl refl refl refl refl;
    refusal = λ h. (refl, refl);
    next = λ h. absurd (omega (arith, h));
    report = λ r h. ap (info_of s.active.info) (sym h);
    kept = refl;
  }

  pub IsAtomic-published :
      (d : Document) (now : ℕ) (s : Service R S) (saved : S) (engine : Engine R)
      → IsAtomic d now s
          (applied (record { changed = true; info = next_info now s.active.info }))
          (publish d engine (next_info now s.active.info) (record s { saved = saved }))
  unfolding publish
  IsAtomic-published d now s saved engine = record {
    advances = publish-Advances saved d now s engine;
    refusal = λ h. absurd (omega (arith, h));
    next = λ h. (refl, documents-append s.revisions _);
    report = λ r h. ap (info_of s.active.info) (sym h);
    kept = refl;
  }

  persisted-IsAtomic :
      (d : Document) (now : ℕ) (s : Service R S) (o : Option ℕ × S) (r : Applied)
      (commit : Service R S → Service R S)
      → ((saved : S) → IsAtomic d now s (applied r) (commit (record s { saved = saved })))
      → IsAtomic d now s (persisted o r commit s).0 (persisted o r commit s).1
  unfolding persisted
  persisted-IsAtomic d now s (some e, saved) r commit h =
      IsAtomic-refused d now s (not_persisted e) saved
  persisted-IsAtomic d now s (none, saved) r commit h = h saved

  pub save-IsAtomic :
      (persist : Persist S) (d : Document) (now : ℕ) (s : Service R S) (r : Applied)
      (commit : Service R S → Service R S)
      → ((saved : S) → IsAtomic d now s (applied r) (commit (record s { saved = saved })))
      → IsAtomic d now s (save persist d r commit s).0 (save persist d r commit s).1
  unfolding save
  save-IsAtomic persist d now s r commit h = elim (Bool-cases s.managed) [
    | inl m ↦
        let e : save persist d r commit s ≡ persisted (persist d r s.saved) r commit s =
          ground (arith, m) in
        rw e (persisted-IsAtomic d now s (persist d r s.saved) r commit h)
    | inr m ↦
        let e : save persist d r commit s ≡ (applied r, commit s) = ground (arith, m) in
        rw e (h s.saved)
  ]
