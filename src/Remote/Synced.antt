-- ===== src/Remote/Synced.antt =====
-- The state in memory, the state in the file and the revision of the service.
use faultline.Common.{
  ℕ, ◌-◌, ◌≤◌, Bool, true, false, Option, none, some, List, Text, ◌≡◌, ◌⊎◌, refl, sym, arith,
  length, length-drop, Bool-cases, Option-cases, inl, inr,
}
use mathlib.Core.Path.{subst}
use faultline.Common.Strings.{codes}
use faultline.Config.Model.{Config}
use faultline.Config.Document.{Document}
use faultline.Engine.State.{new}
use faultline.Control.Service.{Applied, increment}
use faultline.Remote.Store.{
  Store, State, Attempt, Audit, atomic_file, save, audit, append_audit, trim, persist,
  applied_state, attempted, after_write,
}

-- The file agrees with a revision, or is one ahead of it.
abbrev pub IsNear : ℕ → ℕ → Type 0
IsNear revision written = (written ≡ revision) ⊎ (written ≡ increment revision)

trim-le : (entries : List Audit) → length (trim entries) ≤ 1000
unfolding trim
trim-le entries = omega (arith, length-drop (length entries - 1000) entries)

append_audit-le :
    (st : State) (now : ℕ) (actor operation outcome : Text) (revision : ℕ)
    → length (append_audit st now actor operation outcome revision).audit ≤ 1000
unfolding append_audit
append_audit-le st now actor operation outcome revision = trim-le _

module _ {F : Type 0} where
  -- The state in memory has the revision. Unless the store is uncertain, the file holds that state; an
  -- uncertain store has a file with this revision or the next. The trail of audits is bounded.
  pub record IsStored (revision : ℕ) (s : Store F) : Type 0 where
    pub held : s.state.revision ≡ revision
    pub certain : s.poisoned ≡ false → s.file ≡ some s.state
    pub uncertain :
        s.poisoned ≡ true → (st : State) × (s.file ≡ some st) × IsNear revision st.revision
    pub bounded : length s.state.audit ≤ 1000

  -- A write that succeeds has the revision of what was written; one that fails keeps the old.
  abbrev pub Saved : ℕ → ℕ → Option ℕ × Store F → Type 0
  Saved old new (none, s) = IsStored new s
  Saved old new (some e, s) = IsStored old s

  after_write-Saved :
      (attempt : F → Attempt × F) (old : ℕ) (next : State) (w : Bool × Bool) (s : Store F)
      → IsStored old s
      → IsNear old next.revision
      → length next.audit ≤ 1000
      → s.poisoned ≡ false
      → Saved old next.revision (after_write attempt w next s)
  after_write-Saved attempt old next (true, true) s h near le q = record {
    held = h.held;
    certain = λ c. absurd cc;
    uncertain = λ u. (next, refl, near);
    bounded = h.bounded;
  }
  after_write-Saved attempt old next (false, true) s h near le q = record {
    held = h.held;
    certain = λ c. h.certain q;
    uncertain = λ u. absurd cc;
    bounded = h.bounded;
  }
  after_write-Saved attempt old next (renamed, false) s h near le q = record {
    held = refl;
    certain = λ c. refl;
    uncertain = λ u. absurd (ground (arith, q, u));
    bounded = le;
  }

  save-Saved :
      (attempt : F → Attempt × F) (old : ℕ) (next : State) (a : Attempt) (s : Store F)
      → IsStored old s
      → IsNear old next.revision
      → length next.audit ≤ 1000
      → Saved old next.revision (save attempt next a s)
  unfolding save
  save-Saved attempt old next a s h near le = elim (Bool-cases s.poisoned) [
    | inl q ↦
        let e : save attempt next a s ≡ (some 1, s) = ground (arith, q) in
        subst (Saved old next.revision) (sym e) h
    | inr q ↦ elim (Bool-cases a.marshal_fails) [
      | inl m ↦
          let e : save attempt next a s ≡ (some 2, s) = ground (arith, q, m) in
          subst (Saved old next.revision) (sym e) h
      | inr m ↦
          let e : save attempt next a s ≡ after_write attempt (atomic_file a) next s =
            ground (arith, q, m) in
          subst (Saved old next.revision) (sym e)
            (after_write-Saved attempt old next (atomic_file a) s h near le q)
    ]
  ]

  Saved-IsStored :
      (revision : ℕ) (r : Option ℕ × Store F) → Saved revision revision r → IsStored revision r.1
  Saved-IsStored revision (none, s) h = h
  Saved-IsStored revision (some e, s) h = h

  attempted-IsStored :
      (attempt : F → Attempt × F) (revision : ℕ) (s : Store F)
      → IsStored revision s
      → IsStored revision (attempted attempt s).1
  attempted-IsStored attempt revision s h = record {
    held = h.held;
    certain = h.certain;
    uncertain = h.uncertain;
    bounded = h.bounded;
  }

  pub audit-IsStored :
      (attempt : F → Attempt × F) (revision : ℕ) (actor operation outcome : Text) (n : ℕ)
      (s : Store F)
      → IsStored revision s
      → IsStored revision (audit attempt actor operation outcome n s).1
  unfolding audit append_audit
  audit-IsStored attempt revision actor operation outcome n s h =
      let (a, s') = attempted attempt s in
      let next = append_audit s'.state a.now actor operation outcome n in
      let saved : Saved revision next.revision (save attempt next a s') =
        save-Saved attempt revision next a s' (attempted-IsStored attempt revision s h) (inl h.held)
          (append_audit-le s'.state a.now actor operation outcome n) in
      Saved-IsStored revision (save attempt next a s')
        (subst (λ n. Saved revision n (save attempt next a s')) h.held saved)

  pub persist-Saved :
      (attempt : F → Attempt × F) (encode : Config → Option Text) (revision : ℕ) (actor : Text)
      (d : Document) (result : Applied) (s : Store F)
      → IsStored revision s
      → IsNear revision result.info.revision
      → Saved revision result.info.revision (persist attempt encode actor d result s)
  unfolding persist applied_state
  persist-Saved attempt encode revision actor d result s h near =
      elim (Option-cases (encode d.config)) [
        | inl failed ↦ rw (failed, persist) h
        | inr (encoded, made) ↦
            let (a, s') = attempted attempt s in
            let next = applied_state s'.state a.now actor encoded result in
            rw (made, persist)
              (save-Saved attempt revision next a s' (attempted-IsStored attempt revision s h) near
                (append_audit-le s'.state a.now actor (codes "apply") (codes "ok")
                  result.info.revision))
      ]
