-- ===== src/Remote/Durable.antt =====
-- Every request leaves the file, the state in memory and the service in agreement.
use mathlib.Core.Path.{subst}
use faultline.Common.{
  ℕ, Bool, true, false, not, Option, none, some, Text, nat_eq, ◌≡◌, refl, sym, arith, Bool-cases,
  bool_ne, Option-cases, inl, inr,
}
use faultline.Config.Model.{Config}
use faultline.Config.Document.{Document, equal, restart_compatible}
use faultline.Engine.State.{new}
use faultline.Control.Service.{
  Service, Answer, Applied, refused, not_validated, apply_revision, apply, replace, conflicts,
  publish, next_info, persisted, save, set_enabled, revision_of, Persist,
}
use faultline.Remote.Store.{Store, Attempt, persist}
use faultline.Remote.Accounts.{User}
use faultline.Remote.Server.{Server, Request, Response}
use faultline.Remote.Handler.{serve}
use faultline.Remote.Leaves.{Leaves-some}
use faultline.Remote.Kept.{IsKept}
use faultline.Remote.Requests.{serve-kept}
use faultline.Remote.Synced.{IsStored, Saved, persist-Saved, audit-IsStored}

module _ {R F : Type 0} where
  -- The service persists, and what it has persisted agrees with its active revision.
  pub record IsSynced (s : Service R (Store F)) : Type 0 where
    pub managed : s.managed ≡ true
    pub stored : IsStored s.active.info.revision s.saved

  -- The server of the pair.
  SyncedPair : Answer × Service R (Store F) → Type 0
  SyncedPair (a, s) = IsSynced s

  persisted-IsSynced :
      (w : Option ℕ × Store F) (result : Applied)
      (commit : Service R (Store F) → Service R (Store F)) (s : Service R (Store F))
      → IsSynced s
      → Saved s.active.info.revision result.info.revision w
      → ((saved : Store F)
          → IsStored result.info.revision saved
          → IsSynced (commit (record s { saved = saved })))
      → SyncedPair (persisted w result commit s)
  unfolding persisted SyncedPair
  persisted-IsSynced (some e, saved) result commit s h w committed = record {
    managed = h.managed;
    stored = w;
  }
  persisted-IsSynced (none, saved) result commit s h w committed = committed saved w

  module _ (persist_as : Persist (Store F)) where
    save-IsSynced :
        (d : Document) (result : Applied) (commit : Service R (Store F) → Service R (Store F))
        (s : Service R (Store F))
        → IsSynced s
        → Saved s.active.info.revision result.info.revision (persist_as d result s.saved)
        → ((saved : Store F)
            → IsStored result.info.revision saved
            → IsSynced (commit (record s { saved = saved })))
        → SyncedPair (save persist_as d result commit s)
    unfolding save
    save-IsSynced d result commit s h w committed =
        let e : save persist_as d result commit s
            ≡ persisted (persist_as d result s.saved) result commit s =
          ground (arith, h.managed) in
        subst SyncedPair (sym e)
          (persisted-IsSynced (persist_as d result s.saved) result commit s h w committed)

  module _ (new_pcg : ℕ → ℕ → R) (sha256 : Text → Text) (attempt : F → Attempt × F)
      (encode : Config → Option Text) (actor : Text) where
    replace-IsSynced :
        (current d : Document) (now : ℕ) (s : Service R (Store F))
        → IsSynced s
        → SyncedPair (replace new_pcg sha256 (persist attempt encode actor) current now d s)
    unfolding replace publish SyncedPair
    replace-IsSynced current d now s h =
        let as_actor = persist attempt encode actor in
        let next = next_info now s.active.info in
        elim (Bool-cases (not (restart_compatible (some current) (some d)))) [
          | inl c ↦ rw (c, replace) h
          | inr c ↦ elim (Bool-cases (equal (some current) (some d))) [
            | inl q ↦
                let e : replace new_pcg sha256 as_actor current now d s
                    ≡ save as_actor d (record { changed = false; info = s.active.info }) (λ t. t)
                        s =
                  ground (arith, c, q) in
                subst SyncedPair (sym e) (
                  save-IsSynced as_actor d _ (λ t. t) s h
                    (persist-Saved attempt encode s.active.info.revision actor d _ s.saved h.stored
                      (inl refl))
                    (λ saved stored. record { managed = h.managed; stored = stored }))
            | inr q ↦ elim (Option-cases (new new_pcg sha256 (some d))) [
              | inl n ↦
                  let e : replace new_pcg sha256 as_actor current now d s
                      ≡ (refused not_validated, s) =
                    ground (arith, c, q, n) in
                  subst SyncedPair (sym e) h
              | inr (engine, n) ↦
                  let e : replace new_pcg sha256 as_actor current now d s
                      ≡ save as_actor d (record { changed = true; info = next })
                          (publish d engine next) s =
                    ground (arith, c, q, n) in
                  subst SyncedPair (sym e) (
                    save-IsSynced as_actor d _ (publish d engine next) s h
                      (persist-Saved attempt encode s.active.info.revision actor d _ s.saved
                        h.stored (inr refl))
                      (λ saved stored. record { managed = h.managed; stored = stored }))
            ]
          ]
        ]

    apply_revision-IsSynced :
        (d : Option Document) (expected now : ℕ) (s : Service R (Store F)) (a : Answer)
        (s' : Service R (Store F))
        → apply_revision new_pcg sha256 (persist attempt encode actor) d expected now s
          ≡ some (a, s')
        → IsSynced s
        → IsSynced s'
    unfolding apply_revision apply SyncedPair
    apply_revision-IsSynced none expected now s a s' q h =
        let e : s' ≡ s = ground (arith, q) in subst IsSynced (sym e) h
    apply_revision-IsSynced (some d) expected now s a s' q h = elim (Bool-cases (not d.valid)) [
      | inl v ↦ let e : s' ≡ s = ground (arith, v, q) in subst IsSynced (sym e) h
      | inr v ↦ elim (Bool-cases (conflicts (some expected) s.active.info.revision)) [
        | inl c ↦ let e : s' ≡ s = ground (arith, v, c, q) in subst IsSynced (sym e) h
        | inr c ↦ elim (Option-cases (revision_of s.active s)) [
          | inl n ↦ absurd (ground (arith, v, c, n, q))
          | inr (current, n) ↦
              let e : (a, s')
                  ≡ replace new_pcg sha256 (persist attempt encode actor) current.document now d s =
                ground (arith, v, c, n, q) in
              subst SyncedPair (sym e) (replace-IsSynced current.document d now s h)
        ]
      ]
    ]

  set_enabled-IsSynced :
      (on : Bool) (now : ℕ) (s : Service R (Store F))
      → IsSynced s
      → IsSynced (set_enabled on now s).1
  unfolding set_enabled
  set_enabled-IsSynced on now s h = elim (Bool-cases (not (bool_ne s.active.info.enabled on))) [
    | inl q ↦ let e : (set_enabled on now s).1 ≡ s = ground (arith, q) in subst IsSynced (sym e) h
    | inr q ↦ record {
      managed = ground (arith, q, h.managed);
      stored = rw (q, set_enabled) h.stored;
    }
  ]

  module _ (new_pcg : ℕ → ℕ → R) (sha256 : Text → Text) (attempt : F → Attempt × F)
      (encode : Config → Option Text) where
    IsSynced-IsKept : IsKept attempt new_pcg sha256 encode (λ s. IsSynced s.service)
    IsSynced-IsKept = record {
      audits = λ s actor op outcome h. record {
        managed = h.managed;
        stored = audit-IsStored attempt _ actor _ outcome _ s.service.saved h.stored;
      };
      fails = λ s b h. h;
      records_event = λ s op outcome h. h;
      drops = λ s sessions le h. h;
      joins = λ s sessions le h. h;
      counts = λ s window count few h. h;
      switches = λ s on now h. set_enabled-IsSynced on now s.service h;
      applies = λ s actor d expected now a service q h.
          apply_revision-IsSynced new_pcg sha256 attempt encode actor d expected now s.service a
            service q h;
    }

    -- Every request leaves a managed service in agreement with its store: the state in memory has the active
    -- revision, the file holds that state unless a write was uncertain, and then it holds a state with the
    -- active revision or the next; and the trail has at most 1000 entries.
    pub serve-IsSynced :
        (parse : Text → Option Document) (verify : User → Text → Bool) (r : Request)
        (s : Server R F) {response : Response} {t : Server R F}
        → IsSynced s.service
        → serve new_pcg sha256 attempt encode parse verify r s ≡ some (response, t)
        → IsSynced t.service
    serve-IsSynced parse verify r s h q =
        Leaves-some (λ s. IsSynced s.service)
          (serve-kept attempt new_pcg sha256 encode (λ s. IsSynced s.service) IsSynced-IsKept parse
            verify r s h)
          q
