-- ===== src/Control/Admin/Audited.antt =====
-- Which requests of the admin socket change the service, and what they record.
use mathlib.Core.Option
use mathlib.Core.Path.{subst}
use faultline.Common.{
  ℕ, Bool, true, false, not, ◌&&◌, Option, none, some, String, Text, ◌==◌, string_eq, is_nil, ◌≡◌,
  ◌⊎◌, inl, inr, refl, arith, if-cases, Bool-cases, Option-cases, bool_ne,
}
use faultline.Config.Document.{Document, equal, restart_compatible}
use faultline.Control.Admin.{
  Request, ControlEvent, Reply, Server, control_event, show_status, status, operation_of, answer,
  perform, config_of, mutate, handle,
}
use faultline.Control.Service.{
  Revision, Applied, Answer, applied, refused, Service, Persist, increment, set_enabled, reload,
  apply_unconditionally, apply, replace, save, publish, next_info, revision_of,
}
use faultline.Engine.State.{new}
use faultline.Recorder.State.{record_event}

module _ {R S : Type 0} where
  -- The service is as it was, or the answer carries its new state, with the next control sequence.
  Moves : Service R S → Answer × Service R S → Type 0
  Moves s x =
      (x.1 ≡ s)
      ⊎ ((result : Applied) × (x.0 ≡ applied result)
          × (result.info ≡ x.1.active.info)
          × (x.1.active.info.control_sequence ≡ increment s.active.info.control_sequence))

  stays : (s : Service R S) (a : Answer) → Moves s (a, s)
  unfolding Moves
  stays s a = inl refl

  set_enabled-Moves :
      (enabled : Bool) (now : ℕ) (s : Service R S)
      → (let x = set_enabled enabled now s in Moves s (applied x.0, x.1))
  unfolding set_enabled Moves
  set_enabled-Moves enabled now s =
      elim (Bool-cases (not (bool_ne s.active.info.enabled enabled))) [
        | inl same ↦ inl (rw same refl)
        | inr differs ↦ inr (_, refl, rw differs refl, rw differs refl)
      ]

module _ {R S : Type 0} (new_pcg : ℕ → ℕ → R) (sha256 : Text → Text) (persist : Persist S) where
  save-Moves :
      (d : Document) (result : Applied) (commit : Service R S → Service R S) (s : Service R S)
      → s.managed ≡ false
      → Moves s (applied result, commit s)
      → Moves s (save persist d result commit s)
  unfolding save
  save-Moves d result commit s unmanaged m =
      if-cases (Moves s) s.managed _ _ (λ t. absurd (ground (arith, t, unmanaged))) (λ _. m)

  replace-Moves :
      (current : Document) (now : ℕ) (d : Document) (s : Service R S)
      → s.managed ≡ false
      → Moves s (replace new_pcg sha256 persist current now d s)
  unfolding replace publish
  replace-Moves current now d s unmanaged =
      if-cases (Moves s) (not (restart_compatible (some current) (some d))) _ _ (λ _. stays s _)
        (λ _.
          if-cases (Moves s) (equal (some current) (some d)) _ _
            (λ _. save-Moves d _ (λ t. t) s unmanaged (stays s _))
            (λ _. elim (Option-cases (new new_pcg sha256 (some d))) [
              | inl e ↦ rw e (stays s _)
              | inr (engine, e) ↦
                  let next = next_info now s.active.info in
                  rw e (
                    save-Moves d _ (publish d engine next) s unmanaged
                      (unfold Moves in (inr (_, refl, refl, refl))))
            ]))

  -- Of a result, which is there: the active revision is no nil pointer.
  AllMove : Service R S → Option (Answer × Service R S) → Type 0
  AllMove s none = ⊥
  AllMove s (some x) = Moves s x

  reload-AllMove :
      (current : Revision R) (d : Option Document) (now : ℕ) (s : Service R S)
      → revision_of s.active s ≡ some current
      → AllMove s (reload new_pcg sha256 persist d now s)
  unfolding reload apply_unconditionally apply AllMove
  reload-AllMove current none now s e = stays s _
  reload-AllMove current (some d) now s e =
      if-cases (AllMove s) s.managed _ _ (λ _. stays s _)
        (λ unmanaged.
          if-cases (AllMove s) (not d.valid) _ _ (λ _. stays s _)
            (λ _. rw e (replace-Moves current.document now d s unmanaged)))

-- A change of the service: the request is a POST without an origin whose context is live, to a server that is not
-- read-only; the control sequence is the next one, and one event is recorded, with the new state.
pub record Recorded {R S : Type 0} (encoded : ControlEvent → Text) (r : Request) (a : Server R S)
    (b : Server R S) : Type 0 where
  pub local : is_nil r.origin ≡ true
  pub post : (r.method == "POST") ≡ true
  pub writable : a.read_only ≡ false
  pub live : r.canceled ≡ false
  pub sequence :
      b.service.active.info.control_sequence ≡ increment a.service.active.info.control_sequence
  pub event : ControlEvent
  pub current : event.info ≡ b.service.active.info
  pub recorded : b.recorder ≡ record_event (control_event encoded event) a.recorder

abbrev pub Audited :
    {R S : Type 0} (encoded : ControlEvent → Text) → Request → Server R S → Server R S → Type 0
Audited encoded r a b = (b.service ≡ a.service) ⊎ Recorded encoded r a b

module _ {R S : Type 0} (encoded : ControlEvent → Text) (new_pcg : ℕ → ℕ → R) (sha256 : Text → Text)
    (persist : Persist S) (is_abs : Text → Bool) (load : Text → Option Document) (r : Request)
    (now : ℕ) (a : Server R S) (revision : Revision R)
    (active : revision_of a.service.active a.service ≡ some revision) where
  -- Of a result, which is there.
  Handled : Option (Reply × Server R S) → Type 0
  Handled none = ⊥
  Handled (some (reply, b)) = Audited encoded r a b

  unchanged : (reply : Reply) (b : Server R S) → b.service ≡ a.service → Handled (some (reply, b))
  unfolding Handled
  unchanged reply b e = inl e

  module _ (local : is_nil r.origin ≡ true) (post : (r.method == "POST") ≡ true)
      (writable : a.read_only ≡ false) (live : r.canceled ≡ false) where
    answer-Handled :
        (operation : String) (x : Answer × Service R S)
        → Moves a.service x
        → Handled (some (answer encoded operation a x))
    unfolding answer Handled Moves
    answer-Handled operation (refused e, service) (inl same) = inl same
    answer-Handled operation (refused e, service) (inr (result, q, _, _)) = cc
    answer-Handled operation (applied result, service) (inl same) = inl same
    answer-Handled operation (applied result, service) (inr (result', q, current, sequence)) =
        inr (record {
          local = local;
          post = post;
          writable = writable;
          live = live;
          sequence = sequence;
          event = record {
            info = result.info;
            operation = operation;
            changed = result.changed;
            outcome = "ok";
            error_kind = "";
          };
          current = ground (arith, q, current);
          recorded = refl;
        })

    reloaded-Handled :
        (operation : String) (o : Option (Answer × Service R S))
        → AllMove new_pcg sha256 persist a.service o
        → Handled (Option.map (answer encoded operation a) o)
    unfolding AllMove
    reloaded-Handled operation none m = absurd m
    reloaded-Handled operation (some x) m = answer-Handled operation x m

    perform-Handled :
        (operation : String) (config : Text)
        → Handled (perform encoded new_pcg sha256 persist is_abs load operation config now a)
    unfolding perform
    perform-Handled operation config =
        if-cases Handled (operation == "reload") _ _
          (λ _.
            reloaded-Handled operation _
              (reload-AllMove new_pcg sha256 persist revision (load config) now a.service active))
          (λ _.
            answer-Handled operation _ (set_enabled-Moves (operation == "enable") now a.service))

  show-Handled : Handled (show_status encoded a)
  unfolding show_status status
  show-Handled = rw (active, show_status, status) (unchanged _ _ refl)

  mutate-Handled :
      (operation : String)
      → is_nil r.origin ≡ true
      → (r.method == "POST") ≡ true
      → Handled (mutate encoded new_pcg sha256 persist is_abs load operation r now a)
  unfolding mutate
  mutate-Handled operation local post =
      if-cases Handled a.read_only _ _ (λ _. unchanged _ a refl)
        (λ writable.
          elim (Option-cases (config_of encoded new_pcg sha256 persist is_abs load operation r)) [
            | inl e ↦ rw e (unchanged _ a refl)
            | inr (config, e) ↦ rw e (
                if-cases Handled r.canceled _ _ (λ _. unchanged _ a refl)
                  (λ live. perform-Handled local post writable live operation config))
          ])

  handle-Handled : Handled (handle encoded new_pcg sha256 persist is_abs load r now a)
  unfolding handle
  handle-Handled =
      if-cases Handled (not (is_nil r.origin)) _ _ (λ _. unchanged _ a refl)
        (λ origin.
          if-cases Handled (r.path == "/status" && r.method == "GET") _ _ (λ _. show-Handled)
            (λ _. elim (Option-cases (operation_of r.path)) [
              | inl e ↦ rw e (unchanged _ a refl)
              | inr (operation, e) ↦ rw e (
                  if-cases Handled (not (r.method == "POST")) _ _ (λ _. unchanged _ a refl)
                    (λ post.
                      mutate-Handled operation (ground (arith, origin)) (ground (arith, post))))
            ]))

  handled :
      (o : Option (Reply × Server R S))
      → handle encoded new_pcg sha256 persist is_abs load r now a ≡ o
      → (reply : Reply) × (b : Server R S) × (handle encoded new_pcg sha256 persist is_abs load r
            now a
          ≡ some (reply, b))
        × Audited encoded r a b
  unfolding Handled
  handled none e = absurd (subst Handled e handle-Handled)
  handled (some (reply, b)) e = (reply, b, e, subst Handled e handle-Handled)

  -- Where the active revision of the service is there, the admin socket answers every request, and the request leaves
  -- the service as it was, or it is a POST without an origin whose context is live, to a server that is not
  -- read-only, it takes the next control sequence, and one event is recorded, with the new state of the service.
  pub handle-Audited :
      (reply : Reply) × (b : Server R S) × (handle encoded new_pcg sha256 persist is_abs load r now
          a
        ≡ some (reply, b))
      × Audited encoded r a b
  handle-Audited = handled _ refl
