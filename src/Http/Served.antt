-- ===== src/Http/Served.antt =====
-- What a request leaves of the slots, the recorder and the connection, on every path through the handler.
use mathlib.Core.Option
use mathlib.Core.Path.{subst, ◌∙◌}
use faultline.Common.{
  ℕ, ◌+◌, ◌≤◌, ◌<◌, ◌^◌, true, none, some, [], ◌∷◌, ◌==◌, string_eq, ◌≡◌, ◌⊎◌, refl, length,
  if◌then◌else◌,
}
use faultline.Grpc.Metadata.{Request}
use faultline.Http.Admitted.{Untold, Settles, dispatch-Settles}
use faultline.Http.Flow.{Endpoint, World, relayed, Handling, record_kind, record_now}
use faultline.Http.Handler.{Exit, returned, Served}
use faultline.Http.Kept.{Kept, IsQuiet}
use faultline.Http.Sound.{Decides}
use faultline.Http.Report.{event}
use faultline.Http.Serve.{finish, new_handling, serve}
use faultline.Http.Settled.{Settled}
use faultline.Recorder.State.{Recorder, inc}
use faultline.Recorder.Tally.{Counted, started-Counted, finished-Counted, faults_back, dec-inc}

-- A served request: at most one reply, and one or a disconnection where the handler returns; the slots are as they
-- were; the recorder counts one flow more, and no more running flows or active faults than before; a completed
-- outcome stands for an applied fault or for an upstream answer that was sent on.
pub record IsServed (recorder : Recorder) (slots : ℕ) (x : Exit × Handling) : Type 0 where
  pub one : length x.1.replies ≤ 1
  pub answered : x.0 ≡ returned → 1 ≤ length x.1.replies + (if x.1.disconnected then 1 else 0)
  pub slots_free : x.1.in_flight ≡ slots
  pub counted :
      Counted x.1.recorder
        (inc recorder.counts.total)
        recorder.counts.active
        recorder.counts.active_faults
  pub explained :
      x.0 ≡ returned
      → (x.1.report.outcome == "completed") ≡ true
      → (x.1.applied ≡ true) ⊎ ((status : ℕ) × (x.1.replies ≡ relayed status ∷ []))

Serves : Recorder → ℕ → Served → Type 0
Serves recorder slots none = ⊥
Serves recorder slots (some x) = IsServed recorder slots x

module _ (w : World) (h : Endpoint) (r : Request) (recording : h.recording ≡ true) where
  finish-IsServed :
      (recorder : Recorder) (slots : ℕ) (exit : Exit) (s : Handling)
      → recorder.counts.active < 2 ^ 64
      → recorder.counts.active_faults < 2 ^ 64
      → Settled
          (record {
            slots = slots;
            total = inc recorder.counts.total;
            active = inc recorder.counts.active;
            faults = recorder.counts.active_faults;
          })
          (exit, s)
      → IsServed recorder slots (finish w h r (exit, s))
  unfolding finish record_kind record_now event
  finish-IsServed recorder slots exit s m n d =
      let c = finished-Counted _ s.recorder d.kept.counted refl in
      rw recording (record {
        one = d.one;
        answered = d.answered;
        slots_free = d.kept.slots;
        counted = record {
          flows = c.flows;
          running = c.running ∙ dec-inc recorder.counts.active m;
          injected =
              c.injected
              ∙ faults_back s.report.applied s.applied recorder.counts.active_faults d.told n;
        };
        explained = d.explained;
      })

  finished-Serves :
      (recorder : Recorder) (slots : ℕ) (o : Served)
      → recorder.counts.active < 2 ^ 64
      → recorder.counts.active_faults < 2 ^ 64
      → Settles
          (record {
            slots = slots;
            total = inc recorder.counts.total;
            active = inc recorder.counts.active;
            faults = recorder.counts.active_faults;
          })
          o
      → Serves recorder slots (Option.map (finish w h r) o)
  unfolding Settles Serves
  finished-Serves recorder slots none m n d = d
  finished-Serves recorder slots (some (exit, s)) m n d =
      finish-IsServed recorder slots exit s m n d

  started-Kept :
      (recorder : Recorder) (slots : ℕ)
      → Kept
          (record {
            slots = slots;
            total = inc recorder.counts.total;
            active = inc recorder.counts.active;
            faults = recorder.counts.active_faults;
          })
          (record_kind w h r "flow_started" (new_handling w h r recorder slots))
  unfolding record_kind record_now new_handling event
  started-Kept recorder slots =
      let c : Counted recorder recorder.counts.total recorder.counts.active
          recorder.counts.active_faults =
        record { flows = refl; running = refl; injected = refl } in
      rw recording (record { slots = refl; counted = started-Counted _ recorder c refl })

  started-IsQuiet :
      (recorder : Recorder) (slots : ℕ)
      → IsQuiet (record_kind w h r "flow_started" (new_handling w h r recorder slots))
        × Untold (record_kind w h r "flow_started" (new_handling w h r recorder slots))
  unfolding record_kind record_now new_handling
  started-IsQuiet recorder slots = rw recording (
    record { open_flow = refl; connected = refl; unanswered = refl },
    record { unapplied = refl; unreported = refl },
  )

-- Whatever the request, the answers of the engine and of the upstream, and the end of the context.
served :
    (w : World) (h : Endpoint) (r : Request) (recorder : Recorder) (slots : ℕ)
    → h.recording ≡ true
    → Decides w
    → recorder.counts.active < 2 ^ 64
    → recorder.counts.active_faults < 2 ^ 64
    → Serves recorder slots (serve w h r recorder slots)
unfolding serve
served w h r recorder slots recording decides m n =
    let (q, u) = started-IsQuiet w h r recording recorder slots in
    finished-Serves w h r recording recorder slots _ m n (
      dispatch-Settles w h r recording decides _ _ (started-Kept w h r recording recorder slots) q
        u)

module _ (w : World) (h : Endpoint) (r : Request) (recorder : Recorder) (slots : ℕ)
    (recording : h.recording ≡ true) (decides : Decides w) (m : recorder.counts.active < 2 ^ 64)
    (n : recorder.counts.active_faults < 2 ^ 64) where
  serves :
      (o : Served)
      → serve w h r recorder slots ≡ o
      → (x : Exit × Handling) × (serve w h r recorder slots ≡ some x) × IsServed recorder slots x
  unfolding Serves
  serves none e =
      absurd (subst (Serves recorder slots) e (served w h r recorder slots recording decides m n))
  serves (some x) e =
      (x, e, subst (Serves recorder slots) e (served w h r recorder slots recording decides m n))

  -- Where the engine answers every request, with no fault or with the fault of a rule that validation has let through,
  -- over a recorder that counts fewer than 2^64 running flows and active faults: `ServeHTTP` comes to its end, with at
  -- most one reply, and where it returns with one reply at least or a connection that was closed or ended.
  pub serve_answers :
      (x : Exit × Handling) × (serve w h r recorder slots ≡ some x)
      × (length x.1.replies ≤ 1)
      × (x.0 ≡ returned → 1 ≤ length x.1.replies + (if x.1.disconnected then 1 else 0))
  serve_answers = let (x, e, s) = serves _ refl in (x, e, s.one, s.answered)

  -- Under the same conditions `ServeHTTP` comes to its end, also by a panic, with as many slots taken as before; and
  -- the recorder counts one flow more in total, and as many running flows and active faults as before.
  pub serve_restores :
      (x : Exit × Handling) × (serve w h r recorder slots ≡ some x)
      × (x.1.in_flight ≡ slots)
      × Counted x.1.recorder
          (inc recorder.counts.total)
          recorder.counts.active
          recorder.counts.active_faults
  serve_restores = let (x, e, s) = serves _ refl in (x, e, s.slots_free, s.counted)

  -- Under the same conditions `ServeHTTP` comes to its end, and where it returns with the outcome `completed`, a fault
  -- was applied or the client got one answer, sent on from the upstream.
  pub serve_explains :
      (x : Exit × Handling) × (serve w h r recorder slots ≡ some x)
      × (x.0 ≡ returned
          → (x.1.report.outcome == "completed") ≡ true
          → (x.1.applied ≡ true) ⊎ ((status : ℕ) × (x.1.replies ≡ relayed status ∷ [])))
  serve_explains = let (x, e, s) = serves _ refl in (x, e, s.explained)
