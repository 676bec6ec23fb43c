-- ===== src/Recorder/Accounting.antt =====
-- Every recorded event is written, dropped or still pending, and the queue keeps its bound.
use faultline.Common.{
  Text, not, ◌&&◌, ltb, Bool-cases, inl, inr, ◌∙◌, ℕ, ◌+◌, ◌≤◌, ◌<◌, ◌^◌, Bool, true, false, Option,
  none, some, List, [], ◌∷◌, length, length-append, ◌≡◌, refl, arith, if◌then◌else◌, string_eq,
}
use faultline.Recorder.State.{
  has_outcome, increment_outcome, Event, Counters, Recorder, count_event, count_outcome, enqueue,
  record_event, write, close, abort,
}

-- The steps of the recorder's goroutines, in any order: a call of `Record`, the writer's next step, and
-- `Close` up to its wait, or through its branch for a context that is done.
pub data Step : Type 0 where
  recorded : Event → Step
  writer : Bool → Step
  close_called : Step
  close_given_up : Step

abbrev pub step : Step → Recorder → Recorder
step (recorded e) r = record_event e r
step (writer failed) r = write failed r
step close_called r = close r
step close_given_up r = abort (close r)

-- The calls of `Record` that a step makes.
abbrev pub records : Step → ℕ
records (recorded e) = 1
records (writer failed) = 0
records close_called = 0
records close_given_up = 0

abbrev pub in_hand : Option Event → ℕ
in_hand none = 0
in_hand (some e) = 1

-- After `n` calls of `Record`, fewer than 2^64: where the events are, the queue's bound and the bound on
-- the kinds of outcomes.
pub record IsAccounted (n : ℕ) (r : Recorder) : Type 0 where
  pub lost : ℕ
  pub few : n < 2 ^ 64
  pub total : r.counts.written + r.counts.dropped + r.counts.pending ≡ n
  pub waiting : r.counts.pending ≡ length r.queue + in_hand r.sent + lost
  pub one_lost : lost ≤ 1
  pub none_lost : r.finished ≡ false → lost ≡ 0
  pub abort_closed : r.aborted ≡ true → r.closed ≡ true
  pub errors : r.counts.write_errors ≤ r.counts.dropped
  pub bounded : length r.queue ≤ r.capacity
  pub kinds : length r.outcomes ≤ 32
  pub at_end : r.finished ≡ true → (r.closed ≡ true) × (r.aborted ≡ false → r.counts.pending ≡ 0)

length-increment_outcome :
    (k : Text) (m : List (Text × ℕ))
    → length (increment_outcome k m) ≡ (if has_outcome k m then length m else length m + 1)
unfolding increment_outcome has_outcome
length-increment_outcome k [] = refl
length-increment_outcome k ((j, n) ∷ m) = ground (arith, length-increment_outcome k m)

length-count_outcome :
    (k : Text) (m : List (Text × ℕ)) → length m ≤ 32 → length (count_outcome k m) ≤ 32
unfolding count_outcome
length-count_outcome k m h = ground (arith, length-increment_outcome k m)

-- The event's type touches none of the counters of the queue.
abbrev SameQueue : Counters → Counters → Type 0
SameQueue c c' =
    (c'.written ≡ c.written)
    × (c'.dropped ≡ c.dropped)
    × (c'.pending ≡ c.pending)
    × (c'.write_errors ≡ c.write_errors)

count_event-SameQueue : (e : Event) (c : Counters) → SameQueue c (count_event e c)
unfolding count_event
count_event-SameQueue e c = ground arith

enqueue-IsAccounted :
    (n : ℕ) (e : Event) (r : Recorder)
    → n + 1 < 2 ^ 64
    → IsAccounted n r
    → IsAccounted (n + 1) (enqueue e r)
unfolding enqueue
enqueue-IsAccounted n e r few a =
    elim (Bool-cases (not r.closed && ltb (length r.queue) r.capacity)) [
      | inl room ↦ rw room (record {
        lost = a.lost;
        few = few;
        total = omega (arith, a.total, a.few);
        waiting = omega (arith, a.waiting, a.total, length-append r.queue (e ∷ []));
        one_lost = a.one_lost;
        none_lost = a.none_lost;
        abort_closed = a.abort_closed;
        errors = a.errors;
        bounded = ground (arith, a.bounded, length-append r.queue (e ∷ []));
        kinds = a.kinds;
        at_end = λ f. ground (arith, a.at_end f);
      })
      | inr full ↦ rw full (record {
        lost = a.lost;
        few = few;
        total = omega (arith, a.total, a.few);
        waiting = a.waiting;
        one_lost = a.one_lost;
        none_lost = a.none_lost;
        abort_closed = a.abort_closed;
        errors = omega (arith, a.errors, a.total);
        bounded = a.bounded;
        kinds = a.kinds;
        at_end = a.at_end;
      })
    ]

pub record_event-IsAccounted :
    (n : ℕ) (e : Event) (r : Recorder)
    → n + 1 < 2 ^ 64
    → IsAccounted n r
    → IsAccounted (n + 1) (record_event e r)
unfolding record_event
record_event-IsAccounted n e r few a =
    let (w, d, p, x) = count_event-SameQueue e r.counts in
    enqueue-IsAccounted n e _ few (record {
      lost = a.lost;
      few = a.few;
      total = omega (arith, w, d, p, a.total);
      waiting = omega (arith, p, a.waiting);
      one_lost = a.one_lost;
      none_lost = a.none_lost;
      abort_closed = a.abort_closed;
      errors = omega (arith, x, d, a.errors);
      bounded = a.bounded;
      kinds = ground (arith, length-count_outcome e.outcome r.outcomes a.kinds, a.kinds);
      at_end = λ f. ((a.at_end f).0, λ q. p ∙ (a.at_end f).1 q);
    })
