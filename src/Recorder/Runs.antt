-- ===== src/Recorder/Runs.antt =====
-- internal/recorder/recorder.go: what holds of the counters, the queue and the outcomes behind any sequence of
-- the steps of `Record`, the writer and `Close`.
use faultline.Common.{ℕ, ◌+◌, ◌<◌, ◌^◌, true, false, List, [], ◌∷◌, ◌≡◌, refl, arith, string_eq}
use faultline.Recorder.State.{closed_cleanly, Recorder, close, abort, new}
use faultline.Recorder.Accounting.{
  Step, recorded, writer, close_called, close_given_up, step, records, IsAccounted,
  record_event-IsAccounted,
}
use faultline.Recorder.Writer.{write-IsAccounted}

close-IsAccounted : (n : ℕ) (r : Recorder) → IsAccounted n r → IsAccounted n (close r)
unfolding close
close-IsAccounted n r a = record {
  lost = a.lost;
  few = a.few;
  total = a.total;
  waiting = a.waiting;
  one_lost = a.one_lost;
  none_lost = a.none_lost;
  abort_closed = λ _. refl;
  errors = a.errors;
  bounded = a.bounded;
  kinds = a.kinds;
  at_end = λ f. (refl, (a.at_end f).1);
}

abort-IsAccounted :
    (n : ℕ) (r : Recorder) → r.closed ≡ true → IsAccounted n r → IsAccounted n (abort r)
unfolding abort
abort-IsAccounted n r c a = record {
  lost = a.lost;
  few = a.few;
  total = a.total;
  waiting = a.waiting;
  one_lost = a.one_lost;
  none_lost = a.none_lost;
  abort_closed = λ _. c;
  errors = a.errors;
  bounded = a.bounded;
  kinds = a.kinds;
  at_end = λ f. ((a.at_end f).0, λ q. ground (arith, q));
}

step-IsAccounted :
    (n : ℕ) (t : Step) (r : Recorder)
    → n + records t < 2 ^ 64
    → IsAccounted n r
    → IsAccounted (n + records t) (step t r)
unfolding close
step-IsAccounted n (recorded e) r few a = record_event-IsAccounted n e r few a
step-IsAccounted n (writer failed) r few a =
    let same : n + 0 ≡ n = omega arith in rw same (write-IsAccounted n failed r a)
step-IsAccounted n close_called r few a =
    let same : n + 0 ≡ n = omega arith in rw same (close-IsAccounted n r a)
step-IsAccounted n close_given_up r few a =
    let same : n + 0 ≡ n = omega arith in
    rw same (abort-IsAccounted n (close r) refl (close-IsAccounted n r a))

new-IsAccounted : (capacity : ℕ) → IsAccounted 0 (new capacity)
unfolding new
new-IsAccounted capacity = record {
  lost = 0;
  few = omega arith;
  total = refl;
  waiting = refl;
  one_lost = omega arith;
  none_lost = λ _. refl;
  abort_closed = λ g. ground (arith, g);
  errors = omega arith;
  bounded = omega arith;
  kinds = omega arith;
  at_end = λ g. ground (arith, g);
}

abbrev pub recordings : List Step → ℕ
recordings [] = 0
recordings (t ∷ ts) = records t + recordings ts

abbrev pub run : List Step → Recorder → Recorder
run [] r = r
run (t ∷ ts) r = run ts (step t r)

run-IsAccounted :
    (n : ℕ) (ts : List Step) (r : Recorder)
    → n + recordings ts < 2 ^ 64
    → IsAccounted n r
    → IsAccounted (n + recordings ts) (run ts r)
run-IsAccounted n [] r few a = let same : n + 0 ≡ n = omega arith in rw same a
run-IsAccounted n (t ∷ ts) r few a =
    let same : n + (records t + recordings ts) ≡ n + records t + recordings ts = omega arith in
    let now = step-IsAccounted n t r (omega (arith, few)) a in
    rw same (run-IsAccounted (n + records t) ts (step t r) (omega (arith, few)) now)

-- From a new recorder, after steps of `Record`, the writer and `Close` in any order with fewer than 2^64 calls of
-- `Record`: written, dropped and pending events add up to the calls; the pending ones are in the queue, in the
-- writer's hand, or one that was lost at an abort; no more write errors than drops; the queue is within its
-- capacity; at most 32 kinds of outcomes; and a writer that has returned was closed and, unless aborted, leaves
-- nothing pending.
pub new-run-IsAccounted :
    (capacity : ℕ) (ts : List Step)
    → recordings ts < 2 ^ 64
    → IsAccounted (recordings ts) (run ts (new capacity))
new-run-IsAccounted capacity ts few =
    let same : recordings ts ≡ 0 + recordings ts = omega arith in
    rw same (run-IsAccounted 0 ts (new capacity) (omega (arith, few)) (new-IsAccounted capacity))

-- From a new recorder, after fewer than 2^64 calls of `Record` and any steps of the writer and of `Close`: if the
-- writer has returned and `Close` was not given up, then `Close` reports no unflushed events and every recorded
-- event was written or counted as dropped.
pub run-closed_cleanly :
    (capacity : ℕ) (ts : List Step)
    → recordings ts < 2 ^ 64
    → (run ts (new capacity)).finished ≡ true
    → (run ts (new capacity)).aborted ≡ false
    → (closed_cleanly (run ts (new capacity)) ≡ true)
      × ((run ts (new capacity)).counts.written + (run ts (new capacity)).counts.dropped
          ≡ recordings ts)
unfolding closed_cleanly
run-closed_cleanly capacity ts few f g =
    let a = new-run-IsAccounted capacity ts few in
    let none_left = (a.at_end f).1 g in
    (ground (arith, none_left), omega (arith, a.total, none_left))
