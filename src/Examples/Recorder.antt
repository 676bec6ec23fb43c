-- ===== src/Examples/Recorder.antt =====
-- A queue of one event: one event is written, one dropped.
use faultline.Common.{◌+◌, ◌≤◌, true, false, List, [], ◌∷◌, ◌≡◌, refl, arith}
use faultline.Common.Strings.{codes}
use faultline.Recorder.State.{
  Event, Recorder, new, closed_cleanly, record_event, write, close, take_event, enqueue,
}
use faultline.Recorder.Accounting.{Step, recorded, writer, close_called, IsAccounted}
use faultline.Recorder.Drain.{left, drain, drain-finishes}
use faultline.Recorder.Runs.{run, new-run-IsAccounted, run-closed_cleanly}

abbrev started : Event
started = record {
  kind = "flow_started";
  rule_id = [];
  selected = false;
  applied = false;
  outcome = [];
  rest = [];
}

abbrev finished : Event
finished = record started { kind = "flow_finished"; outcome = codes "completed" }

abbrev steps : List Step
steps =
    recorded started
    ∷ recorded finished
    ∷ writer false
    ∷ writer false
    ∷ close_called
    ∷ writer false
    ∷ []

new-run-IsAccounted_example : IsAccounted 2 (run steps (new 1))
new-run-IsAccounted_example = new-run-IsAccounted 1 steps (omega arith)

steps_finish : (run steps (new 1)).finished ≡ true
unfolding record_event enqueue write close take_event new
steps_finish = refl

steps_keep : (run steps (new 1)).aborted ≡ false
unfolding record_event enqueue write close take_event new
steps_keep = refl

run-closed_cleanly_example :
    (closed_cleanly (run steps (new 1)) ≡ true)
    × ((run steps (new 1)).counts.written + (run steps (new 1)).counts.dropped ≡ 2)
run-closed_cleanly_example = run-closed_cleanly 1 steps (omega arith) steps_finish steps_keep

abbrev waiting : Recorder
waiting = run (recorded started ∷ recorded finished ∷ close_called ∷ []) (new 4)

waiting_closed : waiting.closed ≡ true
unfolding close
waiting_closed = refl

waiting_left : left waiting ≤ 5
unfolding record_event enqueue close new
waiting_left = omega arith

drain-finishes_example : (drain (false ∷ true ∷ true ∷ false ∷ false ∷ []) waiting).finished ≡ true
drain-finishes_example =
    drain-finishes (false ∷ true ∷ true ∷ false ∷ false ∷ []) waiting waiting_closed waiting_left
