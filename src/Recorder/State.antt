-- ===== src/Recorder/State.antt =====
-- internal/recorder/recorder.go: `Record`, the writer goroutine and `Close`, as steps on one state. Each
-- step holds the recorder's lock, or is a channel operation of the one writer.
use faultline.Common.{
  ℕ, ◌+◌, ◌-◌, ◌%◌, ◌^◌, Bool, true, false, not, ◌&&◌, ◌||◌, Option, none, some, List, [], ◌∷◌,
  ◌++◌, String, Text, ◌==◌, string_eq, text_eq, is_nil, length, ltb, nat_eq, if◌then◌else◌,
}

-- Of an event, the fields that `Record` reads, and the rest as one text.
pub record Event : Type 0 where
  pub kind : String
  pub rule_id : Text
  pub selected : Bool
  pub applied : Bool
  pub outcome : Text
  pub rest : Text

pub record Counters : Type 0 where
  pub total : ℕ
  pub eligible : ℕ
  pub selected : ℕ
  pub applied : ℕ
  pub active : ℕ
  pub active_faults : ℕ
  pub dropped : ℕ
  pub write_errors : ℕ
  pub written : ℕ
  pub pending : ℕ

-- `sent` is the event that the writer has taken off the queue and not yet accounted for; `finished` says
-- that the writer has returned.
pub record Recorder : Type 0 where
  pub counts : Counters
  pub outcomes : List (Text × ℕ)
  pub queue : List Event
  pub capacity : ℕ
  pub sent : Option Event
  pub finished : Bool
  pub aborted : Bool
  pub closed : Bool

-- uint64 `x++` and `x--`
abbrev pub inc : ℕ → ℕ
inc n = (n + 1) % 2 ^ 64

abbrev pub dec : ℕ → ℕ
dec n = (n + (2 ^ 64 - 1)) % 2 ^ 64

abbrev pub zero_counters : Counters
zero_counters = record {
  total = 0;
  eligible = 0;
  selected = 0;
  applied = 0;
  active = 0;
  active_faults = 0;
  dropped = 0;
  write_errors = 0;
  written = 0;
  pending = 0;
}

unfoldable pub new : ℕ → Recorder
new capacity = record {
  counts = zero_counters;
  outcomes = [];
  queue = [];
  capacity = capacity;
  sent = none;
  finished = false;
  aborted = false;
  closed = false;
}

unfoldable pub has_outcome : Text → List (Text × ℕ) → Bool
has_outcome k [] = false
has_outcome k ((j, n) ∷ m) = j == k || has_outcome k m

-- `m[k]++`
unfoldable pub increment_outcome : Text → List (Text × ℕ) → List (Text × ℕ)
increment_outcome k [] = (k, 1) ∷ []
increment_outcome k ((j, n) ∷ m) = if j == k then (j, inc n) ∷ m else (j, n) ∷ increment_outcome k m

-- The outcomes after a finished flow: a 33rd kind is not added.
unfoldable pub count_outcome : Text → List (Text × ℕ) → List (Text × ℕ)
count_outcome k m = if has_outcome k m || ltb (length m) 32 then increment_outcome k m else m

-- The `switch` on the event's type.
unfoldable pub count_event : Event → Counters → Counters
count_event e c =
    if e.kind == "flow_started"
    then record c { total = inc c.total; active = inc c.active }
    else if e.kind == "decision"
    then record c {
      eligible = if is_nil e.rule_id then c.eligible else inc c.eligible;
      selected = if e.selected then inc c.selected else c.selected;
    }
    else if e.kind == "fault_applied"
    then record c { applied = inc c.applied; active_faults = inc c.active_faults }
    else if e.kind == "flow_finished"
    then record c {
      active = dec c.active;
      active_faults = if e.applied then dec c.active_faults else c.active_faults;
    }
    else c

-- The send on the channel, or the default case: a full or closed queue drops the event.
unfoldable pub enqueue : Event → Recorder → Recorder
enqueue e r =
    if not r.closed && ltb (length r.queue) r.capacity
    then record r {
      queue = r.queue ++ e ∷ [];
      counts = record r.counts { pending = inc r.counts.pending };
    }
    else record r { counts = record r.counts { dropped = inc r.counts.dropped } }

unfoldable pub record_event : Event → Recorder → Recorder
record_event e r =
    let outcomes =
      if e.kind == "flow_finished" then count_outcome e.outcome r.outcomes else r.outcomes in
    enqueue e (record r { counts = count_event e r.counts; outcomes = outcomes })

-- `for e := range r.queue`: the writer takes an event, sees that `abort` is closed and returns, or that
-- the queue is closed and empty and returns.
unfoldable pub take_event : Recorder → Recorder
take_event r = elim r.queue [
  | [] ↦ if r.closed then record r { finished = true } else r
  | e ∷ rest ↦
      if r.aborted
      then record r { queue = rest; finished = true }
      else record r { queue = rest; sent = some e }
]

-- Behind `Encode`, with its result.
unfoldable pub account : Bool → Counters → Counters
account failed c =
    let c' = record c { pending = dec c.pending } in
    if failed
    then record c' { dropped = inc c'.dropped; write_errors = inc c'.write_errors }
    else record c' { written = inc c'.written }

-- The writer's next step: `failed` is what the encoder would answer.
unfoldable pub write : Bool → Recorder → Recorder
unfolding account
write failed r = if r.finished then r else elim r.sent [
  | none ↦ take_event r
  | some e ↦ record r { sent = none; counts = account failed r.counts }
]

-- `Close` up to its wait, and its branch for a context that is done.
unfoldable pub close : Recorder → Recorder
close r = record r { closed = true }

unfoldable pub abort : Recorder → Recorder
abort r = record r { aborted = true }

-- What `Close` answers once the writer is done: an error if events are left.
unfoldable pub closed_cleanly : Recorder → Bool
closed_cleanly r = r.counts.pending == 0
