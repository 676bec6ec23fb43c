-- ===== src/Recorder/Writer.antt =====
-- internal/recorder/recorder.go: the writer's step keeps the accounts.
use faultline.Common.{
  Bool-cases, Option-cases, ◌⊎◌, inl, inr, ℕ, ◌+◌, ◌≤◌, Bool, true, false, none, some, List, [],
  ◌∷◌, length, ◌≡◌, refl, arith, if◌then◌else◌, string_eq,
}
use faultline.Recorder.State.{Event, Recorder, take_event, account, write}
use faultline.Recorder.Accounting.{IsAccounted}

pub queue_cases : (q : List Event) → (q ≡ []) ⊎ ((e : Event) × (rest : List Event) × (q ≡ e ∷ rest))
queue_cases [] = inl refl
queue_cases (e ∷ rest) = inr (e, rest, refl)

-- The writer returns with the queue closed and empty.
finish-IsAccounted :
    (n : ℕ) (r : Recorder)
    → r.finished ≡ false
    → r.sent ≡ none
    → r.queue ≡ []
    → r.closed ≡ true
    → IsAccounted n r
    → IsAccounted n (record r { finished = true })
finish-IsAccounted n r f s q c a = record {
  lost = a.lost;
  few = a.few;
  total = a.total;
  waiting = a.waiting;
  one_lost = a.one_lost;
  none_lost = λ g. ground (arith, g);
  abort_closed = a.abort_closed;
  errors = a.errors;
  bounded = a.bounded;
  kinds = a.kinds;
  at_end = λ _. (c, λ _. ground (arith, a.waiting, a.none_lost f, q, s));
}

-- The writer takes an event and returns, or keeps it to write it.
taken-IsAccounted :
    (n : ℕ) (e : Event) (rest : List Event) (r : Recorder)
    → r.finished ≡ false
    → r.sent ≡ none
    → r.queue ≡ e ∷ rest
    → IsAccounted n r
    → IsAccounted n (
        if r.aborted
        then record r { queue = rest; finished = true }
        else record r { queue = rest; sent = some e })
taken-IsAccounted n e rest r f s q a =
    let here : r.counts.pending ≡ length rest + 1 =
      ground (arith, a.waiting, a.none_lost f, q, s) in
    let shorter : length rest ≤ r.capacity = ground (arith, a.bounded, q) in
    elim (Bool-cases r.aborted) [
      | inl b ↦ rw b (record {
        lost = 1;
        few = a.few;
        total = a.total;
        waiting = ground (arith, here, s);
        one_lost = omega arith;
        none_lost = λ g. ground (arith, g);
        abort_closed = λ _. a.abort_closed b;
        errors = a.errors;
        bounded = shorter;
        kinds = a.kinds;
        at_end = λ _. (a.abort_closed b, λ g. ground (arith, g));
      })
      | inr b ↦ rw b (record {
        lost = 0;
        few = a.few;
        total = a.total;
        waiting = omega (arith, here);
        one_lost = omega arith;
        none_lost = λ _. refl;
        abort_closed = λ g. ground (arith, g);
        errors = a.errors;
        bounded = shorter;
        kinds = a.kinds;
        at_end = λ g. ground (arith, f, g);
      })
    ]

take_event-IsAccounted :
    (n : ℕ) (r : Recorder)
    → r.finished ≡ false
    → r.sent ≡ none
    → IsAccounted n r
    → IsAccounted n (take_event r)
unfolding take_event
take_event-IsAccounted n r f s a = elim (queue_cases r.queue) [
  | inl q ↦ elim (Bool-cases r.closed) [
    | inl c ↦
        let e : take_event r ≡ record r { finished = true } = ground (arith, q, c) in
        rw e (finish-IsAccounted n r f s q c a)
    | inr c ↦ let e : take_event r ≡ r = ground (arith, q, c) in rw e a
  ]
  | inr (e, rest, q) ↦
      let taken : take_event r ≡ (
          if r.aborted
          then record r { queue = rest; finished = true }
          else record r { queue = rest; sent = some e }) =
        ground (arith, q) in
      rw taken (taken-IsAccounted n e rest r f s q a)
]

-- The writer accounts for the event that it holds.
accounted :
    (n : ℕ) (failed : Bool) (e : Event) (r : Recorder)
    → r.finished ≡ false
    → r.sent ≡ some e
    → IsAccounted n r
    → IsAccounted n (record r { sent = none; counts = account failed r.counts })
unfolding account
accounted n failed e r f s a =
    let here : r.counts.pending ≡ length r.queue + 1 =
      ground (arith, a.waiting, a.none_lost f, s) in
    record {
      lost = 0;
      few = a.few;
      total = ground (arith, a.total, a.few, here);
      waiting = ground (arith, here, a.total, a.few);
      one_lost = omega arith;
      none_lost = λ _. refl;
      abort_closed = a.abort_closed;
      errors = ground (arith, a.errors, a.total, a.few, here);
      bounded = a.bounded;
      kinds = a.kinds;
      at_end = λ g. ground (arith, f, g);
    }

pub write-IsAccounted :
    (n : ℕ) (failed : Bool) (r : Recorder) → IsAccounted n r → IsAccounted n (write failed r)
unfolding write
write-IsAccounted n failed r a = elim (Bool-cases r.finished) [
  | inl f ↦ let e : write failed r ≡ r = ground (arith, f) in rw e a
  | inr f ↦ elim (Option-cases r.sent) [
    | inl s ↦
        let e : write failed r ≡ take_event r = ground (arith, f, s) in
        rw e (take_event-IsAccounted n r f s a)
    | inr (e, s) ↦
        let held : write failed r ≡ record r { sent = none; counts = account failed r.counts } =
          ground (arith, f, s) in
        rw held (accounted n failed e r f s a)
  ]
]
