-- ===== src/Tcp/Trigger.antt =====
-- internal/proxy/tcp/server.go: how much a direction delivers before its own byte count holds it.
use faultline.Common.{
  ℕ, ◌+◌, ◌≤◌, ◌<◌, Bool, true, false, not, ◌&&◌, ◌||◌, List, [], ◌∷◌, String, Text, ◌==◌, nat_eq,
  string_eq, min, length, length-append, length-take, take, drop, is_nil, leb, if◌then◌else◌, ◌≡◌,
  refl, arith, Bool-cases, inl, inr, All, sym, ◌∙◌,
}
use faultline.Tcp.Fault.{FaultState, activate, reached_bytes, blocked, pace, triggers, bytes_of}
use faultline.Tcp.Pump.{
  Write, Read, Pump, limited, chunk_size, interfere, deliver, Next, goes_on, returns, transfer,
  behind, pump,
}

-- A hold of the direction that its own byte count triggers, and a connection that is not over.
pub record IsHold (direction : String) (s : FaultState) : Type 0 where
  pub hold : (s.fault.action == "hold") ≡ true
  pub own : (s.fault.direction == direction) ≡ true
  pub trigger : triggers s direction ≡ true
  pub once : s.done ≡ s.active
  pub going : s.finished ≡ false

-- Before the fault is active fewer bytes than its count were delivered, and never more.
pub record IsHeld (direction : String) (k : ℕ) (p : Pump) : Type 0 where
  pub fits : IsHold direction p.state
  pub limit : bytes_of p.state.fault.after_bytes ≡ k
  pub counted : p.count ≡ length p.delivered
  pub before : p.state.active ≡ false → p.count < k
  pub bounded : p.count ≤ k

-- What activation leaves of a hold.
activated :
    (direction : String) (s : FaultState)
    → IsHold direction s
    → ((activate s).active ≡ true) × IsHold direction (activate s) × ((activate s).fault ≡ s.fault)
unfolding activate
activated direction s h = elim (Bool-cases s.done) [
  | inl d ↦ let e : activate s ≡ s = ground (arith, d) in rw e (ground (arith, d, h.once), h, refl)
  | inr d ↦
      let e : activate s ≡ record s {
        done = true;
        active = true;
        told = s.told + 1;
        closed = if s.fault.action == "close_connection" then s.closed + 1 else s.closed;
        hold_timer = s.fault.action == "hold" || s.hold_timer;
      } =
        ground (arith, d, h.going) in
      rw e (
        refl,
        record { hold = h.hold; own = h.own; trigger = h.trigger; once = refl; going = h.going },
        refl,
      )
]

interfere-IsHeld :
    (direction : String) (k : ℕ) (a : Bool) (p : Pump)
    → IsHeld direction k p
    → IsHeld direction k (interfere a p)
interfere-IsHeld direction k false p h = h
interfere-IsHeld direction k true p h =
    let (now, fits, same) = activated direction p.state h.fits in
    record {
      fits = fits;
      limit = rw same h.limit;
      counted = h.counted;
      before = λ q. ground (arith, now, q);
      bounded = h.bounded;
    }

-- What is written while the hold is not active stays within the count, and activates it exactly there.
deliver-IsHeld :
    (direction : String) (k : ℕ) (bytes : Text) (p : Pump)
    → IsHeld direction k p
    → p.count + length bytes ≤ k
    → IsHeld direction k (deliver direction bytes p)
unfolding deliver reached_bytes
deliver-IsHeld direction k [] p h room = h
deliver-IsHeld direction k (b ∷ bs) p h room =
    elim (Bool-cases (leb (bytes_of p.state.fault.after_bytes) (p.count + length (b ∷ bs)))) [
      | inl full ↦
          let (now, fits, same) = activated direction p.state h.fits in
          let e : reached_bytes direction (p.count + length (b ∷ bs)) p.state ≡ activate p.state =
            ground (arith, h.fits.trigger, full) in
          rw e (record {
            fits = fits;
            limit = rw same h.limit;
            counted = omega (arith, h.counted, length-append p.delivered (b ∷ bs));
            before = λ q. ground (arith, now, q);
            bounded = room;
          })
      | inr free ↦
          let e : reached_bytes direction (p.count + length (b ∷ bs)) p.state ≡ p.state =
            ground (arith, free) in
          rw e (record {
            fits = h.fits;
            limit = h.limit;
            counted = omega (arith, h.counted, length-append p.delivered (b ∷ bs));
            before = λ q. ground (arith, free, h.limit);
            bounded = room;
          })
    ]

chunk_size-fits :
    (direction : String) (k n : ℕ) (p : Pump)
    → IsHeld direction k p
    → p.state.active ≡ false
    → p.count + chunk_size p.state direction p.count n ≤ k
unfolding chunk_size limited
chunk_size-fits direction k n p h off = ground (arith, h.fits.trigger, h.limit, off, h.before off)

blocked-IsHold :
    (direction : String) (s : FaultState) → IsHold direction s → blocked s direction ≡ s.active
unfolding blocked
blocked-IsHold direction s h = ground (arith, h.hold, h.own)

-- Nobody else activates the fault: its one trigger is the count of this direction.
abbrev pub IsAlone : List Write → Type 0
IsAlone = All (λ w. w.activated ≡ false)

transfer-IsHeld :
    (direction : String) (k : ℕ) (writes : List Write) (payload : Text) (p : Pump)
    → IsAlone writes
    → IsHeld direction k p
    → p.state.active ≡ false
    → IsHeld direction k (transfer direction writes payload p).1
unfolding transfer
transfer-IsHeld direction k [] [] p alone h off = h
transfer-IsHeld direction k (w ∷ writes) [] p alone h off = h
transfer-IsHeld direction k [] (b ∷ bs) p alone h off = h
transfer-IsHeld direction k (w ∷ writes) (b ∷ bs) p (alone, alone') h off =
    let n = chunk_size p.state direction p.count (length (b ∷ bs)) in
    let written = take (min w.room n) (b ∷ bs) in
    let fits : p.count + length written ≤ k = omega (
      arith,
      chunk_size-fits direction k (length (b ∷ bs)) p h off,
      length-take (min w.room n) (b ∷ bs),
    ) in
    let sent = deliver direction written p in
    let held : IsHeld direction k sent = deliver-IsHeld direction k written p h fits in
    rw alone (elim (Bool-cases (not (pace p.state direction w.waited))) [
      | inl stuck ↦ rw stuck h
      | inr fine ↦ elim (Bool-cases (w.failed || is_nil written)) [
        | inl failed ↦ rw fine (rw failed held)
        | inr full ↦ elim (Bool-cases (blocked sent.state direction)) [
          | inl hold ↦ rw fine (rw full (rw hold held))
          | inr free ↦
              let still : sent.state.active ≡ false =
                sym (blocked-IsHold direction sent.state held.fits) ∙ free in
              rw fine (
                rw full (
                  rw free (
                    transfer-IsHeld direction k writes (drop (min w.room n) (b ∷ bs)) sent alone'
                      held still)))
        ]
      ]
    ])

abbrev pub IsUndisturbed : List Read → Type 0
IsUndisturbed =
    All (λ r. (r.activated_before ≡ false) × (r.activated_behind ≡ false) × IsAlone r.writes)

behind-IsHeld :
    (direction : String) (k : ℕ) (r : Read) (o : Next × Pump) (rest : Pump → Pump)
    → IsHeld direction k o.1
    → ((p : Pump) → IsHeld direction k p → IsHeld direction k (rest p))
    → IsHeld direction k (behind r o rest)
unfolding behind
behind-IsHeld direction k r (returns, p) rest h f = h
behind-IsHeld direction k r (goes_on, p) rest h f = elim (Bool-cases (r.failed || r.canceled)) [
  | inl over ↦ rw over h
  | inr more ↦ rw more (f p h)
]

pub pump-IsHeld :
    (direction : String) (k : ℕ) (reads : List Read) (p : Pump)
    → IsUndisturbed reads
    → IsHeld direction k p
    → IsHeld direction k (pump direction reads p)
unfolding pump behind
pump-IsHeld direction k [] p u h = h
pump-IsHeld direction k (r ∷ reads) p ((before, later, alone), u) h =
    rw (before, later)
      (elim (Bool-cases (blocked p.state direction)) [
        | inl hold ↦ rw hold h
        | inr free ↦
            let off : p.state.active ≡ false =
              sym (blocked-IsHold direction p.state h.fits) ∙ free in
            elim (Bool-cases (not (is_nil r.bytes) && false)) [
              | inl x ↦ absurd (ground (arith, x))
              | inr x ↦ rw free (
                  rw x (
                    behind-IsHeld direction k r (transfer direction r.writes r.bytes p)
                      (pump direction reads)
                      (transfer-IsHeld direction k r.writes r.bytes p alone h off)
                      (λ q hq. pump-IsHeld direction k reads q u hq)))
            ]
      ])
