-- ===== src/Tcp/Hold.antt =====
-- internal/proxy/tcp/server.go: a hold from its start to the bytes that its trigger counts.
use faultline.Common.{
  ℕ, ◌≤◌, ◌<◌, true, none, some, List, [], String, ◌==◌, nat_eq, string_eq, length, ◌≡◌, refl,
  arith, Bool-cases, inl, inr,
}
use faultline.Config.Model.{Fault}
use faultline.Common.Int.{pos}
use faultline.Tcp.Fault.{new_fault, start}
use faultline.Tcp.Pump.{Read, Pump, pump}
use faultline.Tcp.Trigger.{IsHeld, IsUndisturbed, pump-IsHeld}

-- A fault with this trigger, as validation lets it through.
pub record IsByteHold (direction : String) (k : ℕ) (f : Fault) : Type 0 where
  pub hold : (f.action == "hold") ≡ true
  pub own : (f.direction == direction) ≡ true
  pub counts : (f.trigger_direction == direction) ≡ true
  pub bytes : f.after_bytes ≡ some (pos k)
  pub no_timer : f.after_duration ≡ none

abbrev pub started : Fault → Pump
started f = record { state = start (new_fault f); count = 0; delivered = [] }

started-IsHeld :
    (direction : String) (k : ℕ) (f : Fault)
    → 0 < k
    → IsByteHold direction k f
    → IsHeld direction k (started f)
unfolding start
started-IsHeld direction k f some_bytes h =
    let waits : start (new_fault f) ≡ new_fault f =
      rw (h.no_timer, h.bytes) (ground (arith, some_bytes)) in
    rw waits (record {
      fits = record {
        hold = h.hold;
        own = h.own;
        trigger = rw h.bytes h.counts;
        once = refl;
        going = refl;
      };
      limit = rw h.bytes refl;
      counted = refl;
      before = λ off. some_bytes;
      bounded = omega arith;
    })

-- A hold that a positive number of bytes of its own direction triggers: from its start, whatever is read and
-- however much of each chunk is taken, the direction delivers at most that many bytes, and once it has delivered
-- them the hold is active. No other goroutine activates the fault meanwhile, since it has this one trigger.
pub pump_hold :
    (direction : String) (k : ℕ) (f : Fault) (reads : List Read)
    → 0 < k
    → IsByteHold direction k f
    → IsUndisturbed reads
    → (length (pump direction reads (started f)).delivered ≤ k)
      × (length (pump direction reads (started f)).delivered ≡ k
          → (pump direction reads (started f)).state.active ≡ true)
pump_hold direction k f reads some_bytes h u =
    let end =
      pump-IsHeld direction k reads (started f) u (started-IsHeld direction k f some_bytes h) in
    (
      omega (arith, end.bounded, end.counted),
      λ full. elim (Bool-cases (pump direction reads (started f)).state.active) [
        | inl on ↦ on
        | inr off ↦ absurd (omega (arith, end.before off, end.counted, full))
      ],
    )
