-- ===== src/Tcp/Fault.antt =====
-- internal/proxy/tcp/server.go: `faultState`. Each method holds the lock or reads one atomic flag, and so is one
-- step; the two timers fire as steps of their own. Durations are not counted.
use faultline.Common.{
  ℕ, ◌+◌, Bool, true, false, not, ◌&&◌, ◌||◌, Option, none, some, String, ◌==◌, nat_eq, string_eq,
  leb, if◌then◌else◌,
}
use faultline.Common.Int.{ℤ, pos_part}
use faultline.Config.Model.{Fault}

-- `done` is the state of the `sync.Once`; `closed` and `told` count the calls of `closeBoth` and `onApply`.
pub record FaultState : Type 0 where
  pub fault : Fault
  pub active : Bool
  pub finished : Bool
  pub done : Bool
  pub closed : ℕ
  pub told : ℕ
  pub timer : Bool
  pub hold_timer : Bool

abbrev pub new_fault : Fault → FaultState
new_fault f = record {
  fault = f;
  active = false;
  finished = false;
  done = false;
  closed = 0;
  told = 0;
  timer = false;
  hold_timer = false;
}

unfoldable pub activate : FaultState → FaultState
activate s = if s.done then s else if s.finished then record s { done = true } else record s {
  done = true;
  active = true;
  told = s.told + 1;
  closed = if s.fault.action == "close_connection" then s.closed + 1 else s.closed;
  hold_timer = s.fault.action == "hold" || s.hold_timer;
}

abbrev pub is_set {ℓ} : {A : Type ℓ} → Option A → Bool
is_set none = false
is_set (some a) = true

-- The byte count of the trigger, which validation keeps from being negative.
abbrev pub bytes_of : Option ℤ → ℕ
bytes_of none = 0
bytes_of (some z) = pos_part z

unfoldable pub start : FaultState → FaultState
start s =
    if is_set s.fault.after_duration
    then record s { timer = true }
    else if bytes_of s.fault.after_bytes == 0
    then activate s
    else s

-- A timer that has fired already still calls its function, so only `finished` is sure.
unfoldable pub stop : FaultState → FaultState
stop s = record s { finished = true }

unfoldable pub timer_fires : FaultState → FaultState
timer_fires s = if s.timer then activate s else s

unfoldable pub hold_timer_fires : FaultState → FaultState
hold_timer_fires s = if s.hold_timer then record s { closed = s.closed + 1 } else s

-- `f.f.AfterBytes != nil && f.f.TriggerDirection == direction`
abbrev pub triggers : FaultState → String → Bool
triggers s direction = is_set s.fault.after_bytes && s.fault.trigger_direction == direction

unfoldable pub reached_bytes : String → ℕ → FaultState → FaultState
reached_bytes direction count s =
    if triggers s direction && leb (bytes_of s.fault.after_bytes) count then activate s else s

unfoldable pub blocked : FaultState → String → Bool
blocked s direction = s.active && s.fault.action == "hold" && s.fault.direction == direction

-- `pace`, where `waited` says that its timer is first.
unfoldable pub pace : FaultState → String → Bool → Bool
pace s direction waited =
    if not s.active || not (s.fault.action == "throttle") || not (s.fault.direction == direction)
    then true
    else waited
