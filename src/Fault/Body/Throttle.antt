-- ===== src/Fault/Body/Throttle.antt =====
-- How much a throttled body delivers.
use faultline.Common.{ℕ, ◌+◌, ◌*◌, ◌≤◌, false, some, Text, ◌==◌, string_eq, nat_eq, length, ◌≡◌}
use faultline.Common.Int.{pos}
use faultline.Config.Model.{Fault}
use faultline.Fault.Body.{Reader, Body, chunk_of}

module _ {S : Type 0} (rate : ℕ) where
  -- At most `n` bytes, and the observer is told once for each delivery at most.
  pub record Paces (n : ℕ) (b : Body S) (d : Text) (b' : Body S) : Type 0 where
    pub bounded : length d ≤ n * chunk_of rate
    pub told : b'.applied ≤ b.applied + n
    pub same : b'.action ≡ b.action

module _ {S : Type 0} (reader : Reader S) (rate : ℕ) where
  abbrev IsThrottle : Fault → Type 0
  IsThrottle f = ((f.action == "truncate") ≡ false) × (f.bytes_per_second ≡ some (pos rate))
