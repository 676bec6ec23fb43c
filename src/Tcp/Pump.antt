-- ===== src/Tcp/Pump.antt =====
-- internal/proxy/tcp/server.go: `pump` with a fault. What the source delivers, what the destination takes of each
-- chunk and what the other goroutines do meanwhile are lists; the loop ends with them.
use faultline.Common.{
  ℕ, ◌+◌, ◌-◌, Bool, not, ◌&&◌, ◌||◌, List, [], ◌∷◌, ◌++◌, String, Text, ◌==◌, nat_eq, string_eq,
  min, length, take, drop, is_nil, ltb, if◌then◌else◌,
}
use faultline.Tcp.Fault.{FaultState, activate, reached_bytes, blocked, pace, triggers, bytes_of}

-- One write: whether the fault was activated elsewhere before it, whether `pace` waits to its end, how many
-- bytes the destination takes at most, and whether it fails.
pub record Write : Type 0 where
  pub activated : Bool
  pub waited : Bool
  pub room : ℕ
  pub failed : Bool

-- One read, with the writes behind it.
pub record Read : Type 0 where
  pub bytes : Text
  pub failed : Bool
  pub canceled : Bool
  pub activated_before : Bool
  pub activated_behind : Bool
  pub writes : List Write

pub record Pump : Type 0 where
  pub state : FaultState
  pub count : ℕ
  pub delivered : Text

-- The bytes of the next chunk, of `n` that are left.
unfoldable pub limited : FaultState → String → ℕ → ℕ → ℕ
limited s direction count n =
    if triggers s direction && not s.active && ltb 0 (bytes_of s.fault.after_bytes - count)
    then min n (bytes_of s.fault.after_bytes - count)
    else n

unfoldable pub chunk_size : FaultState → String → ℕ → ℕ → ℕ
chunk_size s direction count n =
    if s.fault.action == "throttle"
    then min (limited s direction count n) 1024
    else limited s direction count n

abbrev pub interfere : Bool → Pump → Pump
interfere activated p = if activated then record p { state = activate p.state } else p

-- `dst.Write(chunk)` and what follows if bytes were written.
unfoldable pub deliver : String → Text → Pump → Pump
deliver direction [] p = p
deliver direction (b ∷ bs) p = record {
  state = reached_bytes direction (p.count + length (b ∷ bs)) p.state;
  count = p.count + length (b ∷ bs);
  delivered = p.delivered ++ (b ∷ bs);
}

-- How the loop over a payload goes on: `returns` is a return of `pump`.
pub data Next : Type 0 where
  goes_on returns : Next

-- The loop over the payload. With the list of writes at its end the run is over.
unfoldable pub transfer : String → List Write → Text → Pump → Next × Pump
transfer direction writes [] p = (goes_on, p)
transfer direction [] (b ∷ bs) p = (returns, p)
transfer direction (w ∷ writes) (b ∷ bs) p =
    let q = interfere w.activated p in
    let n = chunk_size q.state direction q.count (length (b ∷ bs)) in
    let written = take (min w.room n) (b ∷ bs) in
    let sent = deliver direction written q in
    let rest = transfer direction writes (drop (min w.room n) (b ∷ bs)) sent in
    if not (pace q.state direction w.waited)
    then (returns, q)
    else if w.failed || is_nil written
    then (returns, sent)
    else if blocked sent.state direction
    then (goes_on, sent)
    else rest

-- Behind a read that is not dropped: `pump` returns, or goes on with `rest`.
unfoldable pub behind : Read → Next × Pump → (Pump → Pump) → Pump
behind r (returns, p) rest = p
behind r (goes_on, p) rest = if r.failed || r.canceled then p else rest p

-- The loop of `pump`. A read that ends in a hold is dropped, and the loop goes on at its head.
unfoldable pub pump : String → List Read → Pump → Pump
pump direction [] p = p
pump direction (r ∷ reads) p =
    let q = interfere r.activated_before p in
    let t = interfere r.activated_behind q in
    let dropped = pump direction reads t in
    if blocked q.state direction
    then q
    else if not (is_nil r.bytes) && blocked t.state direction
    then dropped
    else behind r (transfer direction r.writes r.bytes t) (pump direction reads)
