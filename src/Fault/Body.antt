-- ===== src/Fault/Body.antt =====
-- internal/fault/body.go, `WrapBody` and `Read`. The wrapped reader is the interface `Reader` over its
-- state; the context's error and the result of pacing are inputs of each call.
pub mod Truncation
pub mod Throttle
use faultline.Common.{
  ℕ, ◌+◌, ◌-◌, ◌*◌, ◌/◌, ◌≤◌, ◌^◌, Bool, true, false, Option, none, some, List, [], ◌∷◌, ◌++◌,
  String, Text, ◌==◌, string_eq, nat_eq, min, max, length, is_nil, ltb, if◌then◌else◌, ◌≡◌, refl,
}
use faultline.Common.Int.{ℤ, pos_part}
use faultline.Config.Model.{Fault}
use faultline.Fault.Builtin.{Failure, truncated}

-- `io.Reader`: at most the bytes asked for, with an error or not.
pub record Reader (S : Type 0) : Type 0 where
  pub read : ℕ → S → Text × Option Failure × S
  pub bounded : (n : ℕ) (s : S) → length (read n s).0 ≤ n

-- `remaining` is a Go int that validation keeps from being negative.
pub record Body (S : Type 0) : Type 0 where
  pub source : S
  pub action : Fault
  pub remaining : ℕ
  pub applied : ℕ

-- One call of `Read`: the length of its buffer, `ctx.Err()` on entry, and what `wait` returns.
pub record Call : Type 0 where
  pub size : ℕ
  pub context_err : Option Failure
  pub wait_err : Option Failure

-- The bytes delivered, the error, and the body that is left.
abbrev pub Delivery : Type 0 → Type 0
Delivery S = Text × Option Failure × Body S

abbrev pub limit_of : Option ℤ → ℕ
limit_of none = 0
limit_of (some z) = pos_part z

unfoldable pub wrap_body : {S : Type 0} → S → Fault → Body S
wrap_body source action = record {
  source = source;
  action = action;
  remaining = limit_of action.bytes;
  applied = 0;
}

-- `min(16<<10, max(1, rate/10))`
abbrev pub chunk_of : ℕ → ℕ
chunk_of rate = min 16384 (max 1 (rate / 10))

module _ {S : Type 0} where
  -- `if n > 0 { b.onApplied(); return 0, ErrTruncated }; return 0, err`
  unfoldable pub probed : Body S → Text × Option Failure × S → Delivery S
  probed b ([], error, source) = ([], error, record b { source = source })
  probed b (c ∷ cs, error, source) =
      ([], some truncated, record b { source = source; applied = b.applied + 1 })

  -- The bytes of a throttled read, and the error of `wait` behind them.
  unfoldable pub paced : Body S → Option Failure → Text × Option Failure × S → Delivery S
  paced b wait_err ([], error, source) = ([], error, record b { source = source })
  paced b (some e) (c ∷ cs, error, source) =
      ([], some e, record b { source = source; applied = b.applied + 1 })
  paced b none (c ∷ cs, error, source) =
      (c ∷ cs, error, record b { source = source; applied = b.applied + 1 })

  -- The bytes that two calls deliver, one behind the other, and the body that they leave.
  abbrev pub and_then :
      Option (Delivery S) → (Body S → Option (Text × Body S)) → Option (Text × Body S)
  and_then none rest = none
  and_then (some (bytes, error, b)) rest = elim (rest b) [
    | none ↦ none
    | some (more, b') ↦ some (bytes ++ more, b')
  ]

module _ {S : Type 0} (reader : Reader S) where
  -- The branch for "truncate".
  unfoldable pub read_truncated : Body S → ℕ → Delivery S
  read_truncated b size =
      if b.remaining == 0
      then probed b (reader.read 1 b.source)
      else (let (bytes, error, source) = reader.read (min size b.remaining) b.source in
          (bytes, error, record b { source = source; remaining = b.remaining - length bytes }))

  -- The branch for "throttle". The pause is as long as the bytes take at the rate; an error of `wait`
  -- drops the bytes that were read.
  unfoldable pub read_throttled : Body S → ℕ → ℕ → Option Failure → Delivery S
  read_throttled b rate size wait_err =
      paced b wait_err (reader.read (min size (chunk_of rate)) b.source)

  unfoldable pub throttle_by : Option ℤ → Body S → ℕ → Option Failure → Option (Delivery S)
  throttle_by none b size wait_err = none
  throttle_by (some rate) b size wait_err = some (read_throttled b (pos_part rate) size wait_err)

  -- `Read`; `none` is a panic on a nil rate.
  unfoldable pub read : Body S → Call → Option (Delivery S)
  read b c = if c.size == 0 then some ([], none, b) else elim c.context_err [
    | some e ↦ some ([], some e, b)
    | none ↦
        if b.action.action == "truncate"
        then some (read_truncated b c.size)
        else throttle_by b.action.bytes_per_second b c.size c.wait_err
  ]

  unfoldable pub read_all : Body S → List Call → Option (Text × Body S)
  read_all b [] = some ([], b)
  read_all b (c ∷ calls) = and_then (read b c) (λ b'. read_all b' calls)
