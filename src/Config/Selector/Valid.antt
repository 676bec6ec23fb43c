-- ===== src/Config/Selector/Valid.antt =====
-- The selectors that `validateSelector` lets through.
use faultline.Common.{ℕ, ◌<◌, false, Option, none, some, Text, ◌≡◌, nat_eq, arith}
use faultline.Common.Int.{pos, negsuc, ◌≤ℤ◌}
use faultline.Common.Float.{
  Float64, nan, pos_inf, neg_inf, neg_zero, finite, scale, lt_float, is_nan, is_inf, eq_float,
}
use faultline.Config.Model.{Selector}
use faultline.Config.Errors.{ok}
use faultline.Config.Selector.{
  normal_zero, bad_probability, validate_probability, validate_selector,
}

-- A number from 0 to 1, and not the negative zero.
abbrev pub InUnit : Float64 → Type 0
InUnit (finite z) = (pos 0 ≤ℤ z) × (z ≤ℤ pos scale)
InUnit _ = ⊥

abbrev pub probability_selector : Float64 → Selector
probability_selector p = record { probability = some p; nth = none; every = none }

abbrev pub nth_selector : ℕ → Selector
nth_selector n = record { probability = none; nth = some n; every = none }

abbrev pub every_selector : ℕ → Selector
every_selector k = record { probability = none; nth = none; every = some k }

-- Exactly one selector, and its value is in range.
pub data IsSelector (s : Selector) : Type 0 where
  by_probability : (p : Float64) → InUnit p → s ≡ probability_selector p → IsSelector s
  by_nth : (n : ℕ) → 0 < n → s ≡ nth_selector n → IsSelector s
  by_every : (k : ℕ) → 0 < k → s ≡ every_selector k → IsSelector s

normal_zero-InUnit :
    (p : Float64) → bad_probability (normal_zero p) ≡ false → InUnit (normal_zero p)
unfolding normal_zero bad_probability eq_float lt_float is_nan is_inf
normal_zero-InUnit (finite (pos z)) h = ground arith
normal_zero-InUnit (finite (negsuc z)) h = ground arith
normal_zero-InUnit neg_zero h = ground arith
normal_zero-InUnit _ h = ground arith

InUnit-normal : (p : Float64) → InUnit p → (bad_probability p ≡ false) × (normal_zero p ≡ p)
unfolding normal_zero bad_probability eq_float lt_float is_nan is_inf
InUnit-normal (finite (pos z)) h = (ground arith, ground arith)
InUnit-normal (finite (negsuc z)) h = absurd (omega arith)
InUnit-normal nan h = absurd h
InUnit-normal neg_zero h = absurd h
InUnit-normal pos_inf h = absurd h
InUnit-normal neg_inf h = absurd h

validate_parts :
    (p : Option Float64) (n e : Option ℕ) (path : Text) {t : Selector}
    → validate_selector (record { probability = p; nth = n; every = e }) path ≡ ok t
    → IsSelector t
unfolding validate_selector validate_probability
validate_parts none none none path h = cc
validate_parts none none (some e) path h = by_every e (ground arith) (ground arith)
validate_parts none (some n) none path h = by_nth n (ground arith) (ground arith)
validate_parts (some p) none none path h =
    by_probability (normal_zero p) (normal_zero-InUnit p (ground arith)) (ground arith)
validate_parts (some p) (some n) none path h = absurd (ground arith)
validate_parts (some p) (some n) (some e) path h = absurd (ground arith)
validate_parts (some p) none (some e) path h = absurd (ground arith)
validate_parts none (some n) (some e) path h = absurd (ground arith)

validate_fixed : (s : Selector) (path : Text) → IsSelector s → validate_selector s path ≡ ok s
unfolding validate_selector validate_probability
validate_fixed s path (by_probability p h e) = rw e (ground (arith, InUnit-normal p h))
validate_fixed s path (by_nth n h e) = rw e (ground arith)
validate_fixed s path (by_every k h e) = rw e (ground arith)

-- What the validator returns is one selector in range, and the validator returns such a selector as it
-- is.
pub validate_selector-IsSelector :
    (s : Selector) (path : Text)
    → ((t : Selector) → validate_selector s path ≡ ok t → IsSelector t)
      × (IsSelector s → validate_selector s path ≡ ok s)
validate_selector-IsSelector s path =
    ((λ t h. validate_parts s.probability s.nth s.every path h), validate_fixed s path)
