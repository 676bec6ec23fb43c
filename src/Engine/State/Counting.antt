-- ===== src/Engine/State/Counting.antt =====
-- What the counters of a rule say after any number of attempts.

use native.Mathlib.Nat.{div-le_self, zero-div}
use faultline.Common.{
  ℕ, zero, suc, ◌+◌, ◌/◌, ◌%◌, ◌^◌, ◌≤◌, ◌<◌, Bool, true, false, Option, none, some, List, [], ◌∷◌,
  ◌≡◌, refl, ◌==◌, nat_eq, sym, arith, ltb, if◌then◌else◌, All, Bool-cases, inl, inr,
}
use faultline.Common.Division.{suc-div}
use faultline.Common.Float.{Float64, eq_float, lt_float, zero_float, one_float}
use faultline.Config.Model.{Selector}
use faultline.Config.Selector.Valid.{
  IsSelector, by_probability, by_nth, by_every, probability_selector, nth_selector, every_selector,
}
use faultline.Engine.Match.{Metadata}
use faultline.Engine.State.{
  RuleState, Decision, increment, select_attempt, after_attempt, attempt, applies, decide_rules,
}

-- How many of `eligible` attempts the selector has selected.
abbrev pub Due : Option ℕ → Option ℕ → ℕ → ℕ → Type 0
Due (some n) every eligible selected = selected ≡ (if ltb eligible n then 0 else 1)
Due none (some k) eligible selected = selected ≡ eligible / k
Due none none eligible selected = selected ≤ eligible

-- A rule with a valid selector, of which at most `calls` attempts were made.
pub record IsCounted {R : Type 0} (calls : ℕ) (s : RuleState R) : Type 0 where
  pub valid : IsSelector s.rule.select
  pub bounded : s.counters.eligible ≤ calls
  pub due : Due s.rule.select.nth s.rule.select.every s.counters.eligible s.counters.selected

abbrev bump : Bool → ℕ → ℕ
bump selected n = if selected then increment n else n

-- `nth` passes from 0 to 1 at its attempt, `every` counts the multiples.
Due-bump :
    (n : ℕ) (eligible selected : ℕ)
    → eligible + 1 < 2 ^ 64
    → 0 < n
    → Due (some n) none eligible selected
    → Due (some n) none (eligible + 1) (bump (eligible + 1 == n) selected)
Due-bump n eligible selected h p d = ground arith

Due-bump_every :
    (k : ℕ) (eligible selected : ℕ)
    → eligible + 1 < 2 ^ 64
    → selected ≤ eligible
    → Due none (some (suc k)) eligible selected
    → Due none (some (suc k)) (eligible + 1) (bump ((eligible + 1) % suc k == 0) selected)
Due-bump_every k eligible selected h b d = ground (arith, suc-div eligible k)

Due-bump_probability :
    (b : Bool) (eligible selected : ℕ)
    → eligible + 1 < 2 ^ 64
    → selected ≤ eligible
    → Due none none (eligible + 1) (bump b selected)
Due-bump_probability b eligible selected h d = ground arith

abbrev IsPositive : Option ℕ → Type 0
IsPositive none = Unit
IsPositive (some n) = 0 < n

IsSelector-IsPositive : {s : Selector} → IsSelector s → IsPositive s.nth × IsPositive s.every
IsSelector-IsPositive (by_probability p h e) = rw e (tt, tt)
IsSelector-IsPositive (by_nth n h e) = rw e (h, tt)
IsSelector-IsPositive (by_every k h e) = rw e (tt, h)

Due-le :
    (n e : Option ℕ) (eligible selected : ℕ)
    → IsPositive n
    → Due n e eligible selected
    → selected ≤ eligible
Due-le none none eligible selected h d = d
Due-le none (some zero) eligible selected h d = omega arith
Due-le none (some (suc k)) eligible selected h d = rw d (div-le_self eligible (suc k))
Due-le (some n) e eligible selected h d = ground arith

-- No attempt was made, and none selected.
pub Due-zero : {s : Selector} → IsSelector s → Due s.nth s.every 0 0
Due-zero (by_probability p h e) = rw e (omega arith)
Due-zero (by_nth n h e) = rw e (ground arith)
Due-zero (by_every k h e) = rw e (sym (zero-div k))

-- Three ways to return something return something.
if_some {ℓ} :
    {A : Type ℓ} (a b : Bool) (x y z : A)
    → (r : A) × ((if a then some x else if b then some y else some z) ≡ some r)
if_some true b x y z = (x, refl)
if_some false true x y z = (y, refl)
if_some false false x y z = (z, refl)

module _ {R : Type 0} (draw : R → Float64 × R) (eligible selected : ℕ) (random : R) where
  -- The attempt answers, and its answer keeps the count due.
  abbrev Answers : Selector → Type 0
  Answers s =
      (r : Bool × R) × (select_attempt draw s (eligible + 1) random ≡ some r)
      × Due s.nth s.every (eligible + 1) (bump r.0 selected)

  module _ (fits : eligible + 1 < 2 ^ 64) (small : selected ≤ eligible) where
    probability-Answers : (p : Float64) → Answers (probability_selector p)
    unfolding select_attempt
    probability-Answers p =
        let (x, random') = draw random in
        let (r, q) =
          if_some (eq_float p zero_float) (eq_float p one_float) (false, random) (true, random)
            (lt_float x p, random') in
        (r, q, Due-bump_probability r.0 eligible selected fits small)

    nth-Answers : (n : ℕ) → 0 < n → Due (some n) none eligible selected → Answers (nth_selector n)
    unfolding select_attempt
    nth-Answers n h d = ((eligible + 1 == n, random), refl, Due-bump n eligible selected fits h d)

    every-Answers :
        (k : ℕ) → 0 < k → Due none (some k) eligible selected → Answers (every_selector k)
    unfolding select_attempt
    every-Answers zero h d = absurd (omega arith)
    every-Answers (suc k) h d = (
      ((eligible + 1) % suc k == 0, random),
      refl,
      Due-bump_every k eligible selected fits small d,
    )

    -- A valid selector never meets a nil field or divides by zero.
    select_attempt-Answers :
        {s : Selector} → IsSelector s → Due s.nth s.every eligible selected → Answers s
    select_attempt-Answers (by_probability p h e) d = rw e (probability-Answers p)
    select_attempt-Answers (by_nth n h e) d = rw e (nth-Answers n h (rw e at d))
    select_attempt-Answers (by_every k h e) d = rw e (every-Answers k h (rw e at d))

increment-lt : (n : ℕ) → n + 1 < 2 ^ 64 → increment n ≡ n + 1
increment-lt n h = omega arith

module _ {R : Type 0} (draw : R → Float64 × R) (calls : ℕ) (fits : calls + 1 < 2 ^ 64) where
  attempt-IsCounted :
      (s : RuleState R) (d : Decision)
      → IsCounted calls s
      → (r : RuleState R × Decision) × (attempt draw s d ≡ some r) × IsCounted (calls + 1) r.0
  unfolding attempt
  attempt-IsCounted s d c =
      let positive = IsSelector-IsPositive c.valid in
      let small = Due-le _ _ _ _ positive.0 c.due in
      let (r, q, due) =
        select_attempt-Answers draw s.counters.eligible s.counters.selected s.random
          (omega (arith, c.bounded)) small c.valid c.due in
      let e = increment-lt s.counters.eligible (omega (arith, c.bounded)) in
      (
        after_attempt s d (s.counters.eligible + 1) r,
        rw (e, attempt) (rw q refl),
        record { valid = c.valid; bounded = omega (arith, c.bounded); due = due },
      )

  IsCounted-weaken : {s : RuleState R} → IsCounted calls s → IsCounted (calls + 1) s
  IsCounted-weaken c = record { valid = c.valid; bounded = omega (arith, c.bounded); due = c.due }

  pub All-weaken :
      (rules : List (RuleState R)) → All (IsCounted calls) rules → All (IsCounted (calls + 1)) rules
  All-weaken [] h = tt
  All-weaken (s ∷ rest) h = (IsCounted-weaken h.0, All-weaken rest h.1)

  pub decide_rules-IsCounted :
      (rules : List (RuleState R)) (metadata : Metadata) (d : Decision)
      → All (IsCounted calls) rules
      → (r : List (RuleState R) × Decision) × (decide_rules draw rules metadata d ≡ some r)
        × All (IsCounted (calls + 1)) r.0
  unfolding decide_rules
  decide_rules-IsCounted [] metadata d h = (([], d), refl, tt)
  decide_rules-IsCounted (s ∷ rest) metadata d h = elim (Bool-cases (applies s metadata)) [
    | inl hit ↦
        let (r, q, c) = attempt-IsCounted s d h.0 in
        ((r.0 ∷ rest, r.1), rw hit (rw q refl), (c, All-weaken rest h.1))
    | inr miss ↦
        let (r, q, c) = decide_rules-IsCounted rest metadata d h.1 in
        ((s ∷ r.0, r.1), rw miss (rw q refl), (IsCounted-weaken h.0, c))
  ]
