-- ===== src/Grpc/RoundTrip.antt =====
-- internal/proxy/grpc/protocol.go: what `Timeout` reads of a header that `TimeoutHeader` writes.
use faultline.Common.{
  ℕ, ◌+◌, ◌-◌, ◌*◌, ◌/◌, ◌≤◌, ◌<◌, Option, some, [], ◌∷◌, ◌++◌, Text, ◌≡◌, refl, arith, length,
  List, suc, zero, ap, ◌∙◌, inl, inr, leb, length-append, ltb, Bool-cases,
}
use faultline.Common.Int.{ℤ, pos_part}
use faultline.Common.Decimal.{digits_of}
use faultline.Common.Digits.{parse_digits-digits_of, length-digits_of}
use faultline.Grpc.Timeout.{
  split_last, unit_of, max_duration, scaled, timeout_of, timeout, ceiling, choose, header_units,
  at_least_one, written, timeout_header,
}

split_last-append : (front : Text) (c : ℕ) → split_last (front ++ c ∷ []) ≡ some (front, c)
unfolding split_last
split_last-append [] c = refl
split_last-append (b ∷ front) c = rw (split_last-append front c) refl

-- A number of at most eight digits behind a suffix is read as so many units.
timeout-digits_of :
    (n suffix : ℕ)
    → n ≤ 99999999
    → timeout (digits_of 20 n ++ suffix ∷ []) ≡ scaled n (unit_of suffix)
unfolding timeout timeout_of
timeout-digits_of n suffix h =
    let (some_digits, most) = length-digits_of 20 8 n (omega arith) (omega arith) (omega arith) in
    let (digits, same) = parse_digits-digits_of 20 n (omega arith) (omega arith) in
    let long : length (digits_of 20 n ++ suffix ∷ []) ≡ length (digits_of 20 n) + 1 =
      length-append (digits_of 20 n) (suffix ∷ []) in
    rw (split_last-append (digits_of 20 n) suffix, digits, same, long)
      (ground (arith, some_digits, most))

ceiling_bounds :
    (d u : ℕ) → (d ≤ ceiling d (suc u) * suc u) × (ceiling d (suc u) * suc u < d + suc u)
ceiling_bounds d u = grind arith

times_le : (a b c : ℕ) → a ≤ b → a * c ≤ b * c
times_le a b c h = grind arith

mul-le_of_div : (m n u : ℕ) → n ≤ m / suc u → n * suc u ≤ m
mul-le_of_div m n u h = grind arith

lt-mul_of_div : (m n u : ℕ) → m / suc u < n → m < n * suc u
lt-mul_of_div m n u h = grind arith

ceiling-le : (d u : ℕ) → 99999999 < ceiling d (suc u) → 99999999 * suc u < d
ceiling-le d u h =
    let many : 100000000 * suc u ≤ ceiling d (suc u) * suc u = times_le _ _ (suc u) h in
    omega (arith, (ceiling_bounds d u).1, many)

-- What is chosen for a duration: a number of at most eight digits, with a unit and its suffix, that rounds the
-- duration up by less than the unit, and a unit that is small against the duration.
record IsChoice (d : ℕ) (c : ℕ × ℕ × ℕ) : Type 0 where
  short : c.0 ≤ 99999999
  suffix : unit_of c.2 ≡ some c.1
  enough : d ≤ c.0 * c.1
  near : c.0 * c.1 < d + c.1
  fine : 99999 * c.1 ≤ d + 99999

abbrev Chosen : ℕ → Option (ℕ × ℕ × ℕ) → Type 0
Chosen d o = (c : ℕ × ℕ × ℕ) × (o ≡ some c) × IsChoice d c

-- A unit that is small against the duration is taken, or one behind it.
choose-Chosen :
    (d u suffix : ℕ) (units : List (ℕ × ℕ))
    → unit_of suffix ≡ some (suc u)
    → 99999 * suc u ≤ d + 99999
    → (99999999 * suc u < d → Chosen d (choose d units))
    → Chosen d (choose d ((suc u, suffix) ∷ units))
unfolding choose
choose-Chosen d u suffix units named fine later =
    elim (Bool-cases (leb (ceiling d (suc u)) 99999999)) [
      | inl short ↦ rw short (
        (ceiling d (suc u), suc u, suffix),
        refl,
        record {
          short = ground (arith, short);
          suffix = named;
          enough = (ceiling_bounds d u).0;
          near = (ceiling_bounds d u).1;
          fine = fine;
        },
      )
      | inr long ↦ rw long (later (ceiling-le d u (ground (arith, long))))
    ]

header_units-Chosen : (d : ℕ) → d ≤ max_duration → Chosen d (choose d header_units)
unfolding unit_of
header_units-Chosen d h = choose-Chosen d 0 b'n' _ refl (omega arith) λ n.
    choose-Chosen d 999 b'u' _ refl (omega arith) λ u.
      choose-Chosen d 999999 b'm' _ refl (omega arith) λ m.
        choose-Chosen d 999999999 b'S' _ refl (omega arith) λ s.
          choose-Chosen d 59999999999 b'M' _ refl (omega arith)
            λ t. choose-Chosen d 3599999999999 b'H' [] refl (omega arith) λ r. absurd (omega arith)

-- A duration that is read again: it is no less, and at most a 99999th more.
pub record IsRead (d d' : ℕ) : Type 0 where
  pub enough : d ≤ d'
  pub near : 99999 * (d' - d) ≤ d
  pub within : d' ≤ max_duration

scaled-IsRead :
    (d n u suffix : ℕ)
    → d ≤ max_duration
    → IsChoice d (n, suc u, suffix)
    → (d' : ℕ) × (scaled n (some (suc u)) ≡ some d') × IsRead d d'
scaled-IsRead d n u suffix h c = elim (Bool-cases (ltb (max_duration / suc u) n)) [
  | inl cut ↦ (
    max_duration,
    ground (arith, cut, c.short),
    record {
      enough = h;
      near = omega (arith, c.near, c.fine, lt-mul_of_div max_duration n u (ground (arith, cut)));
      within = omega arith;
    },
  )
  | inr whole ↦ (
    n * suc u,
    ground (arith, whole, c.short),
    record {
      enough = c.enough;
      near = omega (arith, c.near, c.fine);
      within = mul-le_of_div max_duration n u (ground (arith, whole));
    },
  )
]

written-IsRead :
    (d : ℕ) (c : ℕ × ℕ × ℕ)
    → 0 < d
    → d ≤ max_duration
    → IsChoice d c
    → (value : Text) × (d' : ℕ) × (written (some c) ≡ some value)
      × (timeout value ≡ some d')
      × IsRead d d'
written-IsRead d (n, zero, suffix) some_time h c = absurd (omega (arith, c.enough))
written-IsRead d (n, suc u, suffix) some_time h c =
    let (d', same, good) = scaled-IsRead d n u suffix h c in
    (
      digits_of 20 n ++ suffix ∷ [],
      d',
      refl,
      timeout-digits_of n suffix c.short ∙ (ap (scaled n) c.suffix ∙ same),
      good,
    )

-- For every duration of 64 bits, `TimeoutHeader` writes a header, so it does not panic, and `Timeout` reads it. What
-- it reads is no less than the duration, or than a nanosecond for one below that, and at most a 99999th more.
pub timeout-timeout_header :
    (duration : ℤ)
    → pos_part duration ≤ max_duration
    → (value : Text) × (d' : ℕ) × (timeout_header duration ≡ some value)
      × (timeout value ≡ some d')
      × IsRead (at_least_one duration) d'
unfolding timeout_header
timeout-timeout_header duration h =
    let (c, chosen, good) = header_units-Chosen (at_least_one duration) (omega (arith, h)) in
    let (value, d', writes, reads, near) =
      written-IsRead (at_least_one duration) c (omega arith) (omega (arith, h)) good in
    (value, d', ap written chosen ∙ writes, reads, near)
