-- ===== src/Common/Digits.antt =====
-- A number that is printed in decimal and read again.
use faultline.Common.{
  ℕ, zero, suc, ◌+◌, ◌-◌, ◌*◌, ◌/◌, ◌%◌, ◌≤◌, ◌<◌, true, false, [], ◌∷◌, ◌++◌, Text, ◌≡◌, refl,
  arith, length, length-append, ltb, Bool-cases, inl, inr,
}
use faultline.Common.Decimal.{parse_digits, all_digits, digits_of}
use faultline.Common.Strings.{is_digit}

-- `10 ^ k`
abbrev pub ten : ℕ → ℕ
ten zero = 1
ten (suc k) = 10 * ten k

parse_digits-append :
    (n : ℕ) (front : Text) (c : ℕ)
    → parse_digits n (front ++ c ∷ []) ≡ 10 * parse_digits n front + (c - 48)
unfolding parse_digits
parse_digits-append n [] c = refl
parse_digits-append n (b ∷ front) c = parse_digits-append (10 * n + (b - 48)) front c

all_digits-append :
    (front : Text) (c : ℕ)
    → all_digits front ≡ true
    → is_digit c ≡ true
    → all_digits (front ++ c ∷ []) ≡ true
unfolding all_digits
all_digits-append [] c h k = rw k refl
all_digits-append (b ∷ front) c h k = ground (arith, h, all_digits-append front c)

is_digit_of : (d : ℕ) → d < 10 → is_digit (48 + d) ≡ true
unfolding is_digit
is_digit_of d h = ground (arith, h)

several : (k n : ℕ) → n < ten (suc k) → ltb n 10 ≡ false → 0 < k
several zero n h large = absurd (ground (arith, h, large))
several (suc k) n h large = omega arith

-- With a round for each digit, the digits of a number are digits, and they are read as the number.
pub parse_digits-digits_of :
    (fuel n : ℕ)
    → n < ten fuel
    → 0 < fuel
    → (all_digits (digits_of fuel n) ≡ true) × (parse_digits 0 (digits_of fuel n) ≡ n)
unfolding digits_of parse_digits all_digits
parse_digits-digits_of zero n h p = absurd (omega arith)
parse_digits-digits_of (suc fuel) n h p = elim (Bool-cases (ltb n 10)) [
  | inl small ↦
      let below : n < 10 = ground (arith, small) in
      rw small (rw (is_digit_of n below) refl, omega arith)
  | inr large ↦
      let (digits, same) =
        parse_digits-digits_of fuel (n / 10) (omega arith) (several fuel n h large) in
      rw large (
        all_digits-append (digits_of fuel (n / 10)) (48 + n % 10) digits
            (is_digit_of (n % 10) (omega arith)),
        omega (arith, same, parse_digits-append 0 (digits_of fuel (n / 10)) (48 + n % 10)),
      )
]

-- A number below `10 ^ k` takes between one and `k` digits.
pub length-digits_of :
    (fuel k n : ℕ)
    → n < ten k
    → 0 < k
    → k ≤ fuel
    → (0 < length (digits_of fuel n)) × (length (digits_of fuel n) ≤ k)
unfolding digits_of
length-digits_of zero k n h p q = absurd (omega arith)
length-digits_of (suc fuel) zero n h p q = absurd (omega arith)
length-digits_of (suc fuel) (suc k) n h p q = elim (Bool-cases (ltb n 10)) [
  | inl small ↦ rw small (omega arith)
  | inr large ↦
      let (_, most) =
        length-digits_of fuel k (n / 10) (omega arith) (several k n h large) (omega arith) in
      rw large (omega (arith, most, length-append (digits_of fuel (n / 10)) ((48 + n % 10) ∷ [])))
]
