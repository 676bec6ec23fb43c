-- ===== src/Common/Eq.antt =====
-- Boolean equality as an interface, with its instances for numbers, native texts and byte texts.
use Prim.Native.Nat.{ℕ}
use Prim.Native.String.{String}
use mathlib.Core.Path.{◌≡◌, refl, ap}
use mathlib.Core.Logic.{◌↔◌, ◌⊎◌, inl, inr}
use mathlib.Core.Bool.{Bool, true, false, ◌&&◌}
use mathlib.Core.List.{List, [], ◌∷◌}
use native.Mathlib.Omega.{arith}
use text.Mathlib.TextEquality.{eq_iff}
use text.Mathlib.Text.{◌==◌ as string_beq}
use faultline.Common.Tests.{nat_beq, nat_beq_iff, Bool-cases}

-- A Go string whose bytes the code walks; a string that is only compared is a native text.
abbrev pub Text : Type 0
Text = List ℕ

unfoldable pub text_beq : Text → Text → Bool
text_beq [] [] = true
text_beq [] (y ∷ ys) = false
text_beq (x ∷ xs) [] = false
text_beq (x ∷ xs) (y ∷ ys) = nat_beq x y && text_beq xs ys

pub text_beq_iff : (s t : Text) → (text_beq s t ≡ true) ↔ (s ≡ t)
unfolding text_beq
text_beq_iff (x ∷ xs) (y ∷ ys) = ground (arith, text_beq_iff xs ys)
text_beq_iff _ _ = ground arith

-- What a comparison by `==` answers, and that it answers rightly.
pub record Eq {ℓ} (T : Type ℓ) : Type ℓ where
  pub equals : T → T → Bool
  pub equals_iff : (x y : T) → (equals x y ≡ true) ↔ (x ≡ y)

instance abbrev pub text_eq : Eq Text
text_eq = record { equals = text_beq; equals_iff = text_beq_iff }

abbrev pub ◌==◌ {ℓ} : {T : Type ℓ} ⦃c : Eq T⦄ → T → T → Bool
◌==◌ ⦃c⦄ = c.equals

infix 50 ◌==◌
instance abbrev pub string_eq : Eq String
string_eq = record { equals = string_beq; equals_iff = eq_iff }

instance abbrev pub nat_eq : Eq ℕ
nat_eq = record { equals = nat_beq; equals_iff = nat_beq_iff }

module _ {ℓ} {A : Type ℓ} ⦃e : Eq A⦄ where
  pub ==_refl : (a : A) → (a == a) ≡ true
  ==_refl a = (e.equals_iff a a).1 refl

  -- Which of the two it is, as an equation.
  pub ==_cases : (a b : A) → ((a == b) ≡ true) × (a ≡ b) ⊎ ((a == b) ≡ false)
  ==_cases a b = elim (Bool-cases (a == b)) [
    | inl h ↦ inl (h, (e.equals_iff a b).0 h)
    | inr h ↦ inr h
  ]

  -- What a comparison of an equal value answers.
  pub ==_of : (k x : A) → x ≡ k → (s : A) → (x == s) ≡ (k == s)
  ==_of k x h s = ap (λ (y : A). y == s) h
