-- ===== src/Config/Errors.antt =====
-- internal/config/parse.go, `FieldError` and `invalid`, and the result of a validator: the value that
-- it leaves behind, or the first field error.
use faultline.Common.{Bool, true, false, Text, String, [], ◌≡◌, refl, ◌⊎◌, inl, inr}

-- What an error says: a literal, or one with what the code appends to it.
pub data Message : Type 0 where
  literal : String → Message
  followed_by : String → Text → Message

pub record FieldError : Type 0 where
  pub file : Text
  pub path : Text
  pub message : Message

unfoldable pub invalid : Text → String → FieldError
invalid path message = record { file = []; path = path; message = literal message }

pub data Result {ℓ} (A : Type ℓ) : Type ℓ where
  ok : A → Result A
  err : FieldError → Result A

infixl 5 ◌>>=◌ ◌>>◌
-- An error is returned at once, and a value goes on to the next check.
abbrev pub ◌>>=◌ {ℓ κ} : {S : Type ℓ} {T : Type κ} → Result S → (S → Result T) → Result T
err first >>= next = err first
ok value >>= next = next value

-- `if bad { return invalid(path, message) }`
abbrev pub check : Bool → Text → String → Result (Unit {0})
check true path message = err (invalid path message)
check false path message = ok tt

abbrev pub ◌>>◌ {κ} : {T : Type κ} → Result (Unit {0}) → Result T → Result T
first >> next = first >>= (λ done. next)

pub Result-cases {ℓ} :
    {A : Type ℓ} (r : Result A) → ((a : A) × (r ≡ ok a)) ⊎ ((e : FieldError) × (r ≡ err e))
Result-cases (ok a) = inl (a, refl)
Result-cases (err e) = inr (e, refl)
