-- ===== src/Common/Bytes.antt =====
-- Numbers as bytes, and words by their bits.
use faultline.Common.{ℕ, zero, suc, ◌+◌, ◌*◌, ◌/◌, ◌%◌, ◌^◌, Bool, List, [], ◌∷◌, ◌==◌, nat_eq}

-- `binary.LittleEndian`: the bytes of a number of the given width, and the number that bytes make.
unfoldable pub le_bytes : ℕ → ℕ → List ℕ
le_bytes zero n = []
le_bytes (suc width) n = n % 256 ∷ le_bytes width (n / 256)

unfoldable pub from_le_bytes : List ℕ → ℕ
from_le_bytes [] = 0
from_le_bytes (b ∷ bs) = b + 256 * from_le_bytes bs

-- The bit `i` of a word.
abbrev pub bit : ℕ → ℕ → Bool
bit i n = (n / 2 ^ i) % 2 == 1
