-- ===== src/Mysql/Greeting.antt =====
-- internal/proxy/mysql/auth.go, `greeting`: the server's first packet, and what of its capabilities the client is
-- offered.
use faultline.Common.{
  ℕ, ◌+◌, ◌-◌, ◌*◌, ◌/◌, ◌^◌, Bool, not, ◌&&◌, ◌||◌, Option, none, some, List, [], ◌∷◌, ◌++◌, Text,
  ◌==◌, nat_eq, text_eq, length, take, drop, ltb, if◌then◌else◌,
}
use faultline.Common.Bytes.{le_bytes, from_le_bytes, bit}
use faultline.Common.Strings.{codes, has_suffix}

-- `flags &^= 1 << i`
abbrev pub clear_bit : ℕ → ℕ → ℕ
clear_bit i n = if bit i n then n - 2 ^ i else n

abbrev pub clear_bits : List ℕ → ℕ → ℕ
clear_bits [] n = n
clear_bits (i ∷ is) n = clear_bits is (clear_bit i n)

-- The bits of `capSSL`, `capProtocol41`, `capPluginAuth` and of `forbiddenCaps`.
abbrev pub cap_ssl : ℕ
cap_ssl = 11

abbrev pub cap_protocol41 : ℕ
cap_protocol41 = 9

abbrev pub cap_plugin_auth : ℕ
cap_plugin_auth = 19

abbrev pub forbidden_caps : List ℕ
forbidden_caps = 5 ∷ 7 ∷ 16 ∷ 17 ∷ 18 ∷ 25 ∷ 26 ∷ 27 ∷ 28 ∷ 29 ∷ []

-- `bytes.IndexByte`
unfoldable pub index_byte : ℕ → Text → Option ℕ
index_byte x [] = none
index_byte x (c ∷ cs) =
    if c == x then some 0 else elim (index_byte x cs) [ none ↦ none | some i ↦ some (i + 1) ]

-- The two bytes at `i` as a number, and the text with two bytes put there.
abbrev pub uint16_at : ℕ → Text → ℕ
uint16_at i b = from_le_bytes (take 2 (drop i b))

abbrev pub put_uint16 : ℕ → ℕ → Text → Text
put_uint16 i n b = take i b ++ (le_bytes 2 n ++ drop (i + 2) b)

-- The capabilities that are offered, and the packet with these written into it; `lo` is where they stand.
unfoldable pub offered : ℕ → Text → Bool → Option (ℕ × Text)
offered lo b secure =
    let flags = uint16_at lo b + 65536 * uint16_at (lo + 5) b in
    let allowed = clear_bits forbidden_caps flags in
    let final = if secure then allowed else clear_bit cap_ssl allowed in
    if not (bit cap_protocol41 flags)
      || not (bit cap_plugin_auth flags)
      || not (has_suffix b (codes "caching_sha2_password" ++ (0 ∷ [])))
    then none
    else if secure && not (bit cap_ssl flags)
    then none
    else some (final, put_uint16 (lo + 5) (final / 65536) (put_uint16 lo final b))

unfoldable pub greeting_at : Option ℕ → Text → Bool → Option (ℕ × Text)
greeting_at none b secure = none
greeting_at (some end) b secure =
    let lo = 1 + end + 1 + 4 + 8 + 1 in
    if ltb (length b) (lo + 18) then none else offered lo b secure

unfoldable pub greeting : Text → Bool → Option (ℕ × Text)
greeting [] secure = none
greeting (version ∷ rest) secure =
    if not (version == 10) then none else greeting_at (index_byte 0 rest) (version ∷ rest) secure
