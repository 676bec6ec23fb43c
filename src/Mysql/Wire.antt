-- ===== src/Mysql/Wire.antt =====
-- internal/proxy/mysql/wire.go: packets, numbers of encoded length, statuses and kinds of statements. Upper case
-- and white space are those of ASCII: a statement with other letters is not modelled.
use faultline.Common.{
  ℕ, ◌+◌, ◌-◌, Bool, true, false, not, ◌&&◌, ◌||◌, Option, none, some, [], ◌∷◌, ◌++◌, Text, ◌==◌,
  nat_eq, text_eq, length, take, drop, is_nil, ltb, if◌then◌else◌,
}
use faultline.Common.Bytes.{le_bytes, from_le_bytes}
use faultline.Common.Strings.{codes, has_prefix, within}

abbrev pub max_packet : ℕ
max_packet = 1048576

pub record Packet : Type 0 where
  pub seq : ℕ
  pub body : Text

-- What a read of a packet finds in the bytes that are left, with the bytes behind it.
pub data Incoming : Type 0 where
  received : Packet → Text → Incoming
  ended malformed : Incoming

-- `n == 0 || n > maxPacket`
abbrev pub bad_size : ℕ → Bool
bad_size n = n == 0 || ltb max_packet n

unfoldable pub read_body : ℕ → ℕ → Text → Incoming
read_body n seq rest =
    if bad_size n
    then malformed
    else if ltb (length rest) n
    then ended
    else received (record { seq = seq; body = take n rest }) (drop n rest)

unfoldable pub read_packet : Text → Incoming
read_packet (a ∷ b ∷ c ∷ seq ∷ rest) = read_body (from_le_bytes (a ∷ b ∷ c ∷ [])) seq rest
read_packet _ = ended

-- The bytes that `writePacket` writes; `none` is its protocol error.
unfoldable pub write_packet : Packet → Option Text
write_packet p =
    if bad_size (length p.body) then none else some (le_bytes 3 (length p.body) ++ (p.seq ∷ p.body))

unfoldable pub rejection : ℕ → Packet
rejection seq = record {
  seq = seq;
  body =
      255 ∷ 21 ∷ 4 ∷ (codes "#HY000" ++ codes "Faultline: unsupported or malformed MySQL protocol");
}

-- The value and the number of bytes that it takes.
abbrev pub wide : ℕ → Text → Option (ℕ × ℕ)
wide n b = if ltb (length b) n then none else some (from_le_bytes (drop 1 (take n b)), n)

unfoldable pub lenenc : Text → Option (ℕ × ℕ)
lenenc [] = none
lenenc (h ∷ t) =
    if h == 251 || h == 255
    then none
    else if h == 252
    then wide 3 (h ∷ t)
    else if h == 253
    then wide 4 (h ∷ t)
    else if h == 254
    then wide 9 (h ∷ t)
    else some (h, 1)

-- The status behind the two numbers, of which the second one starts at `n`.
unfoldable pub ok_status_at : Text → ℕ → Option (ℕ × ℕ) → Option ℕ
ok_status_at b n none = none
ok_status_at b n (some (_, m)) =
    if ltb (length b) (1 + n + m + 4)
    then none
    else some (from_le_bytes (take 2 (drop (1 + n + m) b)))

unfoldable pub ok_status_behind : Text → Option (ℕ × ℕ) → Option ℕ
ok_status_behind b none = none
ok_status_behind b (some (_, n)) = ok_status_at b n (lenenc (drop (1 + n) b))

unfoldable pub ok_status : Text → Option ℕ
ok_status [] = none
ok_status (h ∷ t) =
    if ltb (length (h ∷ t)) 7 || not (h == 0) && not (h == 254)
    then none
    else ok_status_behind (h ∷ t) (lenenc t)

unfoldable pub eof_status : Text → Bool → Option ℕ
eof_status [] modern = none
eof_status (h ∷ t) modern =
    if not (h == 254)
    then none
    else if modern
    then ok_status (h ∷ t)
    else if not (length (h ∷ t) == 5)
    then none
    else some (from_le_bytes (take 2 (drop 3 (h ∷ t))))

pub data Statement : Type 0 where
  ordinary begin commit rollback unsupported : Statement

-- `strings.ToUpper`, `TrimSpace`, `Fields` and `Join` on ASCII.
abbrev pub upper : ℕ → ℕ
upper c = if within b'a' b'z' c then c - 32 else c

abbrev pub is_space : ℕ → Bool
is_space c = c == 32 || within 9 13 c

-- The words of a text, each with one space before it, the first one without.
abbrev pub join_fields : Bool → Bool → Text → Text
join_fields started pending [] = []
join_fields started pending (c ∷ cs) =
    let skipped = join_fields started true cs in
    let taken = join_fields true false cs in
    if is_space c then skipped else if started && pending then 32 ∷ c ∷ taken else c ∷ taken

abbrev pub fields_joined : Text → Text
fields_joined = join_fields false false

abbrev pub all_upper : Text → Text
all_upper [] = []
all_upper (c ∷ cs) = upper c ∷ all_upper cs

-- Without the spaces at the end, and then without one semicolon that ends the text.
abbrev pub trim_right : Text → Text
trim_right [] = []
trim_right (c ∷ cs) = let rest = trim_right cs in if is_nil rest && is_space c then [] else c ∷ rest

abbrev pub without_semicolon : Text → Text
without_semicolon [] = []
without_semicolon (c ∷ cs) =
    let rest = without_semicolon cs in if is_nil cs && c == b';' then [] else c ∷ rest

-- The text that `classify` compares.
unfoldable pub normalize : Text → Text
normalize sql = fields_joined (without_semicolon (trim_right (all_upper sql)))

unfoldable pub has_unsupported_prefix : Text → Bool
has_unsupported_prefix s =
    has_prefix s (codes "CALL ")
    || has_prefix s (codes "XA ")
    || has_prefix s (codes "PREPARE ")
    || has_prefix s (codes "EXECUTE ")
    || has_prefix s (codes "LOAD DATA ")

unfoldable pub classify : Text → Statement
classify sql =
    let s = normalize sql in
    if s == codes "BEGIN" || s == codes "BEGIN WORK" || s == codes "START TRANSACTION"
    then begin
    else if s == codes "COMMIT" || s == codes "COMMIT WORK"
    then commit
    else if s == codes "ROLLBACK" || s == codes "ROLLBACK WORK"
    then rollback
    else if has_unsupported_prefix s
    then unsupported
    else ordinary
