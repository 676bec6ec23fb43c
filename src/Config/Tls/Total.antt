-- ===== src/Config/Tls/Total.antt =====
-- The loop of `validateCA` ends, and counts the certificates of the file.
use faultline.Common.{
  ℕ, zero, suc, ◌+◌, ◌≤◌, ◌<◌, true, some, List, [], ◌∷◌, Text, ◌≡◌, refl, sym, ap, ◌∙◌, arith,
  length, text_eq, Option-cases, inl, inr,
}
use faultline.Common.Strings.{codes}
use faultline.Config.Errors.{FieldError, Result, ok, err, Result-cases}
use faultline.Config.Platform.{Platform, Block}
use faultline.Config.Tls.{certificates, check_block}

-- A block of the right kind whose bytes are those of a certificate.
pub record IsCertificate (lib : Platform) (block : Block) : Type 0 where
  pub kind : block.kind ≡ codes "CERTIFICATE"
  pub parsed : lib.certificate block.bytes ≡ true

-- A file consists of certificates, one behind the other, and a rest.
abbrev pub Holds : Platform → List Block → Text → Text → Type 0
Holds lib [] file rest = file ≡ rest
Holds lib (block ∷ blocks) file rest =
    (0 < length file)
    × (behind : Text) × (lib.decode_pem file ≡ (some block, behind))
    × IsCertificate lib block
    × Holds lib blocks (lib.trim_space behind) rest

-- Either the whole file consists of certificates, and they are added to the count, or a rest is left that does
-- not begin with one.
abbrev pub Ends : Platform → Text → ℕ → Result ℕ → Type 0
Ends lib file count (ok n) =
    (blocks : List Block) × Holds lib blocks file [] × (n ≡ count + length blocks)
Ends lib file count (err e) =
    (blocks : List Block) × (rest : Text) × Holds lib blocks file rest
    × (0 < length rest)
    × ((block : Block) (behind : Text)
        → lib.decode_pem rest ≡ (some block, behind)
        → ¬ IsCertificate lib block)

check_block-IsCertificate :
    (lib : Platform) (block : Block) (field : Text) {done : Unit {0}}
    → check_block lib (some block) field ≡ ok done
    → IsCertificate lib block
check_block-IsCertificate lib block field h = record {
  kind = (text_eq.equals_iff block.kind (codes "CERTIFICATE")).0 (ground (arith, h));
  parsed = ground (arith, h);
}

not-IsCertificate :
    (lib : Platform) (block : Block) (field : Text) {e : FieldError}
    → check_block lib (some block) field ≡ err e
    → ¬ IsCertificate lib block
not-IsCertificate lib block field h c =
    ground (arith, h, (text_eq.equals_iff block.kind (codes "CERTIFICATE")).1 c.kind, c.parsed)

module _ (lib : Platform)
    (decoded : (file : Text) (block : Block) (behind : Text)
      → lib.decode_pem file ≡ (some block, behind)
      → length behind < length file)
    (trimmed : (file : Text) → length (lib.trim_space file) ≤ length file) where
  added :
      (file : Text) (block : Block) (behind : Text) (count : ℕ) (r : Result ℕ)
      → 0 < length file
      → lib.decode_pem file ≡ (some block, behind)
      → IsCertificate lib block
      → Ends lib (lib.trim_space behind) (suc count) r
      → Ends lib file count r
  added file block behind count (ok n) some_left found c (blocks, held, total) =
      (block ∷ blocks, (some_left, behind, found, c, held), omega (arith, total))
  added file block behind count (err e) some_left found c (blocks, rest, held, left, refused) =
      (block ∷ blocks, rest, (some_left, behind, found, c, held), left, refused)

  -- Where a PEM block is shorter than what it is read from and trimming adds nothing, a round for each byte
  -- is enough: the loop over the certificates ends. It ends with the count that it starts from and the number of
  -- certificates, if the file consists of certificates one behind the other, or with an error, if behind some
  -- certificates a rest is left that does not begin with one.
  pub certificates-Ends :
      (fuel : ℕ) (file : Text) (count : ℕ) (field : Text)
      → length file ≤ fuel
      → (r : Result ℕ) × (certificates lib fuel file count field ≡ some r) × Ends lib file count r
  unfolding certificates
  certificates-Ends fuel [] count field h = (ok count, refl, ([], refl, omega arith))
  certificates-Ends zero (b ∷ bs) count field h = absurd (omega arith)
  certificates-Ends (suc fuel) (b ∷ bs) count field h =
      let block = (lib.decode_pem (b ∷ bs)).0 in
      let behind = (lib.decode_pem (b ∷ bs)).1 in
      elim (Result-cases (check_block lib block field)) [
        | inr (e, refused) ↦ (
          err e,
          rw (refused, certificates) refl,
          (
            [],
            b ∷ bs,
            refl,
            omega arith,
            λ other rest found.
                not-IsCertificate lib other field {e = e}
                  (ap (λ p. check_block lib p.0 field) (sym found) ∙ refused),
          ),
        )
        | inl (done, accepted) ↦ elim (Option-cases block) [
          | inl missing ↦ absurd (ground (arith, missing, accepted))
          | inr (found, present) ↦
              let taken : lib.decode_pem (b ∷ bs) ≡ (some found, behind) =
                ap (λ o. (o, behind)) present in
              let shorter = decoded (b ∷ bs) found behind taken in
              let (r, q, ends) =
                certificates-Ends fuel (lib.trim_space behind) (suc count) field
                  (omega (arith, shorter, trimmed behind, h)) in
              let c =
                check_block-IsCertificate lib found field {done = done}
                  (ap (λ o. check_block lib o field) (sym present) ∙ accepted) in
              (
                r,
                rw (accepted, certificates) q,
                added (b ∷ bs) found behind count r (omega arith) taken c ends,
              )
        ]
      ]
