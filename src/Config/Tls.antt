-- ===== src/Config/Tls.antt =====
-- internal/config/tls.go, `validateTLS`: the files that a proxy names for TLS, with the digests of what was
-- read. A file name becomes absolute and clean where it stands.
pub mod Total
use faultline.Common.{
  ℕ, zero, suc, Bool, true, false, not, ◌&&◌, ◌||◌, Option, none, some, List, [], ◌∷◌, ◌++◌, String,
  nat_eq, Text, ◌==◌, string_eq, text_eq, is_nil, length, bool_ne, if◌then◌else◌,
}
use faultline.Common.Strings.{codes, has_prefix}
use faultline.Config.Model.{Proxy, ListenerTls, UpstreamTls}
use faultline.Config.Errors.{Result, ok, err, invalid, ◌>>=◌, ◌>>◌, check}
use faultline.Config.Faults.{is_set}
use faultline.Config.Platform.{Platform, Block}
use faultline.Config.Listener.{is_database, required}

-- `map[string][32]byte`
abbrev pub Digests : Type 0
Digests = List (Text × Text)

-- `digests[name] = digest`
unfoldable pub put_digest : Text → Text → Digests → Digests
put_digest name digest [] = (name, digest) ∷ []
put_digest name digest ((n, old) ∷ rest) =
    if n == name then (n, digest) ∷ rest else (n, old) ∷ put_digest name digest rest

-- What `read` gives: the data, the name that it leaves and the digests.
pub record Contents : Type 0 where
  pub bytes : Text
  pub name : Text
  pub digests : Digests

abbrev pub absolute : Platform → Text → Text → Text
absolute lib base name = lib.clean (if lib.is_abs name then name else lib.join base name)

unfoldable pub read : Platform → Text → Text → Text → Digests → Result Contents
read lib base name field digests = do
  check (is_nil name) field "file is required"
  bytes ← required (lib.read_file (absolute lib base name)) field "cannot read file"
  ok (record {
    bytes = bytes;
    name = absolute lib base name;
    digests = put_digest (absolute lib base name) (lib.sha256 bytes) digests;
  })

-- A block that `validateCA` refuses, with its message.
abbrev pub check_block : Platform → Option Block → Text → Result (Unit {0})
check_block lib none field = err (invalid field "expected PEM certificates")
check_block lib (some block) field =
    check (not (block.kind == codes "CERTIFICATE")) field "expected PEM certificates"
    >> check (not (lib.certificate block.bytes)) field "invalid CA certificate"

-- The loop of `validateCA` with its count, on fuel; without fuel it has not come to an end.
unfoldable pub certificates : Platform → ℕ → Text → ℕ → Text → Option (Result ℕ)
certificates lib fuel [] count field = some (ok count)
certificates lib zero (b ∷ bs) count field = none
certificates lib (suc fuel) (b ∷ bs) count field =
    let (block, behind) = lib.decode_pem (b ∷ bs) in
    let later = certificates lib fuel (lib.trim_space behind) (suc count) field in
    elim (check_block lib block field) [ err e ↦ some (err e) | ok done ↦ later ]

-- The loop with a round for each byte; each takes a block, and so a byte at least.
abbrev pub run_out : Option (Result ℕ) → Text → Result ℕ
run_out none field = err (invalid field "no end")
run_out (some r) field = r

unfoldable pub validate_ca : Platform → Text → Text → Text → Digests → Result (Text × Digests)
validate_ca lib base name field digests = do
  file ← read lib base name field digests
  count ← run_out (certificates lib (length file.bytes) file.bytes 0 field) field
  check (count == 0) field "expected PEM certificates"
  ok (file.name, file.digests)

-- A certificate and its key, with the fields for their errors.
unfoldable pub read_pair :
    Platform → Text → Text → Text → Text → Digests → Result (Text × Text × Digests)
read_pair lib base cert key field digests = do
  c ← read lib base cert (field ++ codes ".cert_file") digests
  k ← read lib base key (field ++ codes ".key_file") c.digests
  check (not (lib.key_pair c.bytes k.bytes)) field "invalid or mismatched certificate/key"
  ok (c.name, k.name, k.digests)

-- `if name != "" { validateCA(&name, field) }`
unfoldable pub optional_ca : Platform → Text → Text → Text → Digests → Result (Text × Digests)
optional_ca lib base name field digests =
    if is_nil name then ok (name, digests) else validate_ca lib base name field digests

unfoldable pub validate_listener_tls :
    Platform → Text → Option ListenerTls → Text → Digests → Result (Option ListenerTls × Digests)
validate_listener_tls lib base none path digests = ok (none, digests)
validate_listener_tls lib base (some t) path digests = do
  pair ← read_pair lib base t.cert_file t.key_file (path ++ codes ".tls") digests
  ca ← optional_ca lib base t.client_ca_file (path ++ codes ".tls.client_ca_file") pair.2
  ok (some (record { cert_file = pair.0; key_file = pair.1; client_ca_file = ca.0 }), ca.1)

unfoldable pub optional_pair :
    Platform → Text → Text → Text → Text → Digests → Result (Text × Text × Digests)
optional_pair lib base cert key field digests =
    if is_nil cert && is_nil key
    then ok (cert, key, digests)
    else read_pair lib base cert key field digests

unfoldable pub is_tls_upstream : Text → Bool
unfolding has_prefix
is_tls_upstream upstream =
    has_prefix upstream (codes "https://")
    || has_prefix upstream (codes "postgresqls://")
    || has_prefix upstream (codes "mysqls://")

unfoldable pub validate_upstream_tls :
    Platform
    → Text
    → Text
    → Option UpstreamTls
    → Text
    → Digests
    → Result (Option UpstreamTls × Digests)
validate_upstream_tls lib base upstream none path digests = ok (none, digests)
validate_upstream_tls lib base upstream (some u) path digests = do
  check (not (is_tls_upstream upstream)) (path ++ codes ".upstream_tls") "requires a TLS upstream"
  check (is_nil u.ca_file && is_nil u.cert_file && is_nil u.key_file)
      (path ++ codes ".upstream_tls") "CA or client certificate/key is required"
  ca ← optional_ca lib base u.ca_file (path ++ codes ".upstream_tls.ca_file") digests
  pair ← optional_pair lib base u.cert_file u.key_file (path ++ codes ".upstream_tls") ca.1
  ok (some (record { ca_file = ca.0; cert_file = pair.0; key_file = pair.1 }), pair.2)

-- `p.TLS != nil && p.TLS.ClientCAFile != ""` and the certificate of the other leg.
unfoldable pub has_client_ca : Option ListenerTls → Bool
has_client_ca none = false
has_client_ca (some t) = not (is_nil t.client_ca_file)

unfoldable pub has_client_certificate : Option UpstreamTls → Bool
has_client_certificate none = false
has_client_certificate (some u) = not (is_nil u.cert_file) || not (is_nil u.key_file)

unfoldable pub validate_tls : Platform → Text → Proxy → Text → Digests → Result (Proxy × Digests)
unfolding has_prefix
validate_tls lib base p path digests = do
  check (is_database p.protocol && (has_client_ca p.tls || has_client_certificate p.upstream_tls))
      (path ++ codes ".tls") "database mTLS is unsupported"
  check
      (p.protocol == "mysql" && bool_ne (is_set p.tls) (has_prefix p.upstream (codes "mysqls://")))
      (path ++ codes ".tls") "mysql requires both TLS legs or both plaintext legs"
  listener ← validate_listener_tls lib base p.tls path digests
  upstream ← validate_upstream_tls lib base p.upstream p.upstream_tls path listener.1
  ok (record p { tls = listener.0; upstream_tls = upstream.0 }, upstream.1)
