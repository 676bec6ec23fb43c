-- ===== src/Config/Listener.antt =====
-- internal/config/validate.go: what `validate` does with the names, the listener and the upstream of one
-- proxy, and `hostname` and `validUpstreamScheme`.
use faultline.Common.{
  ℕ, Bool, true, not, ◌&&◌, ◌||◌, Option, none, some, List, [], ◌∷◌, ◌++◌, String, Text, ◌==◌,
  nat_eq, string_eq, text_eq, is_nil, contains, length, take, ltb, ◌-◌, if◌then◌else◌,
}
use faultline.Common.Strings.{codes, is_letter, is_digit, has_prefix, has_suffix, split, to_lower}
use faultline.Common.Decimal.{atoi, itoa}
use faultline.Common.Int.{ℤ, pos, negsuc}
use faultline.Config.Model.{Proxy}
use faultline.Config.Errors.{Result, ok, err, invalid, ◌>>=◌, ◌>>◌, check}
use faultline.Config.Names.{all_bytes}
use faultline.Config.Platform.{Platform, join_host_port}

unfoldable pub hostname_byte : ℕ → Bool
unfolding is_letter is_digit
hostname_byte c = is_letter c || is_digit c || c == b'-'

-- `label[len(label)-1] == '-'` is the test on the suffix.
unfoldable pub valid_label : Text → Bool
unfolding has_prefix has_suffix
valid_label label =
    not (is_nil label)
    && not (ltb 63 (length label))
    && not (has_prefix label (codes "-"))
    && not (has_suffix label (codes "-"))
    && all_bytes hostname_byte label

abbrev pub all_labels : List Text → Bool
all_labels [] = true
all_labels (label ∷ labels) = valid_label label && all_labels labels

-- `strings.TrimSuffix`
abbrev pub trim_suffix : Text → Text → Text
trim_suffix s suffix = if has_suffix s suffix then take (length s - length suffix) s else s

unfoldable pub hostname : Platform → Text → Bool
unfolding split has_suffix
hostname lib s =
    lib.is_ip s
    || not (is_nil s)
      && not (ltb 253 (length s))
      && all_labels (split b'.' (trim_suffix s (codes ".")))

unfoldable pub valid_upstream_scheme : String → Text → Bool
valid_upstream_scheme protocol scheme =
    if protocol == "postgresql" || protocol == "mysql"
    then scheme == codes protocol || scheme == codes protocol ++ codes "s"
    else scheme == codes "http" || scheme == codes "https"

-- `p.Protocol == "postgresql" || p.Protocol == "mysql"`
unfoldable pub is_database : String → Bool
is_database protocol = protocol == "postgresql" || protocol == "mysql"

unfoldable pub known_protocol : String → Bool
unfolding is_database
known_protocol protocol =
    protocol == "http1"
    || protocol == "http2"
    || protocol == "grpc"
    || is_database protocol
    || protocol == "tcp"

unfoldable pub default_upstream_protocol : Proxy → String
default_upstream_protocol p =
    if not (p.upstream_protocol == "")
    then p.upstream_protocol
    else if p.protocol == "grpc"
    then "http2"
    else p.protocol

unfoldable pub bad_upstream_protocol : String → String → Bool
bad_upstream_protocol protocol upstream =
    not (upstream == "http1") && not (upstream == "http2")
    || protocol == "grpc" && not (upstream == "http2")

-- The two protocols of a proxy.
unfoldable pub validate_protocol : Proxy → Text → Result Proxy
unfolding is_database
validate_protocol p path =
    let upstream = default_upstream_protocol p in
    let raw = is_database p.protocol || p.protocol == "tcp" in
    do
      check (not (known_protocol p.protocol)) (path ++ codes ".protocol")
          "expected http1, http2, grpc, postgresql, mysql or tcp"
      check (raw && not (upstream == p.protocol)) (path ++ codes ".upstream_protocol")
          "upstream protocol must match listener"
      check (not raw && bad_upstream_protocol p.protocol upstream)
          (path ++ codes ".upstream_protocol") "expected http1 or http2; grpc requires http2"
      ok (record p { upstream_protocol = upstream })

-- `strconv.Atoi` and the range of a port.
abbrev pub in_range : Option ℤ → Option ℕ
in_range none = none
in_range (some (negsuc n)) = none
in_range (some (pos n)) = if ltb n 1 || ltb 65535 n then none else some n

unfoldable pub port_number : Text → Option ℕ
unfolding atoi
port_number port = in_range (atoi port)

abbrev pub required {ℓ} : {A : Type ℓ} → Option A → Text → String → Result A
required none path message = err (invalid path message)
required (some a) path message = ok a

-- The host and the port of `p.Listen`, without a host the loopback address.
unfoldable pub listen_address : Platform → Text → Text → Result (Text × ℕ)
unfolding hostname
listen_address lib listen path = do
  address ← required (lib.split_host_port listen) path "expected host:port with port 1–65535"
  number ← required (port_number address.1) path "expected host:port with port 1–65535"
  check (not (is_nil address.0) && not (hostname lib address.0)) path
      "expected host:port with port 1–65535"
  ok ((if is_nil address.0 then codes "127.0.0.1" else address.0), number)

-- `seen` are the listeners of the proxies before.
unfoldable pub validate_listen : Platform → Proxy → Text → List Text → Result Proxy
validate_listen lib p path seen = do
  address ← listen_address lib p.listen (path ++ codes ".listen")
  check (contains seen (join_host_port (to_lower address.0) (itoa address.1)))
      (path ++ codes ".listen") "duplicate listener"
  ok (record p { listen = join_host_port (to_lower address.0) (itoa address.1) })
