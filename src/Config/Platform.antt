-- ===== src/Config/Platform.antt =====
-- What the validators use of Go's standard library and of the files: `net`, `net/url`, `path/filepath`,
-- `os`, `crypto` and `encoding/pem`, as an interface.
use faultline.Common.{Bool, Option, ◌++◌, Text, nat_eq, if◌then◌else◌}
use faultline.Common.Strings.{codes, has_byte}

-- `url.URL`, with what its methods `Hostname` and `Port` return.
pub record Url : Type 0 where
  pub scheme : Text
  pub has_user : Bool
  pub opaque : Text
  pub host : Text
  pub hostname : Text
  pub port : Text
  pub path : Text
  pub raw_query : Text
  pub force_query : Bool
  pub fragment : Text

-- `pem.Block`
pub record Block : Type 0 where
  pub kind : Text
  pub bytes : Text

pub record Platform : Type 0 where
  pub is_ip : Text → Bool
  pub split_host_port : Text → Option (Text × Text)
  pub parse_url : Text → Option Url
  pub is_abs : Text → Bool
  pub join : Text → Text → Text
  pub clean : Text → Text
  pub dir : Text → Text
  pub read_file : Text → Option Text
  pub sha256 : Text → Text
  -- Whether `tls.X509KeyPair` accepts a certificate and a key.
  pub key_pair : Text → Text → Bool
  pub decode_pem : Text → Option Block × Text
  -- Whether `x509.ParseCertificate` accepts the bytes.
  pub certificate : Text → Bool
  pub trim_space : Text → Text

-- `net.JoinHostPort`
unfoldable pub join_host_port : Text → Text → Text
join_host_port host port =
    if has_byte b':' host
    then codes "[" ++ (host ++ (codes "]:" ++ port))
    else host ++ (codes ":" ++ port)
