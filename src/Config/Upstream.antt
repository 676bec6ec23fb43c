-- ===== src/Config/Upstream.antt =====
-- internal/config/validate.go: what `validate` does with the upstream of one proxy.
use faultline.Common.{
  Bool, true, not, ◌&&◌, ◌||◌, [], ◌++◌, String, Text, ◌==◌, nat_eq, string_eq, text_eq, is_nil,
  if◌then◌else◌,
}
use faultline.Common.Strings.{codes, has_byte, has_suffix, to_lower}
use faultline.Common.Decimal.{itoa}
use faultline.Config.Model.{Proxy}
use faultline.Config.Errors.{Result, ok, ◌>>=◌, ◌>>◌, check}
use faultline.Config.Faults.{is_set}
use faultline.Config.Platform.{Platform, Url, join_host_port}
use faultline.Config.Listener.{hostname, valid_upstream_scheme, is_database, required, port_number}

unfoldable pub bad_tcp_url : Platform → Url → Bool
unfolding hostname
bad_tcp_url lib u =
    not (u.scheme == codes "tcp")
    || u.has_user
    || not (is_nil u.opaque)
    || not (is_nil u.path)
    || not (is_nil u.raw_query)
    || u.force_query
    || not (is_nil u.fragment)
    || not (hostname lib u.hostname)
    || is_nil u.port

-- The listener is the normal one that the proxy has by now.
unfoldable pub validate_tcp_upstream : Platform → Proxy → Text → Result Proxy
validate_tcp_upstream lib p path = do
  u ←
      required (lib.parse_url p.upstream) (path ++ codes ".upstream")
        "expected tcp://host:port without credentials or path"
  check (bad_tcp_url lib u) (path ++ codes ".upstream")
      "expected tcp://host:port without credentials or path"
  n ← required (port_number u.port) (path ++ codes ".upstream") "invalid port"
  check (join_host_port (to_lower u.hostname) (itoa n) == p.listen) (path ++ codes ".upstream")
      "upstream cannot equal listener"
  check (is_set p.tls || is_set p.upstream_tls) (path ++ codes ".tls")
      "tcp passthrough does not terminate TLS"
  ok (record p { upstream = codes "tcp://" ++ join_host_port (to_lower u.hostname) (itoa n) })

unfoldable pub bad_origin : Platform → Proxy → Url → Bool
unfolding hostname valid_upstream_scheme
bad_origin lib p u =
    not (valid_upstream_scheme p.protocol u.scheme)
    || u.has_user
    || not (hostname lib u.hostname)
    || not (is_nil u.opaque)
    || not (is_nil u.path) && not (u.path == codes "/")
    || not (is_nil u.raw_query)
    || u.force_query
    || has_byte b'#' p.upstream

-- The message is built from the protocol of a database.
unfoldable pub origin_message : String → String
origin_message protocol =
    if protocol == "postgresql"
    then "expected a postgresql(s) origin without credentials, path, query or fragment"
    else if protocol == "mysql"
    then "expected a mysql(s) origin without credentials, path, query or fragment"
    else "expected a HTTP(S) origin without credentials, path, query or fragment"

unfoldable pub default_port : String → Url → Text
unfolding is_database has_suffix
default_port protocol u =
    if is_database protocol && is_nil u.port && not (has_suffix u.host (codes ":"))
    then (if protocol == "mysql" then codes "3306" else codes "5432")
    else u.port

-- The port in its normal form, empty when there is none.
unfoldable pub normal_port : Url → Text → Text → Result Text
unfolding has_suffix
normal_port u port path =
    if not (is_nil port)
    then required (port_number port) path "invalid port" >>= (λ n. ok (itoa n))
    else if has_suffix u.host (codes ":")
    then check true path "invalid port" >> ok []
    else ok []

-- The default port of the scheme is left out.
unfoldable pub shown_port : Text → Text → Text
shown_port scheme port =
    if port == codes "80" && scheme == codes "http"
      || port == codes "443" && scheme == codes "https"
    then []
    else port

unfoldable pub origin_host : Text → Text → Text
origin_host host port =
    if not (is_nil port)
    then join_host_port host port
    else if has_byte b':' host
    then codes "[" ++ (host ++ codes "]")
    else host

unfoldable pub validate_origin : Platform → Proxy → Text → Result Proxy
validate_origin lib p path = do
  u ← required (lib.parse_url p.upstream) (path ++ codes ".upstream") (origin_message p.protocol)
  check (bad_origin lib p u) (path ++ codes ".upstream") (origin_message p.protocol)
  port ← normal_port u (default_port p.protocol u) (path ++ codes ".upstream")
  ok (record p {
    upstream =
        u.scheme ++ (codes "://" ++ origin_host (to_lower u.hostname) (shown_port u.scheme port));
  })
