-- ===== src/Config/Validate.antt =====
-- internal/config/validate.go, `validate`: the loops over the proxies and over the rules of each. What the
-- code writes into the configuration is the configuration that it returns.
pub mod Valid
pub mod Steps
pub mod Proxies
pub mod Engines
use faultline.Common.{
  ℕ, suc, ◌+◌, Bool, true, false, not, ◌&&◌, ◌||◌, Option, none, some, List, [], ◌∷◌, ◌++◌, String,
  Text, ◌==◌, string_eq, text_eq, is_nil, contains, if◌then◌else◌,
}
use faultline.Common.Strings.{codes}
use faultline.Common.Decimal.{itoa}
use faultline.Common.Int.{ℤ, pos, ltb_ℤ}
use faultline.Config.Model.{Config, Proxy, Rule}
use faultline.Config.Errors.{Result, ok, err, invalid, ◌>>=◌, ◌>>◌, check}
use faultline.Config.Names.{identifier}
use faultline.Config.Faults.{actions}
use faultline.Config.Rules.{validate_rule, validate_tcp_rule, validate_commit_rule}
use faultline.Config.Platform.{Platform}
use faultline.Config.Listener.{is_database, validate_protocol, validate_listen}
use faultline.Config.Upstream.{validate_tcp_upstream, validate_origin}
use faultline.Config.Tls.{Digests, validate_tls}

-- `path[i]`
unfoldable pub indexed : Text → ℕ → Text
indexed path i = path ++ (codes "[" ++ (itoa i ++ codes "]"))

unfoldable pub validate_by_protocol : String → Rule → Text → Result Rule
unfolding is_database
validate_by_protocol protocol r path =
    if is_database protocol
    then validate_commit_rule r path
    else if protocol == "tcp"
    then validate_tcp_rule r path
    else validate_rule r path

-- The body of the loop over the rules.
unfoldable pub validate_proxy_rule : String → Rule → Text → Result Rule
validate_proxy_rule protocol r path = do
  check (not (identifier r.id)) (path ++ codes ".id") "expected a nonempty identifier"
  check (not (protocol == "grpc") && not (is_nil r.matcher.service))
      (path ++ codes ".match.service") "requires grpc"
  check (not (is_nil r.matcher.service) && not (identifier r.matcher.service))
      (path ++ codes ".match.service") "invalid service name"
  check (not (contains (actions protocol) r.fault.action)) (path ++ codes ".fault.action")
      "unsupported capability for protocol"
  validate_by_protocol protocol r path

unfoldable pub validate_rules : String → List Rule → ℕ → Text → Result (List Rule)
validate_rules protocol [] j path = ok []
validate_rules protocol (r ∷ rs) j path =
    let rest = validate_rules protocol rs (suc j) path in
    do
      r' ← validate_proxy_rule protocol r (indexed (path ++ codes ".rules") j)
      rs' ← rest
      ok (r' ∷ rs')

-- The upstream, and with it the files for TLS.
unfoldable pub validate_upstream :
    Platform → Text → Proxy → Text → Digests → Result (Proxy × Digests)
validate_upstream lib base p path digests =
    if p.protocol == "tcp"
    then validate_tcp_upstream lib p path >>= (λ q. ok (q, digests))
    else validate_origin lib p path >>= (λ q. validate_tls lib base q path digests)

-- The body of the loop over the proxies; `seen` are the listeners so far.
unfoldable pub validate_proxy :
    Platform → Text → Proxy → Text → List Text → Digests → Result (Proxy × Digests)
validate_proxy lib base p path seen digests = do
  check (not (identifier p.id)) (path ++ codes ".id") "expected a nonempty identifier"
  named ← validate_protocol p path
  listening ← validate_listen lib named path seen
  upstream ← validate_upstream lib base listening path digests
  rules ← validate_rules upstream.0.protocol upstream.0.rules 0 path
  ok (record upstream.0 { rules = rules }, upstream.1)

unfoldable pub validate_proxies :
    Platform → Text → List Proxy → ℕ → List Text → Digests → Result (List Proxy × Digests)
validate_proxies lib base [] i seen digests = ok ([], digests)
validate_proxies lib base (p ∷ ps) i seen digests =
    validate_proxy lib base p (indexed (codes "proxies") i) seen digests >>= (λ first.
      validate_proxies lib base ps (suc i) (first.0.listen ∷ seen) first.1
      >>= (λ rest. ok (first.0 ∷ rest.0, rest.1)))

abbrev pub version : String
version = "faultline/v1alpha1"

unfoldable pub validate : Platform → Config → Text → Result (Config × Digests)
validate lib c base = do
  check (not (c.api_version == version)) (codes "api_version") "unsupported or missing version"
  check (not (ltb_ℤ (pos 0) c.runtime.max_inflight_requests))
      (codes "runtime.max_inflight_requests") "must be positive"
  check (not (ltb_ℤ (pos 0) c.runtime.request_timeout)) (codes "runtime.request_timeout")
      "must be positive"
  check (is_nil c.proxies) (codes "proxies") "at least one proxy is required"
  proxies ← validate_proxies lib base c.proxies 0 [] []
  ok (record c { proxies = proxies.0 }, proxies.1)
