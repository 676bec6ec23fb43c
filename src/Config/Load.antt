-- ===== src/Config/Load.antt =====
-- internal/config/load.go: `proxySources`, `sourceError` and `finish`, which makes the document of the proxies
-- that the root file and its fragments declare.
pub mod Unique
use faultline.Common.{
  ℕ, zero, suc, Bool, true, false, not, ◌&&◌, Option, none, some, List, [], ◌∷◌, ◌++◌, String, Text,
  ◌==◌, text_eq, is_nil, length, drop, if◌then◌else◌,
}
use faultline.Common.Strings.{codes, has_prefix}
use faultline.Config.Model.{Config, Proxy, Rule, ListenerTls, UpstreamTls}
use faultline.Config.Document.{Document}
use faultline.Config.Errors.{
  FieldError, Message, literal, followed_by, Result, ok, err, ◌>>=◌, ◌>>◌,
}
use faultline.Config.Platform.{Platform}
use faultline.Config.Tls.{Digests}
use faultline.Config.Validate.{indexed, validate}
use faultline.Config.Fingerprint.{new_document}

-- Where a proxy is declared.
pub record ProxySource : Type 0 where
  pub file : Text
  pub path : Text

unfoldable pub proxy_sources : Text → ℕ → ℕ → List ProxySource
proxy_sources file i zero = []
proxy_sources file i (suc count) =
    record { file = file; path = indexed (codes "proxies") i } ∷ proxy_sources file (suc i) count

unfoldable pub source_error : FieldError → Text → FieldError
source_error e file = record e { file = file }

-- The declaration that a name has so far, in a map from names.
abbrev pub find {ℓ} : {A : Type ℓ} → Text → List (Text × A) → Option A
find name [] = none
find name ((n, a) ∷ rest) = if n == name then some a else find name rest

abbrev pub duplicate : Text → Text → String → Text → FieldError
duplicate file path message place = record {
  file = file;
  path = path;
  message = followed_by message place;
}

-- The loop over the rules of a proxy; `rules` are the IDs so far with their indices.
unfoldable pub check_rule_ids : ProxySource → List Rule → ℕ → List (Text × ℕ) → Result (Unit {0})
check_rule_ids src [] j rules = ok tt
check_rule_ids src (r ∷ rs) j rules =
    let rest = check_rule_ids src rs (suc j) ((r.id, j) ∷ rules) in
    let rule_path = indexed (src.path ++ codes ".rules") in
    elim (find r.id rules) [
      | some previous ↦ err (
          duplicate src.file (rule_path j ++ codes ".id") "duplicate rule ID; first declaration: "
            (src.file ++ (codes ": " ++ (rule_path previous ++ codes ".id"))))
      | none ↦ rest
    ]

module _ (lib : Platform) where
  -- A path that is not absolute is one beside the file that declares it.
  unfoldable pub resolve : Text → Text → Text
  resolve file path =
      if not (is_nil path) && not (lib.is_abs path) then lib.join (lib.dir file) path else path

  abbrev pub resolve_listener : Text → Option ListenerTls → Option ListenerTls
  resolve_listener file none = none
  resolve_listener file (some t) = some (record {
    cert_file = resolve file t.cert_file;
    key_file = resolve file t.key_file;
    client_ca_file = resolve file t.client_ca_file;
  })

  abbrev pub resolve_upstream : Text → Option UpstreamTls → Option UpstreamTls
  resolve_upstream file none = none
  resolve_upstream file (some u) = some (record {
    ca_file = resolve file u.ca_file;
    cert_file = resolve file u.cert_file;
    key_file = resolve file u.key_file;
  })

  unfoldable pub resolve_paths : Text → Proxy → Proxy
  resolve_paths file p = record p {
    tls = resolve_listener file p.tls;
    upstream_tls = resolve_upstream file p.upstream_tls;
  }

  -- The loop over the proxies, each with its source; `ids` are the names so far.
  unfoldable pub declare_proxies :
      List (Proxy × ProxySource) → List (Text × ProxySource) → Result (List Proxy)
  declare_proxies [] ids = ok []
  declare_proxies ((p, src) ∷ rest) ids =
      let later = declare_proxies rest ((p.id, src) ∷ ids) in
      elim (find p.id ids) [
        | some previous ↦ err (
            duplicate src.file (src.path ++ codes ".id") "duplicate proxy ID; first declaration: "
              (previous.file ++ (codes ": " ++ (previous.path ++ codes ".id"))))
        | none ↦
            check_rule_ids src p.rules 0 [] >> (do ps ← later; ok (resolve_paths src.file p ∷ ps))
      ]

-- The error of `validate` is put where the proxy that it names is declared; without one, at the root.
unfoldable pub attribute : FieldError → List ProxySource → ℕ → Text → FieldError
unfolding has_prefix
attribute e [] i root = source_error e root
attribute e (src ∷ rest) i root =
    let later = attribute e rest (suc i) root in
    let prefix = indexed (codes "proxies") i in
    if has_prefix e.path (prefix ++ codes ".")
    then record e { file = src.file; path = src.path ++ drop (length prefix) e.path }
    else later

abbrev pub sources_of : List (Proxy × ProxySource) → List ProxySource
sources_of [] = []
sources_of ((p, src) ∷ rest) = src ∷ sources_of rest

module _ (lib : Platform) (marshal : Config → Digests → Option Text) where
  -- `none` is the error of `json.Marshal`, which is no field error.
  abbrev pub published : Config × Digests → Result (Option Document)
  published (c, digests) = ok (new_document marshal lib.sha256 c digests)

  -- The configuration without its proxies, which stand beside it with their sources.
  unfoldable pub finish : Config → List (Proxy × ProxySource) → Text → Result (Option Document)
  finish c declared root = declare_proxies lib declared [] >>= (λ ps.
      elim (validate lib (record c { proxies = ps }) (lib.dir root)) [
        | err e ↦ err (attribute e (sources_of declared) 0 root)
        | ok checked ↦ published checked
      ])
