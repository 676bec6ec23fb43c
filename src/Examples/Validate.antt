-- ===== src/Examples/Validate.antt =====
-- A concrete configuration, a platform that reads its names, and the documents made of it.
use mathlib.Core.List.{Permᴰ}
use faultline.Common.{
  ℕ, ◌<◌, true, false, Option, none, some, List, [], ◌∷◌, ◌++◌, map, Text, ◌≡◌, refl, arith, drop,
  length, if◌then◌else◌, text_beq,
}
use faultline.Common.Strings.{codes, cut, is_letter, is_digit, has_prefix, split, has_suffix}
use faultline.Common.Int.{pos}
use faultline.Common.Float.{Float64, zero_float}
use faultline.Config.Model.{Config, Proxy, Rule}
use faultline.Config.Document.{Document, equal, restart_compatible}
use faultline.Config.Errors.{Result, ok}
use faultline.Config.Platform.{Platform, Url, Block, join_host_port}
use faultline.Config.Tls.{
  Digests, certificates, validate_listener_tls, validate_upstream_tls, has_client_ca,
  has_client_certificate, validate_tls,
}
use faultline.Config.Tls.Total.{Ends, certificates-Ends}
use faultline.Config.Validate.{
  validate, version, indexed, validate_by_protocol, validate_proxy_rule, validate_rules,
  validate_upstream, validate_proxy, validate_proxies,
}
use faultline.Config.Validate.Proxies.{IsValid, names, validate-IsValid}
use faultline.Config.Validate.Engines.{validate-run}
use faultline.Config.Fingerprint.{new_document, restart_part, canonical, sort, insert, text_lt}
use faultline.Config.Fingerprint.Prints.{DiffersInRules, new_document-Perm, new_document-restart}
use faultline.Config.Load.{ProxySource, finish, declare_proxies, check_rule_ids, resolve_paths}
use faultline.Config.Load.Unique.{HasDistinctNames, finish-IsValid}
use faultline.Engine.State.{Engine, new}
use faultline.Engine.State.Runs.{Call, run, AllRules}
use faultline.Engine.State.Counting.{IsCounted}
use faultline.Common.Decimal.{parse_digits, all_digits, digits_of, atoi}
use faultline.Config.Names.{identifier_byte, token_byte, identifier, token}
use faultline.Config.Listener.{
  hostname_byte, valid_label, hostname, valid_upstream_scheme, is_database, known_protocol,
  default_upstream_protocol, bad_upstream_protocol, validate_protocol, port_number, listen_address,
  validate_listen,
}
use faultline.Config.Upstream.{
  bad_origin, origin_message, default_port, normal_port, shown_port, origin_host, validate_origin,
}
use faultline.Config.Rules.{validate_headers, default_body, validate_matcher, validate_rule}
use faultline.Config.Faults.{actions, action_fields, unused_fields, validate_fault}
use faultline.Config.Selector.{validate_probability, validate_selector}
use faultline.Examples.Config.{answer_second}
use faultline.Examples.Engine.{call}

-- A reader of `host:port`, and one of `scheme://host:port`.
abbrev read_address : Text → Option (Text × Text)
read_address s = let (host, port, found) = cut b':' s in if found then some (host, port) else none

abbrev read_url : Text → Option Url
read_url s =
    let (scheme, behind, found) = cut b':' s in
    let (host, port, given) = cut b':' (drop 2 behind) in
    if found
    then some (record {
      scheme = scheme;
      has_user = false;
      opaque = [];
      host = drop 2 behind;
      hostname = host;
      port = port;
      path = [];
      raw_query = [];
      force_query = false;
      fragment = [];
    })
    else none

-- Each byte is a block.
abbrev read_block : Text → Option Block × Text
read_block [] = (none, [])
read_block (b ∷ bs) = (some (record { kind = codes "CERTIFICATE"; bytes = b ∷ [] }), bs)

abbrev platform : Platform
platform = record {
  is_ip = λ s. false;
  split_host_port = read_address;
  parse_url = read_url;
  is_abs = λ s. true;
  join = λ s t. s ++ t;
  clean = λ s. s;
  dir = λ s. s;
  read_file = λ s. some s;
  sha256 = λ s. s;
  key_pair = λ s t. true;
  decode_pem = read_block;
  certificate = λ s. true;
  trim_space = λ s. s;
}

abbrev answering : Rule
answering = record answer_second { fault = record answer_second.fault { body = some [] } }

abbrev proxy_at : Text → Text → Proxy
proxy_at id listen = record {
  id = id;
  protocol = "http1";
  upstream_protocol = "http1";
  listen = listen;
  upstream = codes "http://a:8080";
  tls = none;
  upstream_tls = none;
  rules = answering ∷ [];
}

abbrev pub config : Config
config = record {
  api_version = version;
  seed = 7;
  runtime = record { max_inflight_requests = pos 8; request_timeout = pos 1000 };
  proxies = proxy_at (codes "p") (codes "b:80") ∷ proxy_at (codes "q") (codes "b:81") ∷ [];
}

config_accepted : validate platform config [] ≡ ok (config, [])
unfolding is_letter is_digit has_prefix cut split has_suffix parse_digits all_digits digits_of atoi
    identifier_byte token_byte identifier token hostname_byte valid_label hostname
    valid_upstream_scheme is_database known_protocol default_upstream_protocol bad_upstream_protocol
    validate_protocol port_number listen_address validate_listen join_host_port bad_origin
    origin_message default_port normal_port shown_port origin_host validate_origin
    validate_listener_tls validate_upstream_tls has_client_ca has_client_certificate validate_tls
    indexed validate_by_protocol validate_proxy_rule validate_rules validate_upstream validate_proxy
    validate_proxies validate validate_headers default_body validate_matcher validate_rule actions
    action_fields unused_fields validate_fault validate_selector text_beq validate_probability
config_accepted = refl

validate-IsValid_example : IsValid config × (map names config.proxies ≡ map names config.proxies)
validate-IsValid_example = validate-IsValid platform config [] config [] config_accepted

abbrev document : Document
document = record { config = config; valid = true; fingerprint = []; restart_fingerprint = [] }

-- A generator that always draws zero.
abbrev draw_zero : Unit {0} → Float64 × Unit {0}
draw_zero u = (zero_float, u)

abbrev calls : List Call
calls = call ∷ call ∷ []

validate-run_example :
    (e : Engine (Unit {0})) × (new (λ a b. tt) (λ s. s) (some document) ≡ some e)
    × (e' : Engine (Unit {0})) × (run draw_zero e calls ≡ some e')
    × AllRules (IsCounted (length calls)) e'
validate-run_example =
    validate-run (λ a b. tt) (λ s. s) draw_zero platform config [] [] document calls config_accepted
      refl (omega arith)

-- An encoding that only tells how many proxies there are.
abbrev count_proxies : Config → Digests → Option Text
count_proxies c digests = some (length c.proxies ∷ [])

abbrev published : Config → Document
published c = record {
  config = c;
  valid = true;
  fingerprint = 2 ∷ [];
  restart_fingerprint = 2 ∷ [];
}

abbrev source : ProxySource
source = record { file = codes "f"; path = codes "p" }

abbrev declared : List (Proxy × ProxySource)
declared = map (λ p. (p, source)) config.proxies

config_declared : declare_proxies platform declared [] ≡ ok config.proxies
unfolding declare_proxies check_rule_ids resolve_paths text_beq
config_declared = refl

finish_steps :
    (lib : Platform) (marshal : Config → Digests → Option Text) (c : Config)
    (entries : List (Proxy × ProxySource)) (root : Text) (ps : List Proxy)
    (checked : Config × Digests)
    → declare_proxies lib entries [] ≡ ok ps
    → validate lib (record c { proxies = ps }) (lib.dir root) ≡ ok checked
    → finish lib marshal c entries root ≡ ok (new_document marshal lib.sha256 checked.0 checked.1)
unfolding finish
finish_steps lib marshal c entries root ps checked h h' = ground (arith, h, h')

config_published : finish platform count_proxies config declared [] ≡ ok (some (published config))
unfolding new_document canonical sort insert text_lt restart_part
config_published =
    finish_steps platform count_proxies config declared [] config.proxies (config, [])
      config_declared config_accepted

finish-IsValid_example :
    (true ≡ true) × IsValid config × HasDistinctNames (map names config.proxies)
finish-IsValid_example =
    finish-IsValid platform count_proxies config declared [] (published config) config_published

abbrev swapped : List Proxy
swapped = proxy_at (codes "q") (codes "b:81") ∷ proxy_at (codes "p") (codes "b:80") ∷ []

new_document-Perm_example :
    (equal (some (published config)) (some (published (record config { proxies = swapped })))
      ≡ true)
    × (restart_compatible
          (some (published config))
          (some (published (record config { proxies = swapped })))
        ≡ true)
unfolding new_document canonical sort insert text_lt restart_part
new_document-Perm_example =
    new_document-Perm count_proxies (λ s. s) [] config swapped (published config)
      (published (record config { proxies = swapped })) (((λ e. ground (arith, e)), tt), (tt, tt))
      (Permᴰ.swap refl refl) refl refl

abbrev unruled : Proxy → Proxy
unruled p = record p { rules = [] }

abbrev reseeded : Config
reseeded = record config { seed = 8; proxies = map unruled config.proxies }

rules_removed : DiffersInRules config reseeded
rules_removed = ground arith

new_document-restart_example :
    restart_compatible (some (published config)) (some (published reseeded)) ≡ true
unfolding new_document canonical sort insert text_lt restart_part
new_document-restart_example =
    new_document-restart count_proxies (λ s. s) [] config reseeded (published config)
      (published reseeded) rules_removed refl refl

two_blocks :
    (file : Text) (block : Block) (behind : Text)
    → platform.decode_pem file ≡ (some block, behind)
    → length behind < length file
two_blocks [] block behind h = absurd (ground arith)
two_blocks (b ∷ bs) block behind h = ground arith

certificates-Ends_example :
    (r : Result ℕ) × (certificates platform 2 (1 ∷ 2 ∷ []) 0 [] ≡ some r)
    × Ends platform (1 ∷ 2 ∷ []) 0 r
certificates-Ends_example =
    certificates-Ends platform two_blocks (λ file. omega arith) 2 (1 ∷ 2 ∷ []) 0 [] (omega arith)
