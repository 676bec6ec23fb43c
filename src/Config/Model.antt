-- ===== src/Config/Model.antt =====
-- internal/config/config.go: the document as it is decoded. A pointer field is an `Option`, a signed
-- integer or duration is a `ℤ`, a map is the list of its entries in the order of one iteration.
use faultline.Common.{ℕ, Bool, Option, List, String, Text}
use faultline.Common.Int.{ℤ}
use faultline.Common.Float.{Float64}

pub record Runtime : Type 0 where
  pub max_inflight_requests : ℤ
  pub request_timeout : ℤ

pub record ListenerTls : Type 0 where
  pub cert_file : Text
  pub key_file : Text
  pub client_ca_file : Text

pub record UpstreamTls : Type 0 where
  pub ca_file : Text
  pub cert_file : Text
  pub key_file : Text

pub record Matcher : Type 0 where
  pub path_pattern : Text
  pub method : Text
  pub service : Text
  pub path : Text
  pub headers : List (Text × Text)

pub record Selector : Type 0 where
  pub probability : Option Float64
  pub nth : Option ℕ
  pub every : Option ℕ

pub record Fault : Type 0 where
  pub phase : String
  pub action : String
  pub duration : Option ℤ
  pub max_duration : Option ℤ
  pub status : Option ℤ
  pub body : Option Text
  pub direction : String
  pub bytes : Option ℤ
  pub bytes_per_second : Option ℤ
  pub after_bytes : Option ℤ
  pub after_duration : Option ℤ
  pub trigger_direction : String

pub record Rule : Type 0 where
  pub id : Text
  pub enabled : Bool
  pub matcher : Matcher
  pub select : Selector
  pub fault : Fault

pub record Proxy : Type 0 where
  pub id : Text
  pub protocol : String
  pub upstream_protocol : String
  pub listen : Text
  pub upstream : Text
  pub tls : Option ListenerTls
  pub upstream_tls : Option UpstreamTls
  pub rules : List Rule

pub record Config : Type 0 where
  pub api_version : String
  pub seed : ℕ
  pub runtime : Runtime
  pub proxies : List Proxy

abbrev pub after_commit : String
after_commit = "after_commit"

abbrev pub before_upstream_request : String
before_upstream_request = "before_upstream_request"

abbrev pub after_upstream_headers : String
after_upstream_headers = "after_upstream_headers"

abbrev pub tcp_on_connect : String
tcp_on_connect = "on_connect"

abbrev pub tcp_on_transfer : String
tcp_on_transfer = "on_transfer"
