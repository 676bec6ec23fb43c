-- ===== src/Grpc/Metadata.antt =====
-- internal/proxy/grpc/protocol.go, `Metadata`: the service and the method of a call, and whether it is one.
use faultline.Common.{
  ℕ, Bool, not, ◌&&◌, ◌||◌, Option, none, some, List, [], ◌∷◌, Text, ◌==◌, nat_eq, text_eq, is_nil,
  if◌then◌else◌,
}
use faultline.Common.Strings.{codes, has_prefix, has_byte, cut}
use faultline.Engine.Match.{Metadata}

-- `http.Request`, as far as the proxy reads it. The header's keys are in canonical form.
pub record Request : Type 0 where
  pub major : ℕ
  pub minor : ℕ
  pub method : Text
  pub path : Text
  pub absolute : Bool
  pub headers : List (Text × List Text)
  pub has_body : Bool

-- `Header.Values` and `Header.Get`
unfoldable pub header_values : Text → List (Text × List Text) → List Text
header_values name [] = []
header_values name ((key, values) ∷ rest) = if key == name then values else header_values name rest

abbrev pub first_text : List Text → Text
first_text [] = []
first_text (value ∷ rest) = value

abbrev pub header_get : Text → List (Text × List Text) → Text
header_get name headers = first_text (header_values name headers)

-- `strings.TrimPrefix(path, "/")`
abbrev pub trim_slash : Text → Text
trim_slash [] = []
trim_slash (c ∷ cs) = if c == b'/' then cs else c ∷ cs

-- The content type in front of the first semicolon.
abbrev pub content_type : Request → Text
content_type r = (cut b';' (header_get (codes "Content-Type") r.headers)).0

unfoldable pub is_grpc_content : Text → Bool
is_grpc_content content =
    content == codes "application/grpc" || has_prefix content (codes "application/grpc+")

-- `none` is the second result `false`.
unfoldable pub grpc_metadata : Request → Option Metadata
grpc_metadata r =
    let (service, method, found) = cut b'/' (trim_slash r.path) in
    let valid =
      r.major == 2
      && r.method == codes "POST"
      && is_grpc_content (content_type r)
      && found
      && not (is_nil service)
      && not (is_nil method)
      && not (has_byte b'/' method) in
    if valid
    then some (record { method = method; service = service; path = r.path; headers = r.headers })
    else none
