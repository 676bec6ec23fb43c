-- ===== src/Postgresql/Authentication.antt =====
-- internal/proxy/postgresql/session.go, `authenticate`: the stages of SCRAM between the server and the client. What
-- the server and the client send, the random keys and the failures of the writes are the rounds; the outputs
-- are the frames written so far.
use faultline.Common.{
  ℕ, ◌-◌, Bool, true, false, not, ◌&&◌, ◌||◌, Option, none, some, List, [], ◌∷◌, ◌++◌, Text, ◌==◌,
  nat_eq, text_eq, length, drop, is_nil, ltb, if◌then◌else◌,
}
use faultline.Common.Strings.{codes, cut, has_prefix}
use faultline.Postgresql.Wire.{Frame}
use faultline.Postgresql.Startup.{uint32_of, is_number}

-- A frame of the server, the client's answer if one is read, a random key, and whether the writes fail.
pub record Round : Type 0 where
  pub frame : Frame
  pub response : Option Frame
  pub key : Text
  pub client_fails : Bool
  pub upstream_fails : Bool

-- `keyed` says that a session is registered under a key; `backend_key` is the server's own.
pub record Auth : Type 0 where
  pub stage : ℕ
  pub backend_key : Option Text
  pub to_client : List Frame
  pub to_upstream : List Frame

-- A round goes on, ends with the server ready, or ends with an error.
pub data Progress : Type 0 where
  going ready failed : Auth → Progress

abbrev pub initial : Auth
initial = record { stage = 0; backend_key = none; to_client = []; to_upstream = [] }

-- `reject`, whose error is ignored.
abbrev pub rejection : Frame
rejection = record {
  kind = b'E';
  body =
      codes "SFATAL"
      ++ (0 ∷ codes "C0A000")
      ++ (0 ∷ codes "MFaultline: unsupported protocol, authentication or operation")
      ++ (0 ∷ 0 ∷ []);
}

abbrev pub to_client : Frame → Auth → Auth
to_client f a = record a { to_client = a.to_client ++ f ∷ [] }

unfoldable pub refused : Round → Auth → Progress
refused r a = failed (if r.client_fails then a else to_client rejection a)

-- `bytes.Contains`
unfoldable pub has_part : Text → Text → Bool
has_part part [] = is_nil part
has_part part (c ∷ cs) = has_prefix (c ∷ cs) part || has_part part cs

abbrev pub scram : Text
scram = codes "SCRAM-SHA-256" ++ (0 ∷ [])

-- The stage behind an authentication request with the given code.
unfoldable pub next_stage : ℕ → ℕ → Text → Option ℕ
next_stage code stage body =
    if code == 10
    then (if not (stage == 0) || not (has_part scram (drop 4 body)) then none else some 1)
    else if code == 11
    then (if not (stage == 1) then none else some 2)
    else if code == 12
    then (if not (stage == 2) then none else some 3)
    else if code == 0
    then (if not (stage == 3) then none else some 4)
    else none

-- The client's first answer: the mechanism's name, and behind it a length and that many bytes.
unfoldable pub initial_response : Text → Bool
initial_response body =
    let (name, message, more) = cut 0 body in
    more
    && name == codes "SCRAM-SHA-256"
    && not (ltb (length message) 4)
    && is_number (length message - 4) (uint32_of message)
    && has_prefix (drop 4 message) (codes "n,,")

unfoldable pub answer_to : ℕ → Round → Option Frame → Auth → Progress
answer_to code r none a = failed a
answer_to code r (some response) a =
    if not (response.kind == b'p')
    then refused r a
    else if code == 10 && not (initial_response response.body)
    then refused r a
    else if r.upstream_fails
    then failed a
    else going (record a { to_upstream = a.to_upstream ++ response ∷ [] })

-- A request with its code, in a stage that allows it or not.
unfoldable pub request_in : Option ℕ → ℕ → Round → Auth → Progress
request_in none code r a = refused r a
request_in (some stage) code r a =
    let b = to_client r.frame (record a { stage = stage }) in
    if r.client_fails
    then failed (record a { stage = stage })
    else if code == 10 || code == 11
    then answer_to code r r.response b
    else going b

unfoldable pub request : Option ℕ → Round → Auth → Progress
request none r a = refused r a
request (some code) r a = request_in (next_stage code a.stage r.frame.body) code r a

abbrev pub is_set : Option Text → Bool
is_set none = false
is_set (some t) = true

-- The write of the frame to the client.
unfoldable pub pass : Frame → Round → Auth → Progress
pass f r a = if r.client_fails then failed a else going (to_client f a)

-- One round of the loop.
unfoldable pub authenticate_round : Round → Auth → Progress
authenticate_round r a =
    if r.frame.kind == b'R'
    then request (uint32_of r.frame.body) r a
    else if r.frame.kind == b'K'
    then (if not (length r.frame.body == 8) || is_set a.backend_key
        then failed a
        else pass (record { kind = b'K'; body = r.key }) r
            (record a { backend_key = some r.frame.body }))
    else if r.frame.kind == b'Z'
    then (if not (a.stage == 4) || not (r.frame.body == (b'I' ∷ []))
        then failed a
        else if r.client_fails
        then failed a
        else ready (to_client r.frame a))
    else if r.frame.kind == b'E'
    then failed (if r.client_fails then a else to_client r.frame a)
    else if r.frame.kind == b'S' || r.frame.kind == b'N'
    then pass r.frame r a
    else refused r a

abbrev pub continue : Progress → (Auth → Progress) → Progress
continue (going a) rest = rest a
continue (ready a) rest = ready a
continue (failed a) rest = failed a

-- `authenticate`: the read behind the last round fails.
unfoldable pub authenticate : List Round → Auth → Progress
authenticate [] a = failed a
authenticate (r ∷ rounds) a = continue (authenticate_round r a) (authenticate rounds)
