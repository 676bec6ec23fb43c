-- ===== src/Examples/Postgresql.antt =====
-- A short frame, and the five frames of a server that accepts a client.
use faultline.Common.{false, none, some, Option, List, [], ◌∷◌, ◌++◌, Text, ◌≡◌, arith}
use faultline.Common.Strings.{codes}
use faultline.Postgresql.Wire.{Frame, received, read_frame, write_frame, read_frame-write_frame}
use faultline.Postgresql.Authentication.{Round, Auth, scram}

abbrev sync : Frame
sync = record { kind = b'S'; body = [] }

read_frame-write_frame_example : read_frame (write_frame sync ++ 9 ∷ []) ≡ received sync (9 ∷ [])
read_frame-write_frame_example = read_frame-write_frame sync (9 ∷ []) (omega arith)

abbrev asked : Text → Option Frame → Round
asked body response = record {
  frame = record { kind = b'R'; body = body };
  response = response;
  key = [];
  client_fails = false;
  upstream_fails = false;
}

abbrev client_first : Frame
client_first = record { kind = b'p'; body = scram ++ (0 ∷ 0 ∷ 0 ∷ 11 ∷ codes "n,,n=,r=abc") }

abbrev client_final : Frame
client_final = record { kind = b'p'; body = codes "c=biws" }

abbrev rounds : List Round
rounds =
    asked ((0 ∷ 0 ∷ 0 ∷ 10 ∷ []) ++ scram) (some client_first)
    ∷ asked (0 ∷ 0 ∷ 0 ∷ 11 ∷ []) (some client_final)
    ∷ asked (0 ∷ 0 ∷ 0 ∷ 12 ∷ []) none
    ∷ asked (0 ∷ 0 ∷ 0 ∷ 0 ∷ []) none
    ∷ record (asked [] none) { frame = record { kind = b'Z'; body = b'I' ∷ [] } }
    ∷ []

abbrev accepted : Auth
accepted = record {
  stage = 4;
  backend_key = none;
  to_client =
      record { kind = b'R'; body = (0 ∷ 0 ∷ 0 ∷ 10 ∷ []) ++ scram }
      ∷ record { kind = b'R'; body = 0 ∷ 0 ∷ 0 ∷ 11 ∷ [] }
      ∷ record { kind = b'R'; body = 0 ∷ 0 ∷ 0 ∷ 12 ∷ [] }
      ∷ record { kind = b'R'; body = 0 ∷ 0 ∷ 0 ∷ 0 ∷ [] }
      ∷ record { kind = b'Z'; body = b'I' ∷ [] }
      ∷ [];
  to_upstream = client_first ∷ client_final ∷ [];
}
