-- ===== src/Postgresql/Stages.antt =====
-- internal/proxy/postgresql/session.go, `authenticate`: no stage of SCRAM is left out.
use faultline.Common.{
  ℕ, ◌≡◌, Bool, true, false, Option, none, some, List, [], ◌∷◌, ◌++◌, ◌==◌, nat_eq, if◌then◌else◌,
}
use faultline.Postgresql.Startup.{uint32_of}
use faultline.Postgresql.Authentication.{Round, Progress, going, ready, failed}

-- The codes that are still to come from a stage on.
abbrev pub remaining : ℕ → List ℕ
remaining stage =
    if stage == 0
    then 10 ∷ 11 ∷ 12 ∷ 0 ∷ []
    else if stage == 1
    then 11 ∷ 12 ∷ 0 ∷ []
    else if stage == 2
    then 12 ∷ 0 ∷ []
    else if stage == 3
    then 0 ∷ []
    else []

abbrev pub code_of : Option ℕ → List ℕ
code_of none = []
code_of (some code) = code ∷ []

-- The code of a round's authentication request.
abbrev pub code_in : Round → List ℕ
code_in r = if r.frame.kind == b'R' then code_of (uint32_of r.frame.body) else []

abbrev pub codes_in : List Round → List ℕ
codes_in [] = []
codes_in (r ∷ rounds) = code_in r ++ codes_in rounds

-- A request does not end the authentication with success.
abbrev is_ready : Progress → Bool
is_ready (ready a) = true
is_ready (going a) = false
is_ready (failed a) = false

-- The rounds up to the one that is ready.
pub record Complete (stage : ℕ) (rounds : List Round) : Type 0 where
  pub before : List Round
  pub behind : List Round
  pub splits : rounds ≡ before ++ behind
  pub codes : codes_in before ≡ remaining stage
