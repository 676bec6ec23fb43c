-- ===== src/Engine/State/FirstMatch.antt =====
-- Which rule `Decide` acts on, and what it leaves alone.
use mathlib.Core.Option
use mathlib.Core.Path.{subst}
use faultline.Common.{
  true, false, Option, none, some, List, [], ◌∷◌, ◌++◌, ◌≡◌, refl, ap, arith, All, Bool-cases, ◌⊎◌,
  inl, inr,
}
use faultline.Common.Float.{Float64}
use faultline.Engine.Match.{Metadata}
use faultline.Engine.State.{RuleState, Decision, attempt, applies, decide_rules}

module _ {R : Type 0} where
  abbrev pub Misses : Metadata → List (RuleState R) → Type 0
  Misses metadata = All (λ s. applies s metadata ≡ false)

  -- The first rule that is enabled and matches, with the rules before and behind it.
  pub record FirstMatch (rules : List (RuleState R)) (metadata : Metadata) : Type 0 where
    pub before : List (RuleState R)
    pub rule : RuleState R
    pub behind : List (RuleState R)
    pub splits : rules ≡ before ++ rule ∷ behind
    pub misses : Misses metadata before
    pub hit : applies rule metadata ≡ true

module _ {R : Type 0} (draw : R → Float64 × R) (metadata : Metadata) (d : Decision) where
  -- The rules that the loop leaves behind a first match: its own state alone is another.
  abbrev pub OnlyFirst : (rules : List (RuleState R)) → List (RuleState R) → Decision → Type 0
  OnlyFirst rules rules' d' =
      (m : FirstMatch rules metadata) × (s' : RuleState R) × (attempt draw m.rule d ≡ some (s', d'))
      × (rules' ≡ m.before ++ s' ∷ m.behind)

  FirstMatch-here :
      (s : RuleState R) (rest : List (RuleState R))
      → applies s metadata ≡ true
      → FirstMatch (s ∷ rest) metadata
  FirstMatch-here s rest h = record {
    before = [];
    rule = s;
    behind = rest;
    splits = refl;
    misses = tt;
    hit = h;
  }

  FirstMatch-later :
      (s : RuleState R) {rest : List (RuleState R)}
      → applies s metadata ≡ false
      → FirstMatch rest metadata
      → FirstMatch (s ∷ rest) metadata
  FirstMatch-later s h m = record {
    before = s ∷ m.before;
    rule = m.rule;
    behind = m.behind;
    splits = ap (◌∷◌ s) m.splits;
    misses = (h, m.misses);
    hit = m.hit;
  }

  here :
      (s : RuleState R) (rest : List (RuleState R)) {rules' : List (RuleState R)} {d' : Decision}
      → applies s metadata ≡ true
      → (o : Option (RuleState R × Decision)) → attempt draw s d ≡ o
      → Option.map {B = List (RuleState R) × Decision} (λ r. (r.0 ∷ rest, r.1)) o
        ≡ some (rules', d')
      → OnlyFirst (s ∷ rest) rules' d'
  unfolding FirstMatch-here
  here s rest hit none q h = cc
  here s rest hit (some (s', d'')) q h =
      (FirstMatch-here s rest hit, s', ground arith, ground arith)

  abbrev pub Unchanged : (rules : List (RuleState R)) → List (RuleState R) → Decision → Type 0
  Unchanged rules rules' d' = Misses metadata rules × (rules' ≡ rules) × (d' ≡ d)

  later :
      (s : RuleState R) (rest : List (RuleState R)) {rules' rest' : List (RuleState R)}
      {d' : Decision}
      → applies s metadata ≡ false
      → rules' ≡ s ∷ rest'
      → Unchanged rest rest' d' ⊎ OnlyFirst rest rest' d'
      → Unchanged (s ∷ rest) rules' d' ⊎ OnlyFirst (s ∷ rest) rules' d'
  unfolding FirstMatch-later
  later s rest miss e (inl (misses, same, d_same)) = inl ((miss, misses), cc, d_same)
  later s rest miss e (inr (m, s', made, left)) = inr (FirstMatch-later s miss m, s', made, cc)

  behind :
      (s : RuleState R) (rest : List (RuleState R)) {rules' : List (RuleState R)} {d' : Decision}
      → applies s metadata ≡ false
      → (o : Option (List (RuleState R) × Decision))
      → ((rest' : List (RuleState R)) (d'' : Decision)
          → o ≡ some (rest', d'')
          → Unchanged rest rest' d'' ⊎ OnlyFirst rest rest' d'')
      → Option.map {B = List (RuleState R) × Decision} (λ r. (s ∷ r.0, r.1)) o ≡ some (rules', d')
      → Unchanged (s ∷ rest) rules' d' ⊎ OnlyFirst (s ∷ rest) rules' d'
  behind s rest miss none ih h = cc
  behind s rest {d'} miss (some (rest', d'')) ih h =
      let e : d'' ≡ d' = ground arith in
      later s rest miss (ground arith)
        (subst (λ x. Unchanged rest rest' x ⊎ OnlyFirst rest rest' x) e (ih rest' d'' refl))

  -- Either no rule applies and nothing changes, or the first one that applies makes its attempt and every
  -- other rule keeps its counters and its generator.
  pub decide_rules-OnlyFirst :
      (rules : List (RuleState R)) {rules' : List (RuleState R)} {d' : Decision}
      → decide_rules draw rules metadata d ≡ some (rules', d')
      → Unchanged rules rules' d' ⊎ OnlyFirst rules rules' d'
  unfolding decide_rules
  decide_rules-OnlyFirst [] h = inl (tt, ground arith, ground arith)
  decide_rules-OnlyFirst (s ∷ rest) h = elim (Bool-cases (applies s metadata)) [
    | inl hit ↦ inr (here s rest hit (attempt draw s d) refl (rw hit at h))
    | inr miss ↦
        behind s rest miss (decide_rules draw rest metadata d)
          (λ rest' d'' q. decide_rules-OnlyFirst rest q) (rw miss at h)
  ]
