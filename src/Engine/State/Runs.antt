-- ===== src/Engine/State/Runs.antt =====
-- The engine over any sequence of calls of `Decide`. A rule's counters and generator are changed under
-- the rule's own lock, so concurrent calls are such a sequence for each rule.
use mathlib.Core.Path.{subst}
use native.Mathlib.Nat.{zero-add}
use faultline.Common.{
  ℕ, ◌+◌, ◌^◌, ◌<◌, Bool, Option, none, some, List, [], ◌∷◌, ◌≡◌, refl, map, Text, arith, ◌==◌,
  text_eq, All, length, Option-cases, Bool-cases, inl, inr,
}
use faultline.Common.Float.{Float64}
use faultline.Config.Model.{Rule, Proxy}
use faultline.Config.Document.{Document}
use faultline.Config.Selector.Valid.{IsSelector}
use faultline.Engine.Match.{Metadata}
use faultline.Engine.State.{
  RuleState, Engine, Outcome, decided, unknown_proxy, panicked, no_decision, decide, lookup, assign,
  new_rule_state, new_proxies, new,
}
use faultline.Engine.State.Counting.{IsCounted, Due-zero, decide_rules-IsCounted, All-weaken}

module _ {R : Type 0} where
  -- Every rule of every proxy.
  abbrev pub AllRules : (RuleState R → Type 0) → Engine R → Type 0
  AllRules P = All (λ p. All P p.1)

  lookup-AllRules :
      (P : RuleState R → Type 0) (id : Text) (e : Engine R) {rules : List (RuleState R)}
      → AllRules P e
      → lookup id e ≡ some rules
      → All P rules
  unfolding lookup
  lookup-AllRules P id [] h q = cc
  lookup-AllRules P id ((j, states) ∷ rest) {rules} h q = elim (Bool-cases (j == id)) [
    | inl same ↦
        let found : some states ≡ some rules = rw same at q in
        let e : states ≡ rules = cc in subst (All P) e h.0
    | inr other ↦ lookup-AllRules P id rest h.1 (rw other at q)
  ]

  assign-AllRules :
      (P : RuleState R → Type 0) (id : Text) (states : List (RuleState R)) (e : Engine R)
      → All P states
      → AllRules P e
      → AllRules P (assign id states e)
  unfolding assign
  assign-AllRules P id states [] hs h = (hs, tt)
  assign-AllRules P id states ((j, old) ∷ rest) hs h = elim (Bool-cases (j == id)) [
    | inl same ↦ rw same (hs, h.1)
    | inr other ↦ rw other (h.0, assign-AllRules P id states rest hs h.1)
  ]

-- A call: the proxy, what the adapter says of the request, and whether injection is enabled.
pub record Call : Type 0 where
  pub proxy_id : Text
  pub metadata : Metadata
  pub enabled : Bool

module _ {R : Type 0} (draw : R → Float64 × R) where
  -- The engine that a call leaves; `none` is a panic.
  abbrev pub left_by : Engine R → Outcome R → Option (Engine R)
  left_by e (decided e' d) = some e'
  left_by e (unknown_proxy d) = some e
  left_by e panicked = none

  pub run : Engine R → List Call → Option (Engine R)
  run e [] = some e
  run e (c ∷ calls) = elim (left_by e (decide draw e c.proxy_id c.metadata c.enabled)) [
    | none ↦ none
    | some e' ↦ run e' calls
  ]

  AllRules-weaken :
      (n : ℕ) (e : Engine R)
      → n + 1 < 2 ^ 64
      → AllRules (IsCounted n) e
      → AllRules (IsCounted (n + 1)) e
  AllRules-weaken n [] fits h = tt
  AllRules-weaken n ((id, states) ∷ rest) fits h =
      (All-weaken draw n fits states h.0, AllRules-weaken n rest fits h.1)

  decide-IsCounted :
      (n : ℕ) (e : Engine R) (c : Call)
      → n + 1 < 2 ^ 64
      → AllRules (IsCounted n) e
      → (e' : Engine R) × (left_by e (decide draw e c.proxy_id c.metadata c.enabled) ≡ some e')
        × AllRules (IsCounted (n + 1)) e'
  unfolding decide
  decide-IsCounted n e c fits h = elim (Option-cases (lookup c.proxy_id e)) [
    | inl missing ↦ (e, rw (missing, decide), AllRules-weaken n e fits h)
    | inr (rules, found) ↦ elim (Bool-cases c.enabled) [
      | inl on ↦
          let (r, q, counted) =
            decide_rules-IsCounted draw n fits rules c.metadata (no_decision c.proxy_id)
              (lookup-AllRules (IsCounted n) c.proxy_id e h found) in
          (
            assign c.proxy_id r.0 e,
            rw (found, decide) (rw (on, decide) (rw (q, decide))),
            assign-AllRules (IsCounted (n + 1)) c.proxy_id r.0 e counted
                (AllRules-weaken n e fits h),
          )
      | inr off ↦ (e, rw (found, decide) (rw (off, decide)), AllRules-weaken n e fits h)
    ]
  ]

  run-IsCounted :
      (n : ℕ) (e : Engine R) (calls : List Call)
      → n + length calls < 2 ^ 64
      → AllRules (IsCounted n) e
      → (e' : Engine R) × (run e calls ≡ some e') × AllRules (IsCounted (n + length calls)) e'
  unfolding run
  run-IsCounted n e [] fits h = (e, refl, subst (λ k. AllRules (IsCounted k) e) (omega arith) h)
  run-IsCounted n e (c ∷ calls) fits h =
      let (e', q, counted) = decide-IsCounted n e c (omega arith) h in
      let (e'', q', counted') = run-IsCounted (n + 1) e' calls (omega arith) counted in
      (e'', rw (q, run) q', subst (λ k. AllRules (IsCounted k) e'') (omega arith) counted')

module _ {R : Type 0} (new_pcg : ℕ → ℕ → R) (sha256 : Text → Text) (draw : R → Float64 × R) where
  abbrev pub HasSelectors : List Proxy → Type 0
  HasSelectors = All (λ p. All (λ r. IsSelector r.select) p.rules)

  new_rule_state-IsCounted :
      (seed : ℕ) (id : Text) (rules : List Rule)
      → All (λ r. IsSelector r.select) rules
      → All (IsCounted 0) (map (new_rule_state new_pcg sha256 seed id) rules)
  unfolding new_rule_state
  new_rule_state-IsCounted seed id [] h = tt
  new_rule_state-IsCounted seed id (r ∷ rules) h = (
    record { valid = h.0; bounded = omega arith; due = Due-zero h.0 },
    new_rule_state-IsCounted seed id rules h.1,
  )

  new_proxies-IsCounted :
      (seed : ℕ) (proxies : List Proxy) (e : Engine R)
      → HasSelectors proxies
      → AllRules (IsCounted 0) e
      → AllRules (IsCounted 0) (new_proxies new_pcg sha256 seed proxies e)
  unfolding new_proxies
  new_proxies-IsCounted seed [] e h he = he
  new_proxies-IsCounted seed (p ∷ ps) e h he =
      let fresh = new_rule_state-IsCounted seed p.id p.rules h.0 in
      new_proxies-IsCounted seed ps _ h.1 (assign-AllRules (IsCounted 0) p.id _ e fresh he)

  -- From the engine of a valid document whose rules have valid selectors, fewer than 2^64 calls of
  -- `Decide`, on any proxies and requests, enabled or not, return without a panic, and each rule has then
  -- selected what its selector promises of its eligible requests: `nth` one of them once its number is
  -- reached, `every` the multiples of its step, and a probability at most all of them.
  pub new-run-IsCounted :
      (d : Document) (e : Engine R) (calls : List Call)
      → HasSelectors d.config.proxies
      → new new_pcg sha256 (some d) ≡ some e
      → length calls < 2 ^ 64
      → (e' : Engine R) × (run draw e calls ≡ some e') × AllRules (IsCounted (length calls)) e'
  unfolding new
  new-run-IsCounted d e calls h made fits =
      let built : e ≡ new_proxies new_pcg sha256 d.config.seed d.config.proxies [] = ground arith in
      let counted : AllRules (IsCounted 0) e =
        rw built (new_proxies-IsCounted d.config.seed d.config.proxies [] h tt) in
      let (e', ran, counted') = run-IsCounted draw 0 e calls (omega arith) counted in
      (e', ran, rw (zero-add (length calls)) at counted')
