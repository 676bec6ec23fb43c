-- ===== src/Engine/State.antt =====
-- internal/engine/engine.go: the engine's state, `New`, `Decide`, `Counters` and `selectAttempt`.
-- The state `R` of the random generator, `rand.New` and `Float64` of it, and SHA-256 are parameters.
pub mod Counting
pub mod FirstMatch
pub mod Runs
use faultline.Common.{
  ℕ, zero, suc, ◌+◌, ◌*◌, ◌/◌, ◌%◌, ◌^◌, Bool, true, false, not, ◌&&◌, Option, none, some, List, [],
  ◌∷◌, ◌++◌, map, Text, ◌==◌, nat_eq, text_eq, take, drop, if◌then◌else◌,
}
use faultline.Common.Bytes.{le_bytes, from_le_bytes}
use faultline.Common.Float.{Float64, zero_float, one_float, lt_float, eq_float}
use faultline.Config.Model.{Selector, Fault, Rule, Proxy}
use faultline.Config.Document.{Document}
use mathlib.Core.Option
use faultline.Engine.Match.{Metadata, matches}

pub record Decision : Type 0 where
  pub proxy_id : Text
  pub rule_id : Text
  pub eligible_sequence : ℕ
  pub selected : Bool
  pub selector : Selector
  pub fault : Fault

pub record Counters : Type 0 where
  pub eligible : ℕ
  pub selected : ℕ

pub record RuleState (R : Type 0) : Type 0 where
  pub rule : Rule
  pub counters : Counters
  pub random : R

-- `map[string][]*ruleState`
abbrev pub Engine : Type 0 → Type 0
Engine R = List (Text × List (RuleState R))

-- Go's zero values of the two structs.
abbrev pub no_selector : Selector
no_selector = record { probability = none; nth = none; every = none }

abbrev pub no_fault : Fault
no_fault = record {
  phase = "";
  action = "";
  duration = none;
  max_duration = none;
  status = none;
  body = none;
  direction = "";
  bytes = none;
  bytes_per_second = none;
  after_bytes = none;
  after_duration = none;
  trigger_direction = "";
}

abbrev pub no_counters : Counters
no_counters = record { eligible = 0; selected = 0 }

abbrev pub no_decision : Text → Decision
no_decision proxy_id = record {
  proxy_id = proxy_id;
  rule_id = [];
  eligible_sequence = 0;
  selected = false;
  selector = no_selector;
  fault = no_fault;
}

-- A counter is a uint64 and wraps.
abbrev pub increment : ℕ → ℕ
increment n = (n + 1) % 2 ^ 64

-- `Decide` returns a decision or the error for a proxy that is not there; the last is no Go value but
-- a panic, on a nil selector field or a division by zero.
pub data Outcome (R : Type 0) : Type 0 where
  decided : Engine R → Decision → Outcome R
  unknown_proxy : Decision → Outcome R
  panicked : Outcome R

module _ {R : Type 0} where
  unfoldable pub lookup : Text → Engine R → Option (List (RuleState R))
  lookup proxy_id [] = none
  lookup proxy_id ((id, states) ∷ rest) =
      if id == proxy_id then some states else lookup proxy_id rest

  -- `e.proxies[id] = states`
  unfoldable pub assign : Text → List (RuleState R) → Engine R → Engine R
  assign proxy_id states [] = (proxy_id, states) ∷ []
  assign proxy_id states ((id, old) ∷ rest) =
      if id == proxy_id then (id, states) ∷ rest else (id, old) ∷ assign proxy_id states rest

-- What `New` hashes for the generator of a rule.
unfoldable pub seed_material : ℕ → Text → Text → Text
unfolding le_bytes
seed_material seed proxy_id rule_id = le_bytes 8 seed ++ (proxy_id ++ (0 ∷ rule_id))

module _ {R : Type 0} (new_pcg : ℕ → ℕ → R) (sha256 : Text → Text) where
  unfoldable pub new_rule_state : ℕ → Text → Rule → RuleState R
  new_rule_state seed proxy_id r =
      let hash = sha256 (seed_material seed proxy_id r.id) in
      record {
        rule = r;
        counters = no_counters;
        random = new_pcg (from_le_bytes (take 8 hash)) (from_le_bytes (take 8 (drop 8 hash)));
      }

  unfoldable pub new_proxies : ℕ → List Proxy → Engine R → Engine R
  new_proxies seed [] e = e
  new_proxies seed (p ∷ ps) e =
      new_proxies seed ps (assign p.id (map (new_rule_state seed p.id) p.rules) e)

  -- `none` is the error for a document that is nil or not valid.
  unfoldable pub new : Option Document → Option (Engine R)
  new none = none
  new (some d) = if d.valid then some (new_proxies d.config.seed d.config.proxies []) else none

module _ {R : Type 0} where
  -- What an attempt leaves in the rule's state and writes into the decision.
  abbrev pub after_attempt : RuleState R → Decision → ℕ → Bool × R → RuleState R × Decision
  after_attempt s d sequence (selected, random) = (
    record s {
      counters = record {
        eligible = sequence;
        selected = if selected then increment s.counters.selected else s.counters.selected;
      };
      random = random;
    },
    record d {
      rule_id = s.rule.id;
      eligible_sequence = sequence;
      selected = selected;
      selector = s.rule.select;
      fault = s.rule.fault;
    },
  )

  unfoldable pub applies : RuleState R → Metadata → Bool
  applies s metadata = s.rule.enabled && matches s.rule.matcher metadata

module _ {R : Type 0} (draw : R → Float64 × R) where
  unfoldable pub select_probability : Option Float64 → R → Option (Bool × R)
  select_probability none random = none
  select_probability (some p) random =
      if eq_float p zero_float
      then some (false, random)
      else if eq_float p one_float
      then some (true, random)
      else (let (x, random') = draw random in some (lt_float x p, random'))

  -- `sequence % *s.Every`, which panics on zero.
  unfoldable pub select_every : ℕ → ℕ → R → Option (Bool × R)
  select_every sequence zero random = none
  select_every sequence (suc k) random = some (sequence % suc k == 0, random)

  unfoldable pub select_attempt : Selector → ℕ → R → Option (Bool × R)
  unfolding select_probability select_every
  select_attempt s sequence random = elim s.nth [
    | some n ↦ some (sequence == n, random)
    | none ↦ elim s.every [
      | some k ↦ select_every sequence k random
      | none ↦ select_probability s.probability random
    ]
  ]

  -- The locked part of `Decide`, on the rule that matched: `none` is a panic.
  unfoldable pub attempt : RuleState R → Decision → Option (RuleState R × Decision)
  attempt s d =
      let sequence = increment s.counters.eligible in
      Option.map (after_attempt s d sequence) (select_attempt s.rule.select sequence s.random)

  -- The loop of `Decide`.
  unfoldable pub decide_rules :
      List (RuleState R) → Metadata → Decision → Option (List (RuleState R) × Decision)
  decide_rules [] metadata d = some ([], d)
  decide_rules (s ∷ rest) metadata d =
      let later = decide_rules rest metadata d in
      if not (applies s metadata)
      then Option.map (λ r. (s ∷ r.0, r.1)) later
      else Option.map (λ r. (r.0 ∷ rest, r.1)) (attempt s d)

  unfoldable pub decide : Engine R → Text → Metadata → Bool → Outcome R
  decide e proxy_id metadata enabled = elim (lookup proxy_id e) [
    | none ↦ unknown_proxy (no_decision proxy_id)
    | some rules ↦ elim enabled [
      | false ↦ decided e (no_decision proxy_id)
      | true ↦ elim (decide_rules rules metadata (no_decision proxy_id)) [
        | none ↦ panicked
        | some (rules', d) ↦ decided (assign proxy_id rules' e) d
      ]
    ]
  ]

module _ {R : Type 0} where
  -- The counters of the first rule with the ID.
  unfoldable pub rule_counters : Text → List (RuleState R) → Option Counters
  rule_counters rule_id [] = none
  rule_counters rule_id (s ∷ rest) =
      if s.rule.id == rule_id then some s.counters else rule_counters rule_id rest

  unfoldable pub counters : Engine R → Text → Text → Option Counters
  unfolding lookup rule_counters
  counters e proxy_id rule_id = elim (lookup proxy_id e) [
    | none ↦ none
    | some rules ↦ rule_counters rule_id rules
  ]
