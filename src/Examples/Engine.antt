-- ===== src/Examples/Engine.antt =====
-- Concrete requests of an engine with one rule.
use faultline.Common.{ℕ, ◌+◌, true, none, some, [], ◌∷◌, Text, ◌≡◌, refl, arith}
use faultline.Common.Bytes.{le_bytes, from_le_bytes}
use faultline.Common.Strings.{codes, split}
use faultline.Common.Float.{Float64, zero_float}
use faultline.Common.Int.{pos}
use faultline.Config.Model.{Proxy}
use faultline.Config.Document.{Document}
use faultline.Config.Selector.Valid.{by_nth}
use faultline.Engine.Match.{Metadata, matches, matches_path_pattern}
use faultline.Engine.Match.Segments.{AllFit, matches_path_pattern-AllFit}
use faultline.Engine.State.{
  new_proxies, assign, seed_material, applies, attempt, select_attempt, Engine, RuleState, Decision,
  new, no_decision, decide_rules, new_rule_state,
}
use faultline.Engine.State.Counting.{IsCounted}
use faultline.Engine.State.FirstMatch.{Unchanged, OnlyFirst, decide_rules-OnlyFirst}
use faultline.Engine.State.Runs.{Call, AllRules, run, new-run-IsCounted}
use faultline.Examples.Config.{answer_second}
use faultline.Common.{text_beq, true, false, Bool, ◌↔◌, ◌⊎◌}

abbrev pub generator : ℕ → ℕ → ℕ
generator a b = a + b

abbrev pub hash : Text → Text
hash t = t

abbrev pub draw : ℕ → Float64 × ℕ
draw r = (zero_float, r + 1)

abbrev proxy : Proxy
proxy = record {
  id = codes "p";
  protocol = "http1";
  upstream_protocol = "http1";
  listen = codes "127.0.0.1:80";
  upstream = codes "http://127.0.0.1:81";
  tls = none;
  upstream_tls = none;
  rules = answer_second ∷ [];
}

abbrev pub document : Document
document = record {
  config = record {
    api_version = "faultline/v1alpha1";
    seed = 7;
    runtime = record { max_inflight_requests = pos 1000; request_timeout = pos 30000000000 };
    proxies = proxy ∷ [];
  };
  valid = true;
  fingerprint = [];
  restart_fingerprint = [];
}

abbrev first_rule : RuleState ℕ
first_rule = record {
  rule = answer_second;
  counters = record { eligible = 0; selected = 0 };
  random = 829554807;
}

abbrev pub engine : Engine ℕ
engine = (codes "p", first_rule ∷ []) ∷ []

abbrev request : Metadata
request = record { method = codes "GET"; service = []; path = codes "/users/7?x"; headers = [] }

abbrev pub call : Call
call = record { proxy_id = codes "p"; metadata = request; enabled = true }

engine_made : new generator hash (some document) ≡ some engine
unfolding new new_proxies assign new_rule_state seed_material le_bytes from_le_bytes
engine_made = refl

new-run-IsCounted_example :
    (e' : Engine ℕ) × (run draw engine (call ∷ call ∷ call ∷ []) ≡ some e')
    × AllRules (IsCounted 3) e'
new-run-IsCounted_example =
    new-run-IsCounted generator hash draw document engine (call ∷ call ∷ call ∷ [])
      ((by_nth 2 (omega arith) refl, tt), tt) engine_made (omega arith)

abbrev decision : Decision
decision = record {
  proxy_id = codes "p";
  rule_id = codes "r1";
  eligible_sequence = 1;
  selected = false;
  selector = answer_second.select;
  fault = answer_second.fault;
}

abbrev counted_rule : RuleState ℕ
counted_rule = record first_rule { counters = record { eligible = 1; selected = 0 } }

rules_decided :
    decide_rules draw (first_rule ∷ first_rule ∷ []) request (no_decision (codes "p"))
    ≡ some (counted_rule ∷ first_rule ∷ [], decision)
unfolding decide_rules applies attempt select_attempt matches text_beq
rules_decided = refl

decide_rules-OnlyFirst_example :
    Unchanged draw request
      (no_decision (codes "p"))
      (first_rule ∷ first_rule ∷ [])
      (counted_rule ∷ first_rule ∷ [])
      decision
    ⊎ OnlyFirst draw request
        (no_decision (codes "p"))
        (first_rule ∷ first_rule ∷ [])
        (counted_rule ∷ first_rule ∷ [])
        decision
decide_rules-OnlyFirst_example =
    decide_rules-OnlyFirst draw request (no_decision (codes "p")) (first_rule ∷ first_rule ∷ [])
      rules_decided

matches_path_pattern-AllFit_example :
    (b : Bool) × (matches_path_pattern (codes "/users/:id") (codes "/users/7") ≡ some b)
    × ((b ≡ true) ↔ AllFit (split b'/' (codes "/users/:id")) (split b'/' (codes "/users/7")))
matches_path_pattern-AllFit_example =
    matches_path_pattern-AllFit (codes "/users/:id") (codes "/users/7")
