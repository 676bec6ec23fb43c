-- ===== src/Config/Validate/Valid.antt =====
-- What `validate` promises of the configuration that it returns.
use faultline.Common.{
  ℕ, suc, true, List, [], ◌∷◌, ◌++◌, String, Text, ◌==◌, string_eq, text_eq, ◌≡◌, refl, arith, All,
  map, contains, Bool-cases, inl, inr,
}
use mathlib.Core.Path.{subst}
use faultline.Common.Strings.{codes}
use faultline.Config.Model.{Rule, after_upstream_headers}
use faultline.Config.Errors.{ok, Result-cases}
use faultline.Config.Names.{identifier}
use faultline.Config.Faults.{actions}
use faultline.Config.Selector.Valid.{IsSelector, validate_selector-IsSelector}
use faultline.Config.Rules.{validate_rule, validate_tcp_rule, validate_commit_rule, default_body}
use faultline.Config.Listener.{is_database}
use faultline.Config.Validate.{validate_by_protocol, validate_proxy_rule, validate_rules, indexed}

-- A rule that the proxy's protocol supports, with exactly one selector in range.
pub record IsValidRule (protocol : String) (r : Rule) : Type 0 where
  pub named : identifier r.id ≡ true
  pub supported : contains (actions protocol) r.fault.action ≡ true
  pub selects : IsSelector r.select

-- What the three validators of a rule share: the name, the switch and the action are left as they are,
-- and the selector is one in range.
abbrev Kept : Rule → Rule → Type 0
Kept r t = (t.id ≡ r.id) × (t.fault.action ≡ r.fault.action) × IsSelector t.select

validate_rule-Kept : (r : Rule) (path : Text) {t : Rule} → validate_rule r path ≡ ok t → Kept r t
unfolding validate_rule default_body
validate_rule-Kept r path {t} h = (
  ground arith,
  ground arith,
  (validate_selector-IsSelector r.select path).0 t.select (ground arith),
)

validate_tcp_rule-Kept :
    (r : Rule) (path : Text) {t : Rule} → validate_tcp_rule r path ≡ ok t → Kept r t
unfolding validate_tcp_rule
validate_tcp_rule-Kept r path {t} h = (
  ground arith,
  ground arith,
  (validate_selector-IsSelector r.select path).0 t.select (ground arith),
)

-- The rule that `validateCommitRule` checks in place of its own.
abbrev http_copy : Rule → Rule
http_copy r = record r { fault = record r.fault { phase = after_upstream_headers } }

validate_commit_rule-Kept :
    (r : Rule) (path : Text) {t : Rule} → validate_commit_rule r path ≡ ok t → Kept r t
unfolding validate_commit_rule
validate_commit_rule-Kept r path {t} h = elim (Result-cases (validate_rule (http_copy r) path)) [
  | inl (copy, q) ↦
      let kept = validate_rule-Kept (http_copy r) path q in
      let same : copy.select ≡ t.select = ground (arith, q) in
      (ground (arith, q), ground (arith, q), subst IsSelector same kept.2)
  | inr (e, q) ↦ absurd (ground (arith, q))
]

validate_by_protocol-Kept :
    (protocol : String) (r : Rule) (path : Text) {t : Rule}
    → validate_by_protocol protocol r path ≡ ok t
    → Kept r t
unfolding validate_by_protocol
validate_by_protocol-Kept protocol r path {t} h = elim (Bool-cases (is_database protocol)) [
  | inl d ↦ validate_commit_rule-Kept r path (rw d at h)
  | inr n ↦ elim (Bool-cases (protocol == "tcp")) [
    | inl d ↦ validate_tcp_rule-Kept r path (rw (d, n) at h)
    | inr m ↦ validate_rule-Kept r path (rw (m, n) at h)
  ]
]

validate_proxy_rule-IsValidRule :
    (protocol : String) (r : Rule) (path : Text) {t : Rule}
    → validate_proxy_rule protocol r path ≡ ok t
    → IsValidRule protocol t × (t.id ≡ r.id)
unfolding validate_proxy_rule
validate_proxy_rule-IsValidRule protocol r path {t} h =
    let kept = validate_by_protocol-Kept protocol r path {t = t} (ground arith) in
    (
      record {
        named = rw kept.0 (ground arith);
        supported = rw kept.1 (ground arith);
        selects = kept.2;
      },
      kept.0,
    )

-- The names that `validate` keeps.
abbrev pub rule_names : List Rule → List Text
rule_names = map (λ r. r.id)

pub validate_rules-IsValidRule :
    (protocol : String) (rs : List Rule) (j : ℕ) (path : Text) (ts : List Rule)
    → validate_rules protocol rs j path ≡ ok ts
    → All (IsValidRule protocol) ts × (rule_names ts ≡ rule_names rs)
unfolding validate_rules
validate_rules-IsValidRule protocol [] j path [] h = (tt, refl)
validate_rules-IsValidRule protocol [] j path (t ∷ ts) h = cc
validate_rules-IsValidRule protocol (r ∷ rs) j path [] h = absurd (ground arith)
validate_rules-IsValidRule protocol (r ∷ rs) j path (t ∷ ts) h =
    let (valid, named) =
      validate_proxy_rule-IsValidRule protocol r (indexed (path ++ codes ".rules") j) {t = t}
        (ground arith) in
    let (valids, names) = validate_rules-IsValidRule protocol rs (suc j) path ts (ground arith) in
    ((valid, valids), rw (named, names) refl)
