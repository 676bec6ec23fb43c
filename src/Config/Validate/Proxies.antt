-- ===== src/Config/Validate/Proxies.antt =====
-- What `validate` promises of each proxy, and of all of them.
use faultline.Common.{
  ℕ, suc, true, false, List, [], ◌∷◌, ◌++◌, Text, ◌==◌, ==_refl, string_eq, text_eq, ◌≡◌, ◌≢◌, refl,
  ap, arith, All, map, contains, is_nil, inl, inr,
}
use mathlib.Core.Path.{◌∙◌}
use faultline.Common.Strings.{codes}
use faultline.Common.Int.{pos, ◌<ℤ◌}
use faultline.Config.Model.{Config, Proxy}
use faultline.Config.Errors.{ok, Result-cases}
use faultline.Config.Names.{identifier}
use faultline.Config.Platform.{Platform}
use faultline.Config.Listener.{known_protocol, validate_protocol, validate_listen}
use faultline.Config.Tls.{Digests}
use faultline.Config.Validate.{
  validate_upstream, validate_proxy, validate_proxies, validate_rules, indexed, validate, version,
}
use faultline.Config.Validate.Steps.{
  IsAddress, validate_listen-IsAddress, validate_protocol-Keeps, validate_upstream-Keeps,
}
use faultline.Config.Validate.Valid.{IsValidRule, rule_names, validate_rules-IsValidRule}

pub record IsValidProxy (p : Proxy) : Type 0 where
  pub named : identifier p.id ≡ true
  pub known : known_protocol p.protocol ≡ true
  pub listens : IsAddress p.listen
  -- A TCP proxy does not forward to itself.
  pub forwards : (p.protocol == "tcp") ≡ true → p.upstream ≢ codes "tcp://" ++ p.listen
  pub rules_valid : All (IsValidRule p.protocol) p.rules

-- The names in a proxy.
abbrev pub names : Proxy → Text × List Text
names p = (p.id, rule_names p.rules)

validate_proxy-IsValidProxy :
    (lib : Platform) (base : Text) (p : Proxy) (path : Text) (seen : List Text) (digests : Digests)
    {r : Proxy × Digests}
    → validate_proxy lib base p path seen digests ≡ ok r
    → IsValidProxy r.0 × (contains seen r.0.listen ≡ false) × (names r.0 ≡ names p)
unfolding validate_proxy
validate_proxy-IsValidProxy lib base p path seen digests {r} h =
    elim (Result-cases (validate_protocol p path)) [
      | inr (e, failed) ↦ absurd (ground (arith, failed))
      | inl (a, q1) ↦ elim (Result-cases (validate_listen lib a path seen)) [
        | inr (e, failed) ↦ absurd (ground (arith, q1, failed))
        | inl (b, q2) ↦ elim (Result-cases (validate_upstream lib base b path digests)) [
          | inr (e, failed) ↦ absurd (ground (arith, q1, q2, failed))
          | inl (c, q3) ↦ elim (Result-cases (validate_rules c.0.protocol c.0.rules 0 path)) [
            | inr (e, failed) ↦ absurd (ground (arith, q1, q2, q3, failed))
            | inl (rs, q4) ↦
                let (k1, known) = validate_protocol-Keeps p path q1 in
                let (address, fresh, rest) = validate_listen-IsAddress lib a path seen q2 in
                let (k3, forwards) = validate_upstream-Keeps lib base b path digests q3 in
                let made : r.0 ≡ record c.0 { rules = rs } = ground (arith, q1, q2, q3, q4) in
                let (valid, named) =
                  validate_rules-IsValidRule c.0.protocol c.0.rules 0 path rs q4 in
                let rules : rule_names rs ≡ rule_names p.rules =
                  named
                  ∙ ap rule_names (k3.same_rules ∙ (ap (λ q. q.rules) rest ∙ k1.same_rules)) in
                let ids : c.0.id ≡ p.id = k3.same_id ∙ (ap (λ q. q.id) rest ∙ k1.same_id) in
                let protocols : c.0.protocol ≡ a.protocol =
                  k3.same_protocol ∙ ap (λ q. q.protocol) rest in
                let listens : c.0.listen ≡ b.listen = k3.same_listen in
                rw made (
                  record {
                    named = rw ids (ground arith);
                    known = rw protocols known;
                    listens = rw listens address;
                    forwards = forwards;
                    rules_valid = valid;
                  },
                  rw listens fresh,
                  rw (ids, rules) refl,
                )
          ]
        ]
      ]
    ]

-- Each listener is another than all behind it.
abbrev pub HasDistinctListeners : List Proxy → Type 0
HasDistinctListeners [] = Unit
HasDistinctListeners (p ∷ ps) = All (λ q. p.listen ≢ q.listen) ps × HasDistinctListeners ps

abbrev Unseen : List Text → List Proxy → Type 0
Unseen seen = All (λ q. contains seen q.listen ≡ false)

Unseen-behind :
    (listen : Text) (seen : List Text) (qs : List Proxy)
    → Unseen (listen ∷ seen) qs
    → Unseen seen qs × All (λ q. listen ≢ q.listen) qs
Unseen-behind listen seen [] h = (tt, tt)
Unseen-behind listen seen (q ∷ qs) h =
    let (a, b) = Unseen-behind listen seen qs h.1 in
    ((ground (arith, h.0), a), ((λ e. ground (arith, h.0, e, ==_refl q.listen)), b))

validate_proxies-IsValidProxy :
    (lib : Platform) (base : Text) (ps : List Proxy) (i : ℕ) (seen : List Text) (digests : Digests)
    (qs : List Proxy) (digests' : Digests)
    → validate_proxies lib base ps i seen digests ≡ ok (qs, digests')
    → All IsValidProxy qs × Unseen seen qs × HasDistinctListeners qs × (map names qs ≡ map names ps)
unfolding validate_proxies
validate_proxies-IsValidProxy lib base [] i seen digests [] digests' h = (tt, tt, tt, refl)
validate_proxies-IsValidProxy lib base [] i seen digests (q ∷ qs) digests' h = cc
validate_proxies-IsValidProxy lib base (p ∷ ps) i seen digests qs digests' h =
    elim (Result-cases (validate_proxy lib base p (indexed (codes "proxies") i) seen digests)) [
      | inr (e, failed) ↦ absurd (ground (arith, failed))
      | inl (first, q1) ↦
          elim (Result-cases
            (validate_proxies lib base ps (suc i) (first.0.listen ∷ seen) first.1)) [
              | inr (e, failed) ↦ absurd (ground (arith, q1, failed))
              | inl ((rest, d), q2) ↦
                  let (valid, fresh, same) =
                    validate_proxy-IsValidProxy lib base p _ seen digests q1 in
                  let (all_valid, unseen, distinct, same_rest) =
                    validate_proxies-IsValidProxy lib base ps (suc i) _ _ rest d q2 in
                  let (behind, others) = Unseen-behind first.0.listen seen rest unseen in
                  let made : qs ≡ first.0 ∷ rest = ground (arith, q1, q2) in
                  rw made (
                    (valid, all_valid),
                    (fresh, behind),
                    (others, distinct),
                    rw (same, same_rest) refl,
                  )
            ]
    ]

-- Lists of as many names are both empty or neither.
same_names : (ps qs : List Proxy) → map names qs ≡ map names ps → is_nil ps ≡ false → qs ≢ []
same_names [] qs same h = cc
same_names (p ∷ ps) [] same h = absurd cc
same_names (p ∷ ps) (q ∷ qs) same h = λ e. cc

-- The configuration that a document is made of.
pub record IsValid (c : Config) : Type 0 where
  pub current : c.api_version ≡ version
  pub inflight : pos 0 <ℤ c.runtime.max_inflight_requests
  pub timeout : pos 0 <ℤ c.runtime.request_timeout
  pub present : c.proxies ≢ []
  pub proxies_valid : All IsValidProxy c.proxies
  pub distinct : HasDistinctListeners c.proxies

-- A configuration that validation accepts comes back with the version and the limits that the program
-- needs and at least one proxy; each proxy with a name, a known protocol, a listener whose port is in range
-- and that no other proxy has, no TCP proxy with itself as upstream, and each rule with a name, an action
-- that the protocol supports and exactly one selector in range. The names of the proxies and of their rules are
-- as they were.
pub validate-IsValid :
    (lib : Platform) (c : Config) (base : Text) (c' : Config) (digests : Digests)
    → validate lib c base ≡ ok (c', digests)
    → IsValid c' × (map names c'.proxies ≡ map names c.proxies)
unfolding validate
validate-IsValid lib c base c' digests h =
    elim (Result-cases (validate_proxies lib base c.proxies 0 [] [])) [
      | inr (e, failed) ↦ absurd (ground (arith, failed))
      | inl ((qs, d), q) ↦
          let made : c' ≡ record c { proxies = qs } = ground (arith, q) in
          let (valid, unseen, distinct, same_rest) =
            validate_proxies-IsValidProxy lib base c.proxies 0 [] [] qs d q in
          rw made (
            record {
              current = ground (arith, string_eq.equals_iff c.api_version version);
              inflight = ground arith;
              timeout = ground arith;
              present = same_names c.proxies qs same_rest (ground arith);
              proxies_valid = valid;
              distinct = distinct;
            },
            same_rest,
          )
    ]
