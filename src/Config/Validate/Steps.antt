-- ===== src/Config/Validate/Steps.antt =====
-- What each step of `validate` on one proxy promises, and what it leaves as it is.
use faultline.Common.{
  ℕ, ◌≤◌, true, false, Option, none, some, List, ◌++◌, String, Text, ◌==◌, ==_refl, string_eq,
  text_eq, ◌≡◌, ◌≢◌, refl, arith, contains, Bool-cases, Option-cases, inl, inr,
}
use mathlib.Core.Path.{subst, ◌∙◌}
use faultline.Common.Strings.{codes, to_lower}
use faultline.Common.Decimal.{itoa}
use faultline.Config.Model.{Proxy}
use faultline.Config.Errors.{ok, Result-cases}
use faultline.Config.Platform.{Platform, join_host_port}
use faultline.Config.Listener.{
  known_protocol, validate_protocol, validate_listen, listen_address, port_number, required,
}
use faultline.Config.Upstream.{validate_tcp_upstream, validate_origin}
use faultline.Config.Tls.{Digests, validate_tls}
use faultline.Config.Validate.{validate_upstream}

-- A listener with its port written as a number in range.
pub record IsAddress (listen : Text) : Type 0 where
  pub host : Text
  pub port : ℕ
  pub joined : listen ≡ join_host_port host (itoa port)
  pub bounded : (1 ≤ port) × (port ≤ 65535)

port_number-bounds : (t : Text) {n : ℕ} → port_number t ≡ some n → (1 ≤ n) × (n ≤ 65535)
unfolding port_number
port_number-bounds t {n} h = (ground arith, ground arith)

required-some :
    {A : Type 0} (o : Option A) (path : Text) (m : String) {a : A}
    → required o path m ≡ ok a
    → o ≡ some a
required-some none path m h = cc
required-some (some a) path m h = ground arith

listen_address-bounds :
    (lib : Platform) (listen path : Text) {host : Text} {n : ℕ}
    → listen_address lib listen path ≡ ok (host, n)
    → (1 ≤ n) × (n ≤ 65535)
unfolding listen_address
listen_address-bounds lib listen path {host} {n} h =
    elim (Option-cases (lib.split_host_port listen)) [
      | inl q ↦ absurd (ground (arith, q))
      | inr ((a, b), q) ↦ port_number-bounds b (ground (arith, q))
    ]

-- The listener is an address that none of the proxies before has, and nothing else changes.
pub validate_listen-IsAddress :
    (lib : Platform) (p : Proxy) (path : Text) (seen : List Text) {q : Proxy}
    → validate_listen lib p path seen ≡ ok q
    → IsAddress q.listen × (contains seen q.listen ≡ false) × (q ≡ record p { listen = q.listen })
unfolding validate_listen
validate_listen-IsAddress lib p path seen {q} h =
    elim (Result-cases (listen_address lib p.listen (path ++ codes ".listen"))) [
      | inl ((host, n), made) ↦ (
        record {
          host = to_lower host;
          port = n;
          joined = ground (arith, made);
          bounded = listen_address-bounds lib p.listen _ made;
        },
        ground (arith, made),
        ground (arith, made),
      )
      | inr (e, failed) ↦ absurd (ground (arith, failed))
    ]

-- What the steps behind the listener leave of a proxy.
pub record Keeps (p q : Proxy) : Type 0 where
  pub same_id : q.id ≡ p.id
  pub same_protocol : q.protocol ≡ p.protocol
  pub same_listen : q.listen ≡ p.listen
  pub same_rules : q.rules ≡ p.rules

pub validate_protocol-Keeps :
    (p : Proxy) (path : Text) {q : Proxy}
    → validate_protocol p path ≡ ok q
    → Keeps p q × (known_protocol q.protocol ≡ true)
unfolding validate_protocol
validate_protocol-Keeps p path {q} h = (
  record {
    same_id = ground arith;
    same_protocol = ground arith;
    same_listen = ground arith;
    same_rules = ground arith;
  },
  ground arith,
)

not_equal : (s t : Text) → (s == t) ≡ false → codes "tcp://" ++ s ≢ codes "tcp://" ++ t
not_equal s t h e = let same : s ≡ t = cc in absurd (ground (arith, ==_refl t, same))

validate_tcp_upstream-Keeps :
    (lib : Platform) (p : Proxy) (path : Text) {q : Proxy}
    → validate_tcp_upstream lib p path ≡ ok q
    → Keeps p q × (q.upstream ≢ codes "tcp://" ++ q.listen)
unfolding validate_tcp_upstream
validate_tcp_upstream-Keeps lib p path {q} h = elim (Option-cases (lib.parse_url p.upstream)) [
  | inl missing ↦ absurd (ground (arith, missing))
  | inr (u, parsed) ↦ elim (Option-cases (port_number u.port)) [
    | inl missing ↦ absurd (ground (arith, parsed, missing))
    | inr (n, number) ↦
        let differs : (join_host_port (to_lower u.hostname) (itoa n) == p.listen) ≡ false =
          ground (arith, parsed, number) in
        let made : q ≡ record p {
          upstream = codes "tcp://" ++ join_host_port (to_lower u.hostname) (itoa n);
        } =
          ground (arith, parsed, number) in
        rw made (
          record { same_id = refl; same_protocol = refl; same_listen = refl; same_rules = refl },
          not_equal _ _ differs,
        )
  ]
]

validate_tls-Keeps :
    (lib : Platform) (base : Text) (p : Proxy) (path : Text) (digests : Digests)
    {r : Proxy × Digests}
    → validate_tls lib base p path digests ≡ ok r
    → Keeps p r.0
unfolding validate_tls
validate_tls-Keeps lib base p path digests {r} h = record {
  same_id = ground arith;
  same_protocol = ground arith;
  same_listen = ground arith;
  same_rules = ground arith;
}

validate_origin-Keeps :
    (lib : Platform) (p : Proxy) (path : Text) {q : Proxy}
    → validate_origin lib p path ≡ ok q
    → Keeps p q
unfolding validate_origin
validate_origin-Keeps lib p path {q} h = record {
  same_id = ground arith;
  same_protocol = ground arith;
  same_listen = ground arith;
  same_rules = ground arith;
}

pub validate_upstream-Keeps :
    (lib : Platform) (base : Text) (p : Proxy) (path : Text) (digests : Digests)
    {r : Proxy × Digests}
    → validate_upstream lib base p path digests ≡ ok r
    → Keeps p r.0 × ((r.0.protocol == "tcp") ≡ true → r.0.upstream ≢ codes "tcp://" ++ r.0.listen)
unfolding validate_upstream
validate_upstream-Keeps lib base p path digests {r} h = elim (Bool-cases (p.protocol == "tcp")) [
  | inl tcp ↦ elim (Result-cases (validate_tcp_upstream lib p path)) [
    | inl (q, done) ↦
        let same : q ≡ r.0 = ground (arith, tcp, done) in
        let (kept, forwards) = validate_tcp_upstream-Keeps lib p path done in
        (
          subst (Keeps p) same kept,
          λ g. subst (λ q. q.upstream ≢ codes "tcp://" ++ q.listen) same forwards,
        )
    | inr (e, failed) ↦ absurd (ground (arith, tcp, failed))
  ]
  | inr other ↦ elim (Result-cases (validate_origin lib p path)) [
    | inl (q, done) ↦
        let k = validate_origin-Keeps lib p path done in
        let k' = validate_tls-Keeps lib base q path digests {r = r} (ground (arith, other, done)) in
        let protocols : r.0.protocol ≡ p.protocol = k'.same_protocol ∙ k.same_protocol in
        (
          record {
            same_id = k'.same_id ∙ k.same_id;
            same_protocol = protocols;
            same_listen = k'.same_listen ∙ k.same_listen;
            same_rules = k'.same_rules ∙ k.same_rules;
          },
          λ g. absurd (ground (arith, protocols, other)),
        )
    | inr (e, failed) ↦ absurd (ground (arith, other, failed))
  ]
]
