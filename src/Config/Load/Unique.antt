-- ===== src/Config/Load/Unique.antt =====
-- What `finish` promises of the document that it publishes.
use faultline.Common.{
  ℕ, suc, true, Option, none, some, List, [], ◌∷◌, map, Text, ==_cases, ==_refl, text_eq, ◌≡◌, ◌≢◌,
  arith, All, inl, inr, Option-cases,
}
use faultline.Config.Model.{Config, Proxy, Rule}
use faultline.Config.Document.{Document}
use faultline.Config.Errors.{ok, Result-cases}
use faultline.Config.Platform.{Platform}
use faultline.Config.Tls.{Digests}
use faultline.Config.Validate.{validate}
use faultline.Config.Validate.Valid.{rule_names}
use faultline.Config.Validate.Proxies.{IsValid, names, validate-IsValid}
use faultline.Config.Fingerprint.{new_document}
use faultline.Config.Load.{
  ProxySource, find, check_rule_ids, declare_proxies, resolve_paths, finish,
}

-- No name is there twice.
abbrev pub HasDistinct : List Text → Type 0
HasDistinct [] = Unit
HasDistinct (n ∷ ns) = All (λ m. n ≢ m) ns × HasDistinct ns

-- No name of a list is in the map.
abbrev Missing {ℓ} : {A : Type ℓ} → List (Text × A) → List Text → Type ℓ
Missing entries = All (λ n. find n entries ≡ none)

Missing-behind {ℓ} :
    {A : Type ℓ} (name : Text) (a : A) (entries : List (Text × A)) (ns : List Text)
    → Missing ((name, a) ∷ entries) ns
    → Missing entries ns × All (λ n. name ≢ n) ns
Missing-behind name a entries [] h = (tt, tt)
Missing-behind name a entries (n ∷ ns) h =
    let (missing, others) = Missing-behind name a entries ns h.1 in
    elim (==_cases name n) [
      | inl (same, e) ↦ absurd (ground (arith, h.0, same))
      | inr other ↦ (
        (ground (arith, h.0, other), missing),
        ((λ e. ground (arith, other, e, ==_refl n)), others),
      )
    ]

check_rule_ids-Missing :
    (src : ProxySource) (rs : List Rule) (j : ℕ) (rules : List (Text × ℕ))
    → check_rule_ids src rs j rules ≡ ok tt
    → Missing rules (rule_names rs) × HasDistinct (rule_names rs)
unfolding check_rule_ids
check_rule_ids-Missing src [] j rules h = (tt, tt)
check_rule_ids-Missing src (r ∷ rs) j rules h = elim (Option-cases (find r.id rules)) [
  | inr (previous, found) ↦ absurd (ground (arith, found))
  | inl missing ↦
      let (behind, distinct) =
        check_rule_ids-Missing src rs (suc j) ((r.id, j) ∷ rules) (ground (arith, missing)) in
      let (unseen, others) = Missing-behind r.id j rules (rule_names rs) behind in
      ((missing, unseen), (others, distinct))
]

-- No two proxies have one name, and no two rules of a proxy.
abbrev pub HasDistinctNames : List (Text × List Text) → Type 0
HasDistinctNames [] = Unit
HasDistinctNames ((id, rules) ∷ rest) =
    HasDistinct rules × All (λ other. id ≢ other.0) rest × HasDistinctNames rest

-- Nothing in the list has the name of a proxy in the map.
abbrev Unclaimed : List (Text × ProxySource) → List (Text × List Text) → Type 0
Unclaimed ids = All (λ entry. find entry.0 ids ≡ none)

Unclaimed-behind :
    (name : Text) (src : ProxySource) (ids : List (Text × ProxySource))
    (entries : List (Text × List Text))
    → Unclaimed ((name, src) ∷ ids) entries
    → Unclaimed ids entries × All (λ entry. name ≢ entry.0) entries
Unclaimed-behind name src ids [] h = (tt, tt)
Unclaimed-behind name src ids ((n, rules) ∷ entries) h =
    let (missing, others) = Unclaimed-behind name src ids entries h.1 in
    let (first, other) = Missing-behind name src ids (n ∷ []) (h.0, tt) in
    ((first.0, missing), (other.0, others))

declare_proxies-Unclaimed :
    (lib : Platform) (declared : List (Proxy × ProxySource)) (ids : List (Text × ProxySource))
    (ps : List Proxy)
    → declare_proxies lib declared ids ≡ ok ps
    → Unclaimed ids (map names ps) × HasDistinctNames (map names ps)
unfolding declare_proxies resolve_paths
declare_proxies-Unclaimed lib [] ids [] h = (tt, tt)
declare_proxies-Unclaimed lib [] ids (p ∷ ps) h = cc
declare_proxies-Unclaimed lib ((p, src) ∷ declared) ids ps h = elim (Option-cases (find p.id ids)) [
  | inr (previous, found) ↦ absurd (ground (arith, found))
  | inl missing ↦ elim (Result-cases (declare_proxies lib declared ((p.id, src) ∷ ids))) [
    | inr (e, failed) ↦ absurd (ground (arith, missing, failed))
    | inl (rest, later) ↦
        let (behind, distinct) =
          declare_proxies-Unclaimed lib declared ((p.id, src) ∷ ids) rest later in
        let (unseen, others) = Unclaimed-behind p.id src ids (map names rest) behind in
        let (found, rules) =
          check_rule_ids-Missing src p.rules 0 [] (ground (arith, missing, later)) in
        let made : ps ≡ resolve_paths lib src.file p ∷ rest = ground (arith, missing, later) in
        rw made ((missing, unseen), (rules, others, distinct))
  ]
]

-- A document that `finish` publishes is valid, and carries a configuration as `validate` returns one, in
-- which no two proxies have one name and no two rules of a proxy have one name.
pub finish-IsValid :
    (lib : Platform) (marshal : Config → Digests → Option Text) (c : Config)
    (declared : List (Proxy × ProxySource)) (root : Text) (d : Document)
    → finish lib marshal c declared root ≡ ok (some d)
    → (d.valid ≡ true) × IsValid d.config × HasDistinctNames (map names d.config.proxies)
unfolding finish new_document
finish-IsValid lib marshal c declared root d h =
    elim (Result-cases (declare_proxies lib declared [])) [
      | inr (e, failed) ↦ absurd (ground (arith, failed))
      | inl (ps, q) ↦
          elim (Result-cases (validate lib (record c { proxies = ps }) (lib.dir root))) [
            | inr (e, failed) ↦ absurd (ground (arith, q, failed))
            | inl ((c', digests), q') ↦
                let published : new_document marshal lib.sha256 c' digests ≡ some d =
                  ground (arith, q, q') in
                let made : d.config ≡ c' = ground (arith, published) in
                let (unclaimed, distinct) = declare_proxies-Unclaimed lib declared [] ps q in
                let (checked, same) =
                  validate-IsValid lib (record c { proxies = ps }) (lib.dir root) c' digests q' in
                (ground (arith, published), rw made checked, rw made (rw same distinct))
          ]
    ]
