-- ===== src/Config/Fingerprint/Prints.antt =====
-- What the two fingerprints of a document depend on.
use mathlib.Core.List.{Permᴰ}
use mathlib.Core.Path.{◌∙◌}
use faultline.Common.{
  true, Option, some, List, [], ◌∷◌, Text, map, ==_refl, text_eq, ◌≡◌, refl, sym, ap, arith,
  Option-cases, inl, inr,
}
use faultline.Config.Model.{Config, Proxy}
use faultline.Config.Document.{Document, equal, restart_compatible}
use faultline.Config.Tls.{Digests}
use faultline.Config.Fingerprint.{
  insert, sort, canonical, restart_part, new_document, without_rules,
}
use faultline.Config.Fingerprint.Order.{HasDistinctIds, sort-Perm}

some_injective : {a b : Text} → some a ≡ some b → a ≡ b
some_injective h = cc

-- Proxies that agree in all but their rules.
pub record IsSameProxy (p p' : Proxy) : Type 0 where
  pub id : p.id ≡ p'.id
  pub protocol : p.protocol ≡ p'.protocol
  pub upstream_protocol : p.upstream_protocol ≡ p'.upstream_protocol
  pub listen : p.listen ≡ p'.listen
  pub upstream : p.upstream ≡ p'.upstream
  pub tls : p.tls ≡ p'.tls
  pub upstream_tls : p.upstream_tls ≡ p'.upstream_tls

abbrev pub AreSameProxies : List Proxy → List Proxy → Type 0
AreSameProxies [] [] = Unit
AreSameProxies (p ∷ ps) (p' ∷ ps') = IsSameProxy p p' × AreSameProxies ps ps'
AreSameProxies _ _ = ⊥

-- Configurations that differ at most in the seed and in the rules of their proxies.
pub record DiffersInRules (c c' : Config) : Type 0 where
  pub api_version : c.api_version ≡ c'.api_version
  pub runtime : c.runtime ≡ c'.runtime
  pub proxies : AreSameProxies c.proxies c'.proxies

without_rules_same : (p p' : Proxy) → IsSameProxy p p' → without_rules p ≡ without_rules p'
without_rules_same p p' same = ground arith

without_rules_all :
    (ps ps' : List Proxy) → AreSameProxies ps ps' → map without_rules ps ≡ map without_rules ps'
without_rules_all [] [] same = refl
without_rules_all [] (p' ∷ ps') same = absurd same
without_rules_all (p ∷ ps) [] same = absurd same
without_rules_all (p ∷ ps) (p' ∷ ps') same =
    rw (without_rules_same p p' same.0, without_rules_all ps ps' same.1) refl

restart_part_same : (c c' : Config) → DiffersInRules c c' → restart_part c ≡ restart_part c'
unfolding restart_part
restart_part_same c c' d =
    rw (d.api_version, d.runtime, without_rules_all c.proxies c'.proxies d.proxies) refl

module _ (marshal : Config → Digests → Option Text) (sha256 : Text → Text) (digests : Digests) where
  -- What a document says of the configuration that it is made of.
  record IsPrinted (c : Config) (d : Document) : Type 0 where
    valid : d.valid ≡ true
    full : Text
    full_encoded : marshal (canonical c) digests ≡ some full
    full_hash : d.fingerprint ≡ sha256 full
    restart : Text
    restart_encoded : marshal (restart_part (canonical c)) digests ≡ some restart
    restart_hash : d.restart_fingerprint ≡ sha256 restart

  new_document-IsPrinted :
      (c : Config) (d : Document) → new_document marshal sha256 c digests ≡ some d → IsPrinted c d
  unfolding new_document
  new_document-IsPrinted c d h = elim (Option-cases (marshal (canonical c) digests)) [
    | inl failed ↦ absurd (ground (arith, failed))
    | inr (full, q) ↦ elim (Option-cases (marshal (restart_part (canonical c)) digests)) [
      | inl failed ↦ absurd (ground (arith, q, failed))
      | inr (restart, q') ↦ record {
        valid = ground (arith, q, q');
        full = full;
        full_encoded = q;
        full_hash = ground (arith, q, q');
        restart = restart;
        restart_encoded = q';
        restart_hash = ground (arith, q, q');
      }
    ]
  ]

  same_restart :
      (c c' : Config) (d d' : Document)
      → IsPrinted c d
      → IsPrinted c' d'
      → restart_part (canonical c) ≡ restart_part (canonical c')
      → restart_compatible (some d) (some d') ≡ true
  unfolding restart_compatible
  same_restart c c' d d' p p' same =
      let encoded : some p.restart ≡ some p'.restart =
        sym p.restart_encoded ∙ (ap (λ x. marshal x digests) same ∙ p'.restart_encoded) in
      let prints : d.restart_fingerprint ≡ d'.restart_fingerprint =
        p.restart_hash ∙ (ap sha256 (some_injective encoded) ∙ sym p'.restart_hash) in
      rw (p.valid, p'.valid, prints) (==_refl d'.restart_fingerprint)

  same_document :
      (c c' : Config) (d d' : Document)
      → IsPrinted c d
      → IsPrinted c' d'
      → canonical c ≡ canonical c'
      → equal (some d) (some d') ≡ true
  unfolding equal
  same_document c c' d d' p p' same =
      let encoded : some p.full ≡ some p'.full =
        sym p.full_encoded ∙ (ap (λ x. marshal x digests) same ∙ p'.full_encoded) in
      let prints : d.fingerprint ≡ d'.fingerprint =
        p.full_hash ∙ (ap sha256 (some_injective encoded) ∙ sym p'.full_hash) in
      rw (p.valid, p'.valid, prints) (==_refl d'.fingerprint)

  -- A configuration whose proxies, all of different names, are declared in another order has a document
  -- that is equal to the document of the first, and needs no restart.
  pub new_document-Perm :
      (c : Config) (ps : List Proxy) (d d' : Document)
      → HasDistinctIds c.proxies
      → Permᴰ c.proxies ps
      → new_document marshal sha256 c digests ≡ some d
      → new_document marshal sha256 (record c { proxies = ps }) digests ≡ some d'
      → (equal (some d) (some d') ≡ true) × (restart_compatible (some d) (some d') ≡ true)
  unfolding canonical
  new_document-Perm c ps d d' distinct perm h h' =
      let same : canonical c ≡ canonical (record c { proxies = ps }) =
        ap (λ qs. record c { proxies = qs }) (sort-Perm perm distinct).0 in
      let p = new_document-IsPrinted c d h in
      let p' = new_document-IsPrinted (record c { proxies = ps }) d' h' in
      (
        same_document c (record c { proxies = ps }) d d' p p' same,
        same_restart c (record c { proxies = ps }) d d' p p' (ap restart_part same),
      )

  insert-without_rules :
      (p : Proxy) (qs : List Proxy)
      → map without_rules (insert p qs) ≡ insert (without_rules p) (map without_rules qs)
  unfolding insert
  insert-without_rules p [] = refl
  insert-without_rules p (q ∷ qs) = ground (arith, insert-without_rules p qs)

  sort-without_rules : (ps : List Proxy) → map without_rules (sort ps) ≡ sort (map without_rules ps)
  unfolding sort
  sort-without_rules [] = refl
  sort-without_rules (p ∷ ps) =
      insert-without_rules p (sort ps) ∙ ap (insert (without_rules p)) (sort-without_rules ps)

  restart_part-canonical : (c : Config) → restart_part (canonical c) ≡ canonical (restart_part c)
  unfolding restart_part canonical
  restart_part-canonical c =
      ap (λ qs. record c { seed = 0; proxies = qs }) (sort-without_rules c.proxies)

  -- Two configurations that have the same version, runtime and, apart from their rules, proxies, and the same
  -- digests of their TLS files, have documents between which no restart is needed, whatever their seeds.
  pub new_document-restart :
      (c c' : Config) (d d' : Document)
      → DiffersInRules c c'
      → new_document marshal sha256 c digests ≡ some d
      → new_document marshal sha256 c' digests ≡ some d'
      → restart_compatible (some d) (some d') ≡ true
  new_document-restart c c' d d' differs h h' =
      same_restart c c' d d' (new_document-IsPrinted c d h) (new_document-IsPrinted c' d' h') (
        restart_part-canonical c
        ∙ (ap canonical (restart_part_same c c' differs) ∙ sym (restart_part-canonical c')))
