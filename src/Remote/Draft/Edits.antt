-- ===== src/Remote/Draft/Edits.antt =====
-- What the configuration of a draft has in common with the active one.
use faultline.Common.{
  true, false, not, Option, none, some, List, [], ◌∷◌, map, String, Text, ◌==◌, ==_cases, ==_refl,
  text_eq, nat_eq, ◌≡◌, refl, ap, ◌∙◌, arith, length, All, contains, Bool-cases, Option-cases, ◌⊎◌,
  inl, inr, if◌then◌else◌,
}
use faultline.Config.Model.{Config, Proxy, Rule}
use faultline.Config.Fingerprint.{restart_part, without_rules}
use faultline.Remote.Draft.{
  ProxyDraft, Draft, Edited, edited, rejected, edit_rules, edit_proxies, draft_config,
}

-- The rules of the first proxy with the name.
abbrev pub rules_of : Text → List Proxy → Option (List Rule)
rules_of id [] = none
rules_of id (p ∷ ps) = if p.id == id then some p.rules else rules_of id ps

-- One edit: nothing but its proxy's rules changes.
record IsEdit (edit : ProxyDraft) (ps qs : List Proxy) : Type 0 where
  same_rest : map without_rules qs ≡ map without_rules ps
  given : rules_of edit.id qs ≡ some edit.rules
  others : (id : Text) → (edit.id == id) ≡ false → rules_of id qs ≡ rules_of id ps

edit_rules-IsEdit :
    (edit : ProxyDraft) (ps qs : List Proxy) → edit_rules edit ps ≡ some qs → IsEdit edit ps qs
unfolding edit_rules
edit_rules-IsEdit edit [] qs h = cc
edit_rules-IsEdit edit (p ∷ ps) qs h = elim (==_cases p.id edit.id) [
  | inl (same, named) ↦
      let made : qs ≡ record p { rules = edit.rules } ∷ ps = ground (arith, same, h) in
      rw made (record {
        same_rest = refl;
        given = ground (arith, same);
        others = λ id other. ground (arith, named, other);
      })
  | inr other ↦ elim (Option-cases (edit_rules edit ps)) [
    | inl missing ↦ absurd (ground (arith, other, missing, h))
    | inr (rest, found) ↦
        let made : qs ≡ p ∷ rest = ground (arith, other, found, h) in
        let behind = edit_rules-IsEdit edit ps rest found in
        rw made (record {
          same_rest = ap (◌∷◌ (without_rules p)) behind.same_rest;
          given = ground (arith, other, behind.given);
          others = λ id differs. ground (arith, behind.others id differs);
        })
  ]
]

abbrev pub HasRules : List Proxy → List ProxyDraft → Type 0
HasRules qs = All (λ edit. rules_of edit.id qs ≡ some edit.rules)

record IsEdited (edits : List ProxyDraft) (seen : List Text) (ps qs : List Proxy) : Type 0 where
  same_rest : map without_rules qs ≡ map without_rules ps
  given : HasRules qs edits
  others : (id : Text) → contains seen id ≡ true → rules_of id qs ≡ rules_of id ps

edit_proxies-IsEdited :
    (edits : List ProxyDraft) (seen : List Text) (ps qs : List Proxy)
    → edit_proxies edits seen ps ≡ edited qs
    → IsEdited edits seen ps qs
unfolding edit_proxies
edit_proxies-IsEdited [] seen ps qs h =
    let made : qs ≡ ps = cc in
    rw made (record { same_rest = refl; given = tt; others = λ id s. refl })
edit_proxies-IsEdited (edit ∷ edits) seen ps qs h = elim (Bool-cases (contains seen edit.id)) [
  | inl again ↦ absurd (ground (arith, again, h))
  | inr fresh ↦ elim (Option-cases (edit_rules edit ps)) [
    | inl missing ↦ absurd (ground (arith, fresh, missing, h))
    | inr (first, found) ↦
        let one = edit_rules-IsEdit edit ps first found in
        let later =
          edit_proxies-IsEdited edits (edit.id ∷ seen) first qs (ground (arith, fresh, found, h)) in
        record {
          same_rest = later.same_rest ∙ one.same_rest;
          given = (later.others edit.id (ground (arith, ==_refl edit.id)) ∙ one.given, later.given);
          others = λ id known. elim (==_cases edit.id id) [
            | inl (same, named) ↦ absurd (ground (arith, fresh, known, named))
            | inr other ↦ later.others id (ground (arith, other, known)) ∙ one.others id other
          ];
        }
  ]
]

Edited-cases :
    {A : Type 0} (r : Edited A)
    → ((a : A) × (r ≡ edited a)) ⊎ ((message : String) × (r ≡ rejected message))
Edited-cases (edited a) = inl (a, refl)
Edited-cases (rejected message) = inr (message, refl)

-- A draft that is accepted gives a configuration that has the rules of the draft for each proxy that it
-- names, and is the active configuration in everything that only a restart can change.
pub draft_config-IsEdited :
    (d : Draft) (c c' : Config)
    → draft_config d c ≡ edited c'
    → (restart_part c' ≡ restart_part c) × (c'.seed ≡ c.seed) × HasRules c'.proxies d.proxies
unfolding draft_config restart_part
draft_config-IsEdited d c c' h = elim (Bool-cases (not (length d.proxies == length c.proxies))) [
  | inl q ↦ absurd (ground (arith, q, h))
  | inr q ↦ elim (Edited-cases (edit_proxies d.proxies [] c.proxies)) [
    | inr (message, failed) ↦ absurd (ground (arith, q, failed, h))
    | inl (ps, done) ↦
        let made : c' ≡ record c { proxies = ps } = ground (arith, q, done, h) in
        let whole = edit_proxies-IsEdited d.proxies [] c.proxies ps done in
        rw made (ap (λ qs. record c { seed = 0; proxies = qs }) whole.same_rest, refl, whole.given)
  ]
]
