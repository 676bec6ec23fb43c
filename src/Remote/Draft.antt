-- ===== src/Remote/Draft.antt =====
-- internal/control/remote/server.go, `Draft` and `document`: the edits of the rules of all proxies.
pub mod Edits
use faultline.Common.{
  ℕ, Bool, true, false, not, ◌&&◌, Option, none, some, List, [], ◌∷◌, String, Text, ◌==◌, text_eq,
  nat_eq, length, contains, if◌then◌else◌,
}
use faultline.Config.Model.{Config, Proxy, Rule}
use faultline.Config.Document.{Document}

pub record ProxyDraft : Type 0 where
  pub id : Text
  pub rules : List Rule

pub record Draft : Type 0 where
  pub base_revision : ℕ
  pub proxies : List ProxyDraft

pub data Edited (A : Type 0) : Type 0 where
  edited : A → Edited A
  rejected : String → Edited A

-- The inner loop, which ends at the first proxy with the ID; `none` for `!found`.
unfoldable pub edit_rules : ProxyDraft → List Proxy → Option (List Proxy)
edit_rules edit [] = none
edit_rules edit (p ∷ ps) =
    let behind = edit_rules edit ps in
    if p.id == edit.id
    then some (record p { rules = edit.rules } ∷ ps)
    else elim behind [ none ↦ none | some qs ↦ some (p ∷ qs) ]

-- The loop over the edits; `seen` are the IDs so far.
unfoldable pub edit_proxies : List ProxyDraft → List Text → List Proxy → Edited (List Proxy)
edit_proxies [] seen ps = edited ps
edit_proxies (edit ∷ edits) seen ps = elim (contains seen edit.id) [
  | true ↦ rejected "proxies: duplicate proxy"
  | false ↦ elim (edit_rules edit ps) [
    | none ↦ rejected "proxies: unknown proxy"
    | some qs ↦ edit_proxies edits (edit.id ∷ seen) qs
  ]
]

unfoldable pub draft_config : Draft → Config → Edited Config
draft_config d c =
    if not (length d.proxies == length c.proxies)
    then rejected "proxies: all existing proxies are required"
    else elim (edit_proxies d.proxies [] c.proxies) [
      | rejected message ↦ rejected message
      | edited ps ↦ edited (record c { proxies = ps })
    ]
