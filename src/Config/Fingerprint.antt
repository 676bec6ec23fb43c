-- ===== src/Config/Fingerprint.antt =====
-- internal/config/config.go, `newDocument`: the fingerprints of a configuration, under its proxies in the
-- order of their IDs. JSON and SHA-256 are parameters. The sort of the code takes any order of equal IDs;
-- this one keeps theirs, and a configuration that `finish` hands over has none.
pub mod Order
pub mod Prints
use faultline.Common.{
  ℕ, Bool, true, false, ◌&&◌, ◌||◌, Option, none, some, List, [], ◌∷◌, Text, ◌==◌, nat_eq, ltb, map,
  if◌then◌else◌,
}
use faultline.Config.Model.{Config, Proxy, Rule}
use faultline.Config.Document.{Document}
use faultline.Config.Tls.{Digests}

-- `a < b` on strings
unfoldable pub text_lt : Text → Text → Bool
text_lt [] [] = false
text_lt [] (b ∷ t) = true
text_lt (a ∷ s) [] = false
text_lt (a ∷ s) (b ∷ t) = ltb a b || a == b && text_lt s t

unfoldable pub insert : Proxy → List Proxy → List Proxy
insert p [] = p ∷ []
insert p (q ∷ qs) = let behind = insert p qs in if text_lt q.id p.id then q ∷ behind else p ∷ q ∷ qs

unfoldable pub sort : List Proxy → List Proxy
sort [] = []
sort (p ∷ ps) = insert p (sort ps)

abbrev pub without_rules : Proxy → Proxy
without_rules p = record p { rules = [] }

-- What of a configuration only a restart can change.
unfoldable pub restart_part : Config → Config
restart_part c = record c { seed = 0; proxies = map without_rules c.proxies }

unfoldable pub canonical : Config → Config
canonical c = record c { proxies = sort c.proxies }

module _ (marshal : Config → Digests → Option Text) (sha256 : Text → Text) where
  unfoldable pub new_document : Config → Digests → Option Document
  new_document c digests = elim (marshal (canonical c) digests) [
    | none ↦ none
    | some full ↦ elim (marshal (restart_part (canonical c)) digests) [
      | none ↦ none
      | some restart ↦ some (record {
        config = c;
        valid = true;
        fingerprint = sha256 full;
        restart_fingerprint = sha256 restart;
      })
    ]
  ]
