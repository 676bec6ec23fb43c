-- ===== src/Config/Validate/Engines.antt =====
-- The configuration that validation returns, under the engine.
use faultline.Common.{ℕ, ◌^◌, ◌<◌, true, List, [], ◌∷◌, some, String, Text, ◌≡◌, All, length, arith}
use faultline.Common.Float.{Float64}
use faultline.Config.Model.{Config, Proxy, Rule}
use faultline.Config.Errors.{ok}
use faultline.Config.Document.{Document}
use faultline.Config.Selector.Valid.{IsSelector}
use faultline.Config.Platform.{Platform}
use faultline.Config.Tls.{Digests}
use faultline.Config.Validate.{validate}
use faultline.Config.Validate.Valid.{IsValidRule}
use faultline.Config.Validate.Proxies.{IsValidProxy, validate-IsValid}
use faultline.Engine.State.{Engine, new, new_proxies}
use faultline.Engine.State.Runs.{Call, run, AllRules, new-run-IsCounted}
use faultline.Engine.State.Counting.{IsCounted}

rules-IsSelector :
    (protocol : String) (rs : List Rule)
    → All (IsValidRule protocol) rs
    → All (λ r. IsSelector r.select) rs
rules-IsSelector protocol [] h = tt
rules-IsSelector protocol (r ∷ rs) h = (h.0.selects, rules-IsSelector protocol rs h.1)

proxies-IsSelector :
    (ps : List Proxy) → All IsValidProxy ps → All (λ p. All (λ r. IsSelector r.select) p.rules) ps
proxies-IsSelector [] h = tt
proxies-IsSelector (p ∷ ps) h =
    (rules-IsSelector p.protocol p.rules h.0.rules_valid, proxies-IsSelector ps h.1)

module _ {R : Type 0} (new_pcg : ℕ → ℕ → R) (sha256 : Text → Text) (draw : R → Float64 × R) where
  -- From a document that carries what validation returned, an engine is made, and it answers any sequence
  -- of fewer than 2^64 calls of `Decide` without a panic; each rule has then selected what its selector
  -- promises.
  pub validate-run :
      (lib : Platform) (c : Config) (base : Text) (digests : Digests) (d : Document)
      (calls : List Call)
      → validate lib c base ≡ ok (d.config, digests)
      → d.valid ≡ true
      → length calls < 2 ^ 64
      → (e : Engine R) × (new new_pcg sha256 (some d) ≡ some e)
        × (e' : Engine R) × (run draw e calls ≡ some e')
        × AllRules (IsCounted (length calls)) e'
  unfolding new
  validate-run lib c base digests d calls h valid fits =
      let (checked, same) = validate-IsValid lib c base d.config digests h in
      let e = new_proxies new_pcg sha256 d.config.seed d.config.proxies [] in
      let made : new new_pcg sha256 (some d) ≡ some e = ground arith in
      let (e', ran, counted) =
        new-run-IsCounted new_pcg sha256 draw d e calls
          (proxies-IsSelector d.config.proxies checked.proxies_valid) made fits in
      (e, made, e', ran, counted)
