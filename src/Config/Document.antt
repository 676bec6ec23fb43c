-- ===== src/Config/Document.antt =====
-- internal/config/config.go, `Document`: what a validated configuration carries. A value is never
-- changed through another in this model, so the clones that the accessors return are the values.
use faultline.Common.{Bool, false, ◌&&◌, Option, none, some, Text, ◌==◌, text_eq}
use faultline.Config.Model.{Config}

pub record Document : Type 0 where
  pub config : Config
  pub valid : Bool
  pub fingerprint : Text
  pub restart_fingerprint : Text

-- A nil document is not valid.
unfoldable pub is_valid : Option Document → Bool
is_valid none = false
is_valid (some d) = d.valid

unfoldable pub equal : Option Document → Option Document → Bool
unfolding is_valid
equal none other = false
equal (some d) none = false
equal (some d) (some other) = d.valid && other.valid && d.fingerprint == other.fingerprint

unfoldable pub restart_compatible : Option Document → Option Document → Bool
unfolding is_valid
restart_compatible none other = false
restart_compatible (some d) none = false
restart_compatible (some d) (some other) =
    d.valid && other.valid && d.restart_fingerprint == other.restart_fingerprint
