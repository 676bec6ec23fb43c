-- ===== src/Examples/Control.antt =====
-- A managed service that counts what it persists, and two revisions.

use faultline.Common.{ℕ, ◌+◌, true, false, none, some, [], ◌∷◌, ◌≡◌, refl, arith, text_beq}
use faultline.Common.Bytes.{le_bytes, from_le_bytes}
use faultline.Common.Strings.{codes}
use faultline.Config.Document.{Document, equal, restart_compatible}
use faultline.Engine.State.{new, new_proxies, assign, new_rule_state, seed_material}
use faultline.Control.Service.{
  Info, Answer, applied, refused, conflict, Service, Persist, next_info, publish, apply,
  apply_revision, replace, save, persisted, new_service, new_managed,
}
use faultline.Control.Advance.{IsAtomic, Advances}
use faultline.Control.Apply.{apply-IsAtomic}
use faultline.Control.Runs.{start, replace_if, Reaches-Advances, apply_revision_once}
use faultline.Control.Total.{apply_revision-returns}
use faultline.Examples.Engine.{generator, hash, draw, document, engine}

abbrev pub persist : Persist ℕ
persist d r saved = (none, saved + 1)

abbrev changed_document : Document
changed_document = record document { fingerprint = 1 ∷ [] }

abbrev pub initial : Info
initial = record {
  run_id = codes "RUN";
  revision = 5;
  enabled = false;
  control_sequence = 0;
  applied_at = 100;
  state_changed_at = 100;
}

abbrev pub service : Service ℕ ℕ
service = record {
  active = record { info = initial; revision = 0 };
  revisions = record { document = document; engine = engine } ∷ [];
  managed = true;
  saved = 0;
}

abbrev replaced : Service ℕ ℕ
replaced = record {
  active = record { info = next_info 200 initial; revision = 1 };
  revisions =
      record { document = document; engine = engine }
      ∷ record { document = changed_document; engine = engine }
      ∷ [];
  managed = true;
  saved = 1;
}

abbrev answer : Answer
answer = applied (record { changed = true; info = next_info 200 initial })

service_made : new_managed generator hash (codes "RUN") 100 (some document) 5 0 ≡ some service
unfolding new_managed new_service new new_proxies assign new_rule_state from_le_bytes seed_material
    le_bytes
service_made = refl

applied_once :
    apply generator hash persist (some changed_document) (some 5) 200 service
    ≡ some (answer, replaced)
unfolding apply replace restart_compatible text_beq equal new save persisted publish new_proxies
    assign new_rule_state from_le_bytes seed_material le_bytes
applied_once = refl

revised_once :
    apply_revision generator hash persist (some changed_document) 5 200 service
    ≡ some (answer, replaced)
unfolding apply_revision
revised_once = applied_once

apply-IsAtomic_example : IsAtomic changed_document 200 service answer replaced
apply-IsAtomic_example =
    apply-IsAtomic generator hash persist changed_document (some 5) 200 service applied_once

Reaches-Advances_example : Advances 1 service replaced
Reaches-Advances_example =
    Reaches-Advances draw generator hash persist
      (replace_if (some changed_document) 5 200 start revised_once)

apply_revision_once_example :
    apply_revision generator hash persist (some document) 5 300 replaced
    ≡ some (refused conflict, replaced)
apply_revision_once_example =
    apply_revision_once draw generator hash persist changed_document document 5 200 300 service refl
      revised_once refl start (omega arith)

apply_revision-returns_example :
    (r : Answer × Service ℕ ℕ) × (apply_revision generator hash persist none 5 300 replaced
      ≡ some r)
apply_revision-returns_example =
    apply_revision-returns draw generator hash persist (codes "RUN") 100 (some document) 5 0 service
      replaced 1 service_made (replace_if (some changed_document) 5 200 start revised_once) none 5
      300
