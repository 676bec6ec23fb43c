-- ===== src/Remote/Store.antt =====
-- internal/control/remote/store.go: the state of a managed instance, in memory and in its file. What the file
-- system answers comes from an environment `F`, one attempt for each write.
use faultline.Common.{
  ℕ, ◌+◌, ◌-◌, ◌^◌, ◌%◌, Bool, true, false, not, ◌||◌, Option, none, some, List, [], ◌∷◌, ◌++◌,
  Text, ◌==◌, nat_eq, length, drop, if◌then◌else◌,
}
use faultline.Common.Strings.{codes}
use faultline.Config.Model.{Config}
use faultline.Config.Document.{Document, equal}
use faultline.Control.Service.{Applied, Persist, Info}

pub record Audit : Type 0 where
  pub time : ℕ
  pub actor : Text
  pub operation : Text
  pub revision : ℕ
  pub outcome : Text

pub record State : Type 0 where
  pub version : ℕ
  pub config : Text
  pub revision : ℕ
  pub last_apply : Applied
  pub audit : List Audit

-- What the steps of one write answer, true for an error, with the clock.
pub record Attempt : Type 0 where
  pub now : ℕ
  pub marshal_fails : Bool
  pub create_fails : Bool
  pub write_fails : Bool
  pub sync_fails : Bool
  pub close_fails : Bool
  pub rename_fails : Bool
  pub open_dir_fails : Bool
  pub sync_dir_fails : Bool

-- `atomicFile`: whether the file was renamed, and whether there is an error.
unfoldable pub atomic_file : Attempt → Bool × Bool
atomic_file a =
    if a.create_fails
    then (false, true)
    else if a.write_fails || a.sync_fails || a.close_fails
    then (false, true)
    else if a.rename_fails
    then (false, true)
    else (true, a.open_dir_fails || a.sync_dir_fails)

-- The store, with the state that its file holds, if there is one.
pub record Store (F : Type 0) : Type 0 where
  pub state : State
  pub poisoned : Bool
  pub file : Option State
  pub files : F

abbrev pub audit_limit : ℕ
audit_limit = 1000

-- The entries of a trail that the limit leaves.
unfoldable pub trim : List Audit → List Audit
trim entries = drop (length entries - audit_limit) entries

unfoldable pub append_audit : State → ℕ → Text → Text → Text → ℕ → State
append_audit st now actor operation outcome revision = record st {
  audit = trim (
      st.audit
      ++ record {
        time = now;
        actor = actor;
        operation = operation;
        revision = revision;
        outcome = outcome;
      }
        ∷ []);
}

-- Go's zero values.
abbrev no_info : Info
no_info = record {
  run_id = [];
  revision = 0;
  enabled = false;
  control_sequence = 0;
  applied_at = 0;
  state_changed_at = 0;
}

abbrev no_result : Applied
no_result = record { changed = false; info = no_info }

-- The errors of `save`.
abbrev pub uncertain : ℕ
uncertain = 1

abbrev pub not_encoded : ℕ
not_encoded = 2

abbrev pub not_written : ℕ
not_written = 3

-- What `apply` saves.
unfoldable pub applied_state : State → ℕ → Text → Text → Applied → State
applied_state st now actor encoded result =
    record (append_audit st now actor (codes "apply") (codes "ok") result.info.revision) {
      config = encoded;
      revision = result.info.revision;
      last_apply = result;
    }

-- What `Configure` saves of a document that differs from the current one.
unfoldable pub configured_state : State → ℕ → Text → State
configured_state st now encoded =
    let next = (st.revision + 1) % 2 ^ 64 in
    record (append_audit st now (codes "operator") (codes "configure") (codes "ok") next) {
      config = encoded;
      revision = next;
      last_apply = record {
        changed = true;
        info = record no_info { revision = next; applied_at = now };
      };
    }

-- The state with which `load` begins where there is no file.
unfoldable pub bootstrap_state : ℕ → Text → State
bootstrap_state now encoded = record {
  version = 1;
  config = encoded;
  revision = 1;
  last_apply = no_result;
  audit =
      record {
        time = now;
        actor = codes "operator";
        operation = codes "bootstrap";
        revision = 1;
        outcome = codes "ok";
      }
      ∷ [];
}

-- `load` behind the decoder: `none` is its error.
unfoldable pub load_state : State → Option State
load_state st = if not (st.version == 1) || st.revision == 0 then none else some st

module _ {F : Type 0} (attempt : F → Attempt × F) where
  -- What a write leaves, with `renamed` and the error of `atomicFile`.
  abbrev pub after_write : Bool × Bool → State → Store F → Option ℕ × Store F
  after_write (renamed, true) next s = (
    some not_written,
    record s { poisoned = renamed; file = if renamed then some next else s.file },
  )
  after_write (renamed, false) next s = (none, record s { state = next; file = some next })

  unfoldable pub save : State → Attempt → Store F → Option ℕ × Store F
  save next a s =
      if s.poisoned
      then (some uncertain, s)
      else if a.marshal_fails
      then (some not_encoded, s)
      else after_write (atomic_file a) next s

  -- The environment behind one attempt.
  abbrev pub attempted : Store F → Attempt × Store F
  attempted s = ((attempt s.files).0, record s { files = (attempt s.files).1 })

  -- `Store.audit`
  unfoldable pub audit : Text → Text → Text → ℕ → Store F → Option ℕ × Store F
  audit actor operation outcome revision s =
      let (a, s') = attempted s in
      save (append_audit s'.state a.now actor operation outcome revision) a s'

  -- `Store.apply`, which the service calls to persist a revision.
  unfoldable pub persist : (Config → Option Text) → Text → Persist (Store F)
  persist encode actor d result s = elim (encode d.config) [
    | none ↦ (some not_encoded, s)
    | some encoded ↦
        let (a, s') = attempted s in save (applied_state s'.state a.now actor encoded result) a s'
  ]

  -- `Configure` behind `Open` and `Load`, on the current document and the new one.
  unfoldable pub configure :
      (Config → Option Text) → Document → Document → Store F → Option ℕ × Store F
  configure encode current d s =
      if equal (some current) (some d)
      then audit (codes "operator") (codes "configure") (codes "no_op") s.state.revision s
      else elim (encode d.config) [
        | none ↦ (some not_encoded, s)
        | some encoded ↦
            let (a, s') = attempted s in save (configured_state s'.state a.now encoded) a s'
      ]
