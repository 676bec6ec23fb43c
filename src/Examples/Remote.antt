-- ===== src/Examples/Remote.antt =====
-- A managed instance with one editor, and the requests that he sends.
use faultline.Common.{
  ℕ, Bool, true, false, Option, none, some, [], ◌∷◌, Text, text_eq, text_beq, ◌≡◌, ◌⊎◌, refl, arith,
  map,
}
use faultline.Common.Strings.{codes}
use faultline.Config.Model.{Config}
use faultline.Config.Document.{Document}
use faultline.Config.Fingerprint.{restart_part, without_rules}
use faultline.Control.Service.{set_enabled}
use faultline.Recorder.State.{zero_counters}
use faultline.Remote.Store.{Store, State, Attempt, audit, save, atomic_file}
use faultline.Remote.Accounts.{User, verify_password}
use faultline.Remote.Draft.{Draft, edited, draft_config, edit_proxies, edit_rules}
use faultline.Remote.Draft.Edits.{HasRules, draft_config-IsEdited}
use faultline.Remote.Server.{
  Server, Request, Response, Session, reply, result_view, record_control, operation, is_asset,
  expire, is_logged_in, same_account,
}
use faultline.Remote.Login.{audited, with_saved}
use faultline.Remote.Handler.{serve, serve_locked, serve_session, look, operate, edit, switch}
use faultline.Remote.Kept.{store_after}
use faultline.Remote.Editors.{SameControl, IsEditor, serve-Allowed}
use faultline.Remote.Limits.{IsWithin, serve-IsWithin}
use faultline.Remote.Synced.{IsStored}
use faultline.Remote.Durable.{IsSynced, serve-IsSynced}
use faultline.Examples.Engine.{generator, hash, document, engine}
use faultline.Examples.Control.{initial}
use faultline.Examples.Validate.{config}

-- Every write succeeds.
abbrev write_attempt : Unit {0} → Attempt × Unit {0}
write_attempt u = (
  record {
    now = 1;
    marshal_fails = false;
    create_fails = false;
    write_fails = false;
    sync_fails = false;
    close_fails = false;
    rename_fails = false;
    open_dir_fails = false;
    sync_dir_fails = false;
  },
  u,
)

abbrev encode : Config → Option Text
encode c = some []

abbrev parse : Text → Option Document
parse t = some document

abbrev verify : User → Text → Bool
verify = verify_password (λ t. some t) (λ t. t) (λ password salt. password)

abbrev state : State
state = record {
  version = 1;
  config = [];
  revision = 5;
  last_apply = record { changed = false; info = initial };
  audit = [];
}

abbrev store : Store (Unit {0})
store = record { state = state; poisoned = false; file = some state; files = tt }

abbrev session : Session
session = record {
  name = codes "ed";
  role = codes "editor";
  hash = codes "h";
  csrf = codes "c";
  expires = 100;
}

abbrev server : Server ℕ (Unit {0})
server = record {
  service = record {
    active = record { info = initial; revision = 0 };
    revisions = record { document = document; engine = engine } ∷ [];
    managed = true;
    saved = store;
  };
  sessions = (codes "t", session) ∷ [];
  login_window = 0;
  login_count = 0;
  records = record {
    counts = zero_counters;
    outcomes = [];
    queue = [];
    capacity = 4;
    sent = none;
    finished = false;
    aborted = false;
    closed = false;
  };
  failed = false;
}

abbrev enabling : Request
enabling = record {
  has_tls = true;
  method = "POST";
  path = "/api/enable";
  origin = [];
  host = [];
  cookie = some (codes "t");
  csrf_token = codes "c";
  draft = none;
  credentials = none;
  now = 50;
  users = some ((codes "ed", record { role = codes "editor"; salt = []; hash = codes "h" }) ∷ []);
  token = [];
  new_csrf = [];
}

abbrev audited_server : Server ℕ (Unit {0})
audited_server =
    with_saved (store_after write_attempt (codes "ed") "enable" (codes "ok") server) server

abbrev enabled_server : Server ℕ (Unit {0})
enabled_server =
    record_control (codes "enable") (codes "ok")
      (record audited_server { service = (set_enabled true 50 audited_server.service).1 })

abbrev enabled_response : Response
enabled_response = reply 200 (result_view (set_enabled true 50 audited_server.service).0)

enabled :
    serve generator hash write_attempt encode parse verify enabling server
    ≡ some (enabled_response, enabled_server)
unfolding serve serve_locked serve_session look operate edit audited switch operation is_asset
    expire is_logged_in same_account text_beq audit save atomic_file
enabled = refl

serve-Allowed_example : SameControl server enabled_server ⊎ IsEditor enabling server
serve-Allowed_example =
    serve-Allowed generator hash write_attempt encode parse enabling server verify enabled

server-IsWithin : IsWithin server
server-IsWithin = record { few_sessions = omega arith; few_logins = omega arith }

serve-IsWithin_example : IsWithin enabled_server
serve-IsWithin_example =
    serve-IsWithin generator hash write_attempt encode parse verify enabling server server-IsWithin
      enabled

store_held : IsStored 5 store
store_held = record {
  held = refl;
  certain = λ q. refl;
  uncertain = λ q. absurd cc;
  bounded = omega arith;
}

service-IsSynced : IsSynced server.service
service-IsSynced = record { managed = refl; stored = store_held }

serve-IsSynced_example : IsSynced enabled_server.service
serve-IsSynced_example =
    serve-IsSynced generator hash write_attempt encode parse verify enabling server service-IsSynced
      enabled

abbrev draft : Draft
draft = record {
  base_revision = 5;
  proxies = record { id = codes "p"; rules = [] } ∷ record { id = codes "q"; rules = [] } ∷ [];
}

abbrev without_faults : Config
without_faults = record config { proxies = map without_rules config.proxies }

draft_accepted : draft_config draft config ≡ edited without_faults
unfolding draft_config edit_proxies edit_rules text_beq
draft_accepted = refl

draft_config-IsEdited_example :
    (restart_part without_faults ≡ restart_part config)
    × (without_faults.seed ≡ config.seed)
    × HasRules without_faults.proxies draft.proxies
draft_config-IsEdited_example = draft_config-IsEdited draft config without_faults draft_accepted
