-- ===== src/Control/Admin.antt =====
-- internal/control/admin/server.go: `status` and `handle` of the local admin socket. The lock makes the part behind
-- it one step. The decoded body, the test for an absolute path, the loader behind `ReloadFile` and the texts of the
-- events are parameters.
pub mod Audited
use mathlib.Core.Option
use faultline.Common.{
  ℕ, Bool, true, false, not, ◌&&◌, ◌||◌, Option, none, some, List, [], ◌∷◌, ◌++◌, map, String, Text,
  ◌==◌, string_eq, is_nil, if◌then◌else◌,
}
use faultline.Common.Strings.{codes}
use faultline.Config.Model.{Rule, Proxy}
use faultline.Config.Document.{Document}
use faultline.Control.Service.{
  Info, Revision, Applied, Answer, applied, refused, Refusal, Service, Persist, Snapshot, acquire,
  revision_of, set_enabled, reload,
}
use faultline.Engine.State.{Engine, no_counters, counters}
use faultline.Recorder.State.{Counters as RunCounters, Event, Recorder, record_event}

pub record RuleCounters : Type 0 where
  pub proxy_id : Text
  pub rule_id : Text
  pub eligible : ℕ
  pub selected : ℕ

-- internal/control/status.go
pub record ListenerStatus : Type 0 where
  pub proxy_id : Text
  pub address : Text
  pub ready : Bool

pub record Status : Type 0 where
  pub info : Info
  pub ready : Bool
  pub listeners : List ListenerStatus
  pub run_counters : RunCounters
  pub rules : List RuleCounters

-- `payload` is the `config` of the body, unless it is no object of this form; `alone` says that nothing follows it.
pub record Request : Type 0 where
  pub origin : Text
  pub method : String
  pub path : String
  pub payload : Option Text
  pub alone : Bool
  pub canceled : Bool

-- The event of an operation, as far as `Record` does not read it.
pub record ControlEvent : Type 0 where
  pub info : Info
  pub operation : String
  pub changed : Bool
  pub outcome : String
  pub error_kind : String

pub data Reply : Type 0 where
  shown : Status → Reply
  performed : Applied → Reply
  error_reply : ℕ → Reply
  unanswered : Reply

pub record Server (R S : Type 0) : Type 0 where
  pub service : Service R S
  pub recorder : Recorder
  pub listeners : List ListenerStatus
  pub read_only : Bool

abbrev pub all_ready : List ListenerStatus → Bool
all_ready [] = true
all_ready (l ∷ ls) = l.ready && all_ready ls

-- `len(listeners) > 0`, and each of them ready.
unfoldable pub is_ready : List ListenerStatus → Bool
is_ready [] = false
is_ready (l ∷ ls) = all_ready (l ∷ ls)

module _ {R : Type 0} where
  -- The counters of a rule, or zero values if it is not there.
  unfoldable pub rule_status : Engine R → Text → Rule → RuleCounters
  rule_status e proxy_id r =
      let c = Option.get_or (counters e proxy_id r.id) no_counters in
      record { proxy_id = proxy_id; rule_id = r.id; eligible = c.eligible; selected = c.selected }

  unfoldable pub rule_statuses : Engine R → List Proxy → List RuleCounters
  rule_statuses e [] = []
  rule_statuses e (p ∷ ps) = map (rule_status e p.id) p.rules ++ rule_statuses e ps

module _ {R S : Type 0} where
  -- `none` is a panic on a nil revision.
  unfoldable pub status : Server R S → Option Status
  status a = elim (revision_of (acquire a.service) a.service) [
    | none ↦ none
    | some revision ↦ some (record {
      info = (acquire a.service).info;
      ready = is_ready a.listeners;
      listeners = a.listeners;
      run_counters = a.recorder.counts;
      rules = rule_statuses revision.engine revision.document.config.proxies;
    })
  ]

-- `r.URL.Path[1:]` for the three paths that are operations.
unfoldable pub operation_of : String → Option String
operation_of path =
    if path == "/enable"
    then some "enable"
    else if path == "/disable"
    then some "disable"
    else if path == "/reload"
    then some "reload"
    else none

module _ (encoded : ControlEvent → Text) where
  unfoldable pub control_event : ControlEvent → Event
  control_event e = record {
    kind = "control";
    rule_id = [];
    selected = false;
    applied = false;
    outcome = codes e.outcome;
    rest = encoded e;
  }

  module _ {R S : Type 0} where
    -- `GET /status`
    unfoldable pub show_status : Server R S → Option (Reply × Server R S)
    show_status a = elim (status a) [
      | none ↦ none
      | some shows ↦ some (
        shown shows,
        record a {
          recorder =
              record_event
                (control_event (record {
                  info = shows.info;
                  operation = "status";
                  changed = false;
                  outcome = "ok";
                  error_kind = "";
                }))
                a.recorder;
        },
      )
    ]

    -- What follows the service's answer.
    unfoldable pub answer : String → Server R S → Answer × Service R S → Reply × Server R S
    answer operation a (applied result, service) = (
      performed result,
      record a {
        service = service;
        recorder =
            record_event
              (control_event (record {
                info = result.info;
                operation = operation;
                changed = result.changed;
                outcome = "ok";
                error_kind = "";
              }))
              a.recorder;
      },
    )
    answer operation a (refused e, service) = (
      error_reply 400,
      record a {
        service = service;
        recorder =
            record_event
              (control_event (record {
                info = (acquire service).info;
                operation = operation;
                changed = false;
                outcome = "rejected";
                error_kind = "invalid_config";
              }))
              a.recorder;
      },
    )

  module _ {R S : Type 0} (new_pcg : ℕ → ℕ → R) (sha256 : Text → Text) (persist : Persist S)
      (is_abs : Text → Bool) (load : Text → Option Document) where
    -- Behind the lock: `ReloadFile` or `SetEnabled`.
    unfoldable pub perform : String → Text → ℕ → Server R S → Option (Reply × Server R S)
    perform operation config now a =
        let (result, service) = set_enabled (operation == "enable") now a.service in
        if operation == "reload"
        then Option.map (answer operation a)
            (reload new_pcg sha256 persist (load config) now a.service)
        else some (answer operation a (applied result, service))

    -- The body of a reload; `none` is the error for it.
    unfoldable pub config_of : String → Request → Option Text
    config_of operation r = if not (operation == "reload") then some [] else elim r.payload [
      | none ↦ none
      | some config ↦ if not (is_abs config) || not r.alone then none else some config
    ]

    -- From the test of the mode on.
    unfoldable pub mutate : String → Request → ℕ → Server R S → Option (Reply × Server R S)
    mutate operation r now a =
        if a.read_only then some (error_reply 403, a) else elim (config_of operation r) [
          | none ↦ some (error_reply 400, a)
          | some config ↦
              if r.canceled then some (unanswered, a) else perform operation config now a
        ]

    unfoldable pub handle : Request → ℕ → Server R S → Option (Reply × Server R S)
    handle r now a =
        if not (is_nil r.origin)
        then some (error_reply 403, a)
        else if r.path == "/status" && r.method == "GET"
        then show_status a
        else elim (operation_of r.path) [
          | none ↦ some (error_reply 404, a)
          | some operation ↦
              if not (r.method == "POST")
              then some (error_reply 404, a)
              else mutate operation r now a
        ]
