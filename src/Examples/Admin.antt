-- ===== src/Examples/Admin.antt =====
-- A local request that enables the proxy, and the status behind it.
use faultline.Common.{ℕ, true, false, none, some, [], ◌∷◌, Text, ◌≡◌, refl}
use faultline.Common.Strings.{codes, has_prefix}
use faultline.Control.Admin.{Request, ControlEvent, Reply, Server, handle, is_ready}
use faultline.Control.Admin.Audited.{Audited, handle-Audited}
use faultline.Control.Service.{Service}
use faultline.Recorder.State.{new}
use faultline.Examples.Control.{persist, service}
use faultline.Examples.Engine.{generator, hash, document, engine}

abbrev plain_service : Service ℕ ℕ
plain_service = record service { managed = false }

abbrev socket : Server ℕ ℕ
socket = record {
  service = plain_service;
  recorder = new 8;
  listeners =
      record { proxy_id = codes "orders"; address = codes "127.0.0.1:80"; ready = true } ∷ [];
  read_only = false;
}

abbrev enable_request : Request
enable_request = record {
  origin = [];
  method = "POST";
  path = "/enable";
  payload = none;
  alone = true;
  canceled = false;
}

abbrev encoded : ControlEvent → Text
encoded e = codes e.operation

handle-Audited_example :
    (reply : Reply) × (b : Server ℕ ℕ) × (handle encoded generator hash persist
        (λ p. has_prefix p (codes "/"))
        (λ p. some document)
        enable_request
        9
        socket
      ≡ some (reply, b))
    × Audited encoded enable_request socket b
handle-Audited_example =
    handle-Audited encoded generator hash persist (λ p. has_prefix p (codes "/"))
      (λ p. some document) enable_request 9 socket (record { document = document; engine = engine })
      refl

all_listening : is_ready socket.listeners ≡ true
unfolding is_ready
all_listening = refl
