-- ===== src/Remote/Limits.antt =====
-- The bounds on sessions and on attempts to log in.
use faultline.Common.{ℕ, ◌≤◌, Bool, Option, some, Text, ◌≡◌, arith, length}
use faultline.Config.Model.{Config}
use faultline.Config.Document.{Document}
use faultline.Remote.Store.{Attempt}
use faultline.Remote.Accounts.{User}
use faultline.Remote.Server.{Server, Request, Response}
use faultline.Remote.Handler.{serve}
use faultline.Remote.Leaves.{Leaves-some}
use faultline.Remote.Kept.{IsKept}
use faultline.Remote.Requests.{serve-kept}

module _ {R F : Type 0} where
  -- At most 256 sessions, and at most 20 attempts to log in since the window was opened.
  pub record IsWithin (s : Server R F) : Type 0 where
    pub few_sessions : length s.sessions ≤ 256
    pub few_logins : s.login_count ≤ 20

  module _ (new_pcg : ℕ → ℕ → R) (sha256 : Text → Text) (attempt : F → Attempt × F)
      (encode : Config → Option Text) where
    IsWithin-IsKept : IsKept attempt new_pcg sha256 encode IsWithin
    IsWithin-IsKept = record {
      audits = λ s actor op outcome h. record {
        few_sessions = h.few_sessions;
        few_logins = h.few_logins;
      };
      fails = λ s b h. record { few_sessions = h.few_sessions; few_logins = h.few_logins };
      records_event =
          λ s op outcome h. record { few_sessions = h.few_sessions; few_logins = h.few_logins };
      drops = λ s sessions le h. record {
        few_sessions = omega (arith, le, h.few_sessions);
        few_logins = h.few_logins;
      };
      joins = λ s sessions le h. record { few_sessions = le; few_logins = h.few_logins };
      counts = λ s window count few h. record {
        few_sessions = h.few_sessions;
        few_logins = ground (arith, few, h.few_logins);
      };
      switches = λ s on now h. record { few_sessions = h.few_sessions; few_logins = h.few_logins };
      applies = λ s actor d expected now a service q h. record {
        few_sessions = h.few_sessions;
        few_logins = h.few_logins;
      };
    }

    -- A server with at most 256 sessions and at most 20 counted attempts to log in keeps to both bounds,
    -- whatever request it answers.
    pub serve-IsWithin :
        (parse : Text → Option Document) (verify : User → Text → Bool) (r : Request)
        (s : Server R F) {response : Response} {t : Server R F}
        → IsWithin s
        → serve new_pcg sha256 attempt encode parse verify r s ≡ some (response, t)
        → IsWithin t
    serve-IsWithin parse verify r s h q =
        Leaves-some IsWithin
          (serve-kept attempt new_pcg sha256 encode IsWithin IsWithin-IsKept parse verify r s h) q
