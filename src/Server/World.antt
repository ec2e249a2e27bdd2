-- ===== src/Server/World.antt =====
-- What the handlers of server/server.go act on.
use veidemann_browser_contro.Prelude.{ℕ, Bool, String, Option, none, some, List, [], get_elem?, set}
use veidemann_browser_contro.Errors.{GoError}
use veidemann_browser_contro.Config.{BrowserScript, ConfigObject, ConfigRef}
use veidemann_browser_contro.Requests.{CrawlLog, Request, RequestRegistry}
use veidemann_browser_contro.Session.{Session, SessionOption}
use veidemann_browser_contro.Session.Scripts.{Matching}

-- The sessions that were ever made, and the slice of the session registry.
pub record World : Type 0 where
  pub heap : List Session
  pub slots : List (Option ℕ)

-- browsercontrollerV1.NewRequest; a negative proxy id is out of range like one that is too large.
pub record NewRequest : Type 0 where
  pub proxy_id : ℕ
  pub method : String
  pub uri : String
  pub request_id : String
  pub crawl_execution_id : String
  pub job_execution_id : String
  pub collection_ref : ConfigRef

pub record Completed : Type 0 where
  pub crawl_log : Option CrawlLog
  pub cached : Bool

-- browsercontrollerV1.DoRequest
pub data DoRequest : Type 0 where
  new : NewRequest → DoRequest
  notify : DoRequest
  completed : Completed → DoRequest
  no_action : DoRequest

pub record NewReply : Type 0 where
  pub crawl_execution_id : String
  pub job_execution_id : String
  pub collection_ref : ConfigRef
  pub replacement_script : Option BrowserScript

-- browsercontrollerV1.DoReply
pub data DoReply : Type 0 where
  new_reply : NewReply → DoReply
  cancel : String → DoReply

-- robotsevaluatorV1.IsAllowedRequest
pub record IsAllowedRequest : Type 0 where
  pub job_execution_id : String
  pub execution_id : String
  pub uri : String
  pub user_agent : String
  pub politeness : Option ConfigObject
  pub collection_ref : ConfigRef

-- The services that the handlers call. The outcome of Send may depend on what was sent before.
pub record Services : Type 0 where
  pub send : List DoReply → DoReply → Option GoError
  -- none for a panic
  pub is_allowed : IsAllowedRequest → Option Bool
  pub matching : Matching
  pub session_options : List SessionOption
  -- the text of a value that a panic carries, and the stack trace
  pub panic_text : String
  pub stack : String

-- The variables of Do, and what went out: replies in order, and crawl logs handed to the log writer,
-- whose errors are only logged.
pub record Conn : Type 0 where
  pub world : World
  pub sess : Option ℕ
  pub req : Option (ℕ × ℕ)
  pub sent : List DoReply
  pub written : List CrawlLog

-- How the handling of a message goes on: with the next message, with the end of Do, or by a panic.
pub data Outcome : Type 0 where
  next : Conn → Outcome
  returns : Option GoError → Conn → Outcome
  panics : Conn → Outcome

unfoldable pub session_at : World → ℕ → Option Session
session_at w a = get_elem? w.heap a

unfoldable pub put_session : Conn → ℕ → Session → Conn
put_session c a s = record c { world = record c.world { heap = set c.world.heap a s } }

unfoldable pub requests_of : Option RequestRegistry → List Request
requests_of none = []
requests_of (some r) = r.requests

-- *req
unfoldable pub request_at : World → ℕ × ℕ → Option Request
unfolding session_at requests_of
request_at w (a, i) = elim (session_at w a) [
  | none ↦ none
  | some s ↦ get_elem? (requests_of s.requests) i
]

unfoldable pub write_request : Session → ℕ → Request → Session
write_request s i req = elim s.requests [
  | none ↦ s
  | some r ↦ record s { requests = some (record r { requests = set r.requests i req }) }
]

-- A write through a *Request.
unfoldable pub put_request : Conn → ℕ × ℕ → Request → Conn
unfolding session_at put_session write_request
put_request c (a, i) req = elim (session_at c.world a) [
  | none ↦ c
  | some s ↦ put_session c a (write_request s i req)
]
