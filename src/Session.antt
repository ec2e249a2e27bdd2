-- ===== src/Session.antt =====
-- session/session.go and session/sessionoptions.go: what a session holds, and how one is made.
mod Tests
pub mod Scripts
pub mod Create
pub mod Harvest
pub mod Screenshot
pub mod Outlinks
pub mod Phases
pub mod Events
pub mod Steps
pub mod Cookies
pub mod Fetch
use veidemann_browser_contro.Prelude.{
  ℕ, ◌+◌, ◌*◌, Bool, true, false, String, append_text, Option, none, some, List, [], ◌∷◌, ◌==◌,
  str_eq, itoa, if◌then◌else◌,
}
use veidemann_browser_contro.Errors.{Go, ok, fail, panic, GoError, status_error, canceled_code}
use veidemann_browser_contro.Config.{CrawlConfig, ConfigObject, BrowserConfig, QueuedUri}
use veidemann_browser_contro.Requests.{RequestRegistry, match_crawl_logs}
use veidemann_browser_contro.Syncx.CompletionTimer.{CompletionTimer, notify}
use Scripts.{SessionScripts}

-- Session; a nil pointer is none. The channel and the counter of `frameWg` are in the request
-- registry, which holds the same pointer.
pub record Session : Type 0 where
  pub id : ℕ
  -- whether the context has ended
  pub ctx : Option Bool
  pub browser_host : String
  pub browser_port : ℕ
  pub browser_timeout : ℕ
  pub proxy_host : String
  pub proxy_port : ℕ
  pub browser_ws_endpoint : String
  pub workspace_endpoint : String
  pub user_agent : String
  pub browser_version : String
  pub requests : Option RequestRegistry
  -- whether loadCancel was called
  pub load_cancelled : Bool
  pub net_activity_timer : Option CompletionTimer
  pub timer : Option CompletionTimer
  pub requested_url : Option QueuedUri
  pub crawl_config : Option CrawlConfig
  pub browser_config : Option BrowserConfig
  pub politeness_config : Option ConfigObject
  pub scripts : Option SessionScripts

-- Option, in the form of the function that it wraps.
abbrev pub SessionOption : Type 0
SessionOption = Session → Session

unfoldable pub with_browser_host : String → SessionOption
with_browser_host host s = record s { browser_host = host }

unfoldable pub with_browser_port : ℕ → SessionOption
with_browser_port port s = record s { browser_port = port }

unfoldable pub with_proxy_host : String → SessionOption
with_proxy_host host s = record s { proxy_host = host }

unfoldable pub with_proxy_port : ℕ → SessionOption
with_proxy_port port s = record s { proxy_port = port }

unfoldable pub apply_options : List SessionOption → Session → Session
apply_options [] s = s
apply_options (opt ∷ opts) s = apply_options opts (opt s)

-- newDefaultSession
unfoldable pub new_default_session : List SessionOption → Session
unfolding apply_options
new_default_session opts = apply_options opts (record {
  id = 0;
  ctx = none;
  browser_host = "localhost";
  browser_port = 3000;
  browser_timeout = 500 * 1000;
  proxy_host = "";
  proxy_port = 3000;
  browser_ws_endpoint = "";
  workspace_endpoint = "";
  user_agent = "";
  browser_version = "";
  requests = none;
  load_cancelled = false;
  net_activity_timer = none;
  timer = none;
  requested_url = none;
  crawl_config = none;
  browser_config = none;
  politeness_config = none;
  scripts = none;
})

-- newDirectSession, which cannot fail.
unfoldable pub new_direct_session : String → String → String → List SessionOption → Session
unfolding new_default_session
new_direct_session uri crawl_execution_id job_execution_id opts =
    record (new_default_session opts) {
      id = 0;
      requested_url = some (record {
        uri = uri;
        execution_id = crawl_execution_id;
        job_execution_id = job_execution_id;
        discovery_path = "";
        referrer = "";
        cookies = [];
        annotation = [];
      });
    }

notify_timer : Option CompletionTimer → ℕ → Bool → Go (Option CompletionTimer)
notify_timer none now check = ok none
notify_timer (some t) now check = elim (notify t now check) [ none ↦ panic | some u ↦ ok (some u) ]

-- The check of `timer` is MatchCrawlLogs of the registry that Fetch made; the other timer has none.
check_of : Option RequestRegistry → Bool
check_of none = false
check_of (some r) = match_crawl_logs r

notify_timers : Session → ℕ → Go Session
unfolding notify_timer check_of
notify_timers s now = elim (notify_timer s.net_activity_timer now false) [
  | ok net ↦ elim (notify_timer s.timer now (check_of s.requests)) [
    | ok t ↦ ok (record s { net_activity_timer = net; timer = t })
    | fail e ↦ fail e
    | panic ↦ panic
  ]
  | fail e ↦ fail e
  | panic ↦ panic
]

notify_context : Option Bool → Session → ℕ → Go Session
unfolding notify_timers
notify_context none s now = panic
notify_context (some true) s now = fail (status_error canceled_code "Session is canceled")
notify_context (some false) s now = notify_timers s now

-- Notify at time `now`; the id is only logged. The Done of a nil context panics.
unfoldable pub notify_session : Session → ℕ → Go Session
unfolding notify_context
notify_session s now = notify_context s.ctx s now
