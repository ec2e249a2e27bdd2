-- ===== src/Session/Fetch.antt =====
-- Fetch of session/session.go. What reaches outside of the session (the browser, the database, the
-- services, waiting) is a parameter over the session and the rest of the world, either of which may
-- change meanwhile by what other goroutines do.
mod Tests
pub mod Codes
pub mod Sequence
mod Ends
pub mod Cleanup
use package.text.Mathlib.Text.{starts_with}
use Prim.Native.String
use veidemann_browser_contro.Prelude.{
  ℕ, zero, suc, ◌*◌, ℤ, negsuc, itoa, Bool, true, false, String, append_text, Option, none, some,
  List, [], ◌∷◌, if◌then◌else◌, str_eq,
}
use veidemann_browser_contro.Errors.{
  Go, ok, fail, panic, GoError, Code, canceled, deadline_exceeded, wrap, wrapping, new_fetch_error,
}
use veidemann_browser_contro.Config.{
  ConfigRef, CrawlConfig, ConfigObject, BrowserConfig, Spec, browser_config, QueuedUri,
  on_load as on_load_type, on_new_document,
}
use veidemann_browser_contro.Syncx.WaitGroup.{
  WaitError, cancelled, exceeded_max_time, new_wait_group,
}
use veidemann_browser_contro.Syncx.CompletionTimer.{new_completion_timer}
use veidemann_browser_contro.Requests.{
  Request, RequestRegistry, new_registry, initial_request, root_request,
}
use veidemann_browser_contro.Requests.Finalize.{finalize_responses}
use veidemann_browser_contro.Frontier.{RenderResult}
use veidemann_browser_contro.Wire.{Stream}
use veidemann_browser_contro.Screenshot.{WriteRequest}
use veidemann_browser_contro.Session.{Session}
use veidemann_browser_contro.Session.Scripts.{
  SessionScripts, Matching, new_session_scripts, load_scripts,
}
use veidemann_browser_contro.Session.Phases.{Browser, execute_scripts}
use veidemann_browser_contro.Session.Screenshot.{save_screenshot}
use veidemann_browser_contro.Session.Outlinks.{Evaluated, extract_outlinks_of}
use veidemann_browser_contro.Session.Harvest.{Harvest, harvest}
use veidemann_browser_contro.Session.Cookies.{BrowserCookie, CookieParam}
use veidemann_browser_contro.Errors.{described}
use veidemann_browser_contro.Session.Steps.{
  Steps, ◌>>=◌, ◌>>◌, call, attempt, change, lift, deref, deferred, recovering,
}

-- device.Info, the fields that vary.
pub record DeviceInfo : Type 0 where
  pub user_agent : String
  pub width : ℕ
  pub height : ℕ

abbrev pub State : Type 0 → Type 0
State W = Session × W

-- The calls of Fetch that reach outside of the session.
pub record Outside (W : Type 0) : Type 0 where
  pub get_config_object : ConfigRef → State W → Go ConfigObject × State W
  pub get_scripts : BrowserConfig → State W → Go (List ConfigObject) × State W
  pub matching : Matching
  -- chromedp.NewRemoteAllocator and chromedp.NewContext, the context with the load's time-out
  pub new_allocator : State W → State W
  pub new_context : State W → State W
  pub new_load_context : ℕ → State W → State W
  pub allocator_cancel : State W → State W
  -- http.NewRequestWithContext, with its error, and http.DefaultClient.Do of the request
  pub new_delete_request : String → Option GoError
  pub do_request : String → State W → Option GoError × State W
  pub cdp_cancel : State W → State W
  pub load_cancel : State W → State W
  -- the versions of the browser and its user agent
  pub get_version : State W → Go (String × String) × State W
  -- with the device and the cookies
  pub init_browser : DeviceInfo → List CookieParam → State W → Go (Unit {0}) × State W
  pub navigate : String → State W → Go (Unit {0}) × State W
  -- WaitForCompletion and Reset of netActivityTimer
  pub wait_net_activity : State W → State W
  pub browser : Browser (State W)
  pub wait_frames : State W → Option WaitError × State W
  pub wait_timer : State W → State W
  pub duration_ms : State W → ℕ
  pub sha1 : List ℕ → String
  pub content_writer : State W → Stream WriteRequest
  pub capture : State W → Go (List ℕ)
  pub screenshot_sent : List WriteRequest → State W → State W
  pub evaluate : String → Bool → State W → Evaluated × State W
  pub get_all_cookies : State W → Go (List BrowserCookie) × State W
  pub unix_time : ℕ → ℤ × ℤ
  pub cancel_browser : State W → Option GoError × State W
  pub uuid : State W → String
  pub write_logs : Harvest → State W → State W

-- cleanWorkspace: an error in the making of the request is logged, and Do is called with the nil that
-- stands for the request, which panics; an error of Do is only logged.
unfoldable pub clean_workspace : {W : Type 0} → Outside W → State W → Go (Unit {0}) × State W
clean_workspace o s =
    let url = append_text s.0.workspace_endpoint (append_text "/" (itoa s.0.id)) in
    elim (o.new_delete_request url) [ some e ↦ (panic, s) | none ↦ (ok tt, (o.do_request url s).1) ]

-- frontierV1.PageHarvestSpec; its page is not nil.
pub record PageHarvestSpec : Type 0 where
  pub queued_uri : QueuedUri
  pub crawl_config : Option CrawlConfig

config_of_spec : Spec → Option BrowserConfig
config_of_spec (browser_config c) = some c
config_of_spec _ = none

-- strings.ReplaceAll(userAgent, "HeadlessChrome", "Chrome"), with the number of characters to skip.
replace_headless : ℕ → String → String
replace_headless skip String.[] = ""
replace_headless (suc skip) (String.◌∷◌ c s) = replace_headless skip s
replace_headless zero (String.◌∷◌ c s) = elim (starts_with (String.◌∷◌ c s) "HeadlessChrome") [
  | true ↦ replace_headless 7 s
  | false ↦ String.◌∷◌ c (replace_headless 0 s)
]

user_agent_of : BrowserConfig → String → String
unfolding replace_headless
user_agent_of c user_agent =
    if str_eq c.user_agent "" then replace_headless 0 user_agent else c.user_agent

option_of : {A : Type 0} → Go A → Option A
option_of (ok a) = some a
option_of _ = none

-- InitialRequest of the session; none where it panics.
abbrev pub initial_of : Option RequestRegistry → Option Request
initial_of none = none
initial_of (some r) = initial_request r

abbrev pub root_of : Option RequestRegistry → Option Request
root_of none = none
root_of (some r) = root_request r

unfoldable pub already_seen : QueuedUri → GoError
already_seen page =
    new_fetch_error (negsuc 4099) "Already seen"
      (append_text "Initial request was found in cache. Url: " page.uri)

unfoldable pub runtime_exceeded : QueuedUri → GoError
runtime_exceeded page =
    new_fetch_error (negsuc 5003) "Runtime exceeded"
      (append_text "Pageload timed out. Url: " page.uri)

finalized : Option RequestRegistry → QueuedUri → Option RequestRegistry
finalized none page = none
finalized (some r) page = finalize_responses r page

check_log : QueuedUri → Option Request → Go (Unit {0})
check_log page none = panic
check_log page (some initial) = elim initial.crawl_log [
  | none ↦ fail (runtime_exceeded page)
  | some log ↦ ok tt
]

module _ {W : Type 0} where
  abbrev set_session : (Session → Session) → State W → State W
  set_session f (s, w) = (f s, w)

  -- The result of Navigate.
  unfoldable pub navigated : QueuedUri → Go (Unit {0}) → State W → Option (Go (Unit {0}) × State W)
  navigated page (ok u) s = some (ok u, s)
  navigated page (fail canceled) s =
      (do
        initial ← deref (initial_of s.0.requests)
        lift (
            if initial.from_cache
            then fail (already_seen page)
            else fail (wrap "failed navigation" canceled)))
        s
  navigated page (fail deadline_exceeded) s = some (fail (runtime_exceeded page), s)
  navigated page (fail e) s = some (fail (wrap "failed navigation" e), s)
  navigated page panic s = some (panic, s)

  -- The result of the wait for the frames; InitialRequest panics where there is no request.
  unfoldable pub frames_waited :
      QueuedUri → Option WaitError → State W → Option (Go (Unit {0}) × State W)
  unfolding check_log
  frames_waited page (some cancelled) s =
      (do
        initial ← deref (initial_of s.0.requests)
        lift (if initial.from_cache then fail (already_seen page) else ok tt))
        s
  frames_waited page (some exceeded_max_time) s = some (check_log page (initial_of s.0.requests), s)
  frames_waited page _ s = some (ok tt, s)
