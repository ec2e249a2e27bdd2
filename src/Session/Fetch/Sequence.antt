-- ===== src/Session/Fetch/Sequence.antt =====
-- The sequence of calls of Fetch in session/session.go, with its deferred calls.

use veidemann_browser_contro.Prelude.{
  ℕ, negsuc, false, String, Option, none, some, List, if◌then◌else◌,
}
use veidemann_browser_contro.Errors.{Go, ok, fail, Code, wrapping, new_fetch_error}
use veidemann_browser_contro.Config.{
  Cookie, CrawlConfig, BrowserConfig, QueuedUri, on_load as on_load_type, on_new_document,
}
use veidemann_browser_contro.Syncx.WaitGroup.{new_wait_group}
use veidemann_browser_contro.Syncx.CompletionTimer.{new_completion_timer}
use veidemann_browser_contro.Requests.{new_registry}
use veidemann_browser_contro.Frontier.{RenderResult}
use veidemann_browser_contro.Session.{Session}
use veidemann_browser_contro.Session.Scripts.{SessionScripts, new_session_scripts, load_scripts}
use veidemann_browser_contro.Session.Phases.{execute_scripts}
use veidemann_browser_contro.Session.Screenshot.{save_screenshot}
use veidemann_browser_contro.Session.Outlinks.{extract_outlinks_of}
use veidemann_browser_contro.Session.Harvest.{harvest}
use veidemann_browser_contro.Session.Cookies.{extract_cookies, get_cookie_params}
use veidemann_browser_contro.Errors.{described}
use veidemann_browser_contro.Session.Steps.{
  Steps, ◌>>=◌, ◌>>◌, call, attempt, change, lift, deref, deferred, deferred_call, recovering,
}
use veidemann_browser_contro.Session.Fetch.{
  clean_workspace, Outside, DeviceInfo, PageHarvestSpec, State, config_of_spec, finalized,
  frames_waited, navigated, option_of, root_of, set_session, user_agent_of,
}

-- The result of the phase for new documents, and of the on-load phase, whose error is only logged.
unfoldable pub annotated : {S : Type 0} → Option (Go (Unit {0}) × S) → Option (Go (Unit {0}) × S)
annotated none = none
annotated (some (r, s)) = some (wrapping "failed executing scripts in ON_NEW_DOCUMENT phase" r, s)

unfoldable pub ignoring : {S : Type 0} → Option (Go (Unit {0}) × S) → Option (Go (Unit {0}) × S)
ignoring (some (fail e, s)) = some (ok tt, s)
ignoring r = r

module _ {W : Type 0} (o : Outside W) (status_text : Code → String → String)
    (phs : PageHarvestSpec) where
  abbrev page : QueuedUri
  page = phs.queued_uri

  -- From the start to the loaded scripts.
  unfoldable pub prepare : CrawlConfig → Steps (State W) (BrowserConfig × SessionScripts)
  unfolding option_of config_of_spec
  prepare config = do
    b ← attempt (o.get_config_object config.browser_config_ref)
    c ← lift (described status_text "failed to get browser config" b)
    change (set_session (λ s. record s { browser_config = config_of_spec c.spec }))
    p ← attempt (o.get_config_object config.politeness_ref)
    change (set_session (λ s. record s { politeness_config = option_of p }))
    lift (described status_text "failed to get politeness config" p)
    browser_config' ← deref (config_of_spec c.spec)
    found ← attempt (o.get_scripts browser_config')
    all ← lift (wrapping "failed to load scripts" found)
    let scripts = load_scripts o.matching page.uri all new_session_scripts
    change (set_session (λ s. record s { scripts = some scripts }))
    lift (ok (browser_config', scripts))

  unfoldable pub start_browser : Steps (State W) String
  start_browser = do
    v ← attempt o.get_version
    (version, user_agent) ← lift (wrapping "failed to start browser" v)
    change (set_session (λ s. record s { browser_version = version }))
    lift (ok user_agent)

  -- The registry and the timers of the load.
  start_load : BrowserConfig → String → Session → Session
  unfolding user_agent_of
  start_load c user_agent s = record s {
    requests = some (new_registry new_wait_group);
    net_activity_timer = some (new_completion_timer 1000 c.page_load_timeout_ms);
    timer = some (new_completion_timer c.max_inactivity_time_ms c.page_load_timeout_ms);
    user_agent = user_agent_of c user_agent;
  }

  device_info : BrowserConfig → Session → DeviceInfo
  device_info c s = record {
    user_agent = s.user_agent;
    width = c.window_width;
    height = c.window_height;
  }

  unfoldable pub take_screenshot : CrawlConfig → Steps (State W) (Unit {0})
  take_screenshot config s =
      if config.create_screenshot
      then (do
        sent ← lift (save_screenshot o.sha1 (o.content_writer s) (o.capture s) s.0)
        change (o.screenshot_sent sent))
          s
      else lift (ok tt) s

  -- After the browser is closed.
  unfoldable pub browser_closed : ℕ → List String → List Cookie → Steps (State W) RenderResult
  browser_closed duration outlinks cookies s0 =
      let (cancel_err, s) = o.cancel_browser s0 in
      (do
        registry ← deref s.0.requests
        let h = harvest (o.uuid s) cancel_err duration page outlinks cookies registry
        change (o.write_logs h)
        lift h.result)
        s

  -- From the cookies to the end.
  unfoldable pub reported : ℕ → List String → Steps (State W) RenderResult
  unfolding browser_closed
  reported duration outlinks s0 =
      let (found, s) = o.get_all_cookies s0 in
      (do cookies ← lift (extract_cookies found); browser_closed duration outlinks cookies) s

  -- What is done once the page is loaded.
  unfoldable pub finish : CrawlConfig → SessionScripts → Steps (State W) RenderResult
  unfolding finalized take_screenshot reported browser_closed
  finish config scripts s0 =
      (do
        change o.wait_timer
        duration ← (λ s. lift (ok (o.duration_ms s)) s)
        registry ← (λ s. deref (finalized s.0.requests page) s)
        change (set_session (λ s. record s { requests = some registry }))
        take_screenshot config
        outlinks ← (λ s. call (extract_outlinks_of o.evaluate (root_of s.0.requests) scripts) s)
        reported duration outlinks)
        s0

  -- The two phases of scripts; the errors of the second are only logged.
  unfoldable pub run_phases : ℕ → SessionScripts → Steps (State W) (Unit {0})
  unfolding annotated ignoring
  run_phases fuel scripts s0 =
      (do
        (λ s. annotated (execute_scripts o.browser fuel scripts page.annotation on_new_document s))
        (λ s. ignoring (execute_scripts o.browser fuel scripts page.annotation on_load_type s)))
        s0

  unfoldable pub initialised : BrowserConfig → Steps (State W) (Unit {0})
  unfolding device_info
  initialised c s =
      let (r, s') = o.init_browser (device_info c s.0) (get_cookie_params o.unix_time page) s in
      lift (wrapping "failed initializing browser" r) s'

  unfoldable pub page_navigated : Steps (State W) (Unit {0})
  unfolding navigated
  page_navigated s = let (r, s') = o.navigate page.uri s in navigated page r s'

  unfoldable pub wait_for_frames : Steps (State W) (Unit {0})
  unfolding frames_waited
  wait_for_frames s = let (e, s') = o.wait_frames s in frames_waited page e s'

  -- The load, with the context that is cancelled at its end.
  unfoldable pub load :
      ℕ → CrawlConfig → BrowserConfig → SessionScripts → String → Steps (State W) RenderResult
  unfolding start_load initialised page_navigated run_phases wait_for_frames finish
  load fuel config c scripts user_agent = do
    change (set_session (start_load c user_agent))
    initialised c
    page_navigated
    change o.wait_net_activity
    run_phases fuel scripts
    wait_for_frames
    finish config scripts

  -- With the browser's first context.
  unfoldable pub with_context :
      ℕ → CrawlConfig → BrowserConfig → SessionScripts → Steps (State W) RenderResult
  unfolding start_browser load
  with_context fuel config c scripts = do
    change (set_session (λ s. record s { ctx = some false }))
    user_agent ← start_browser
    change (o.new_load_context c.page_load_timeout_ms)
    deferred o.load_cancel (load fuel config c scripts user_agent)

  unfoldable pub with_allocator :
      ℕ → CrawlConfig → BrowserConfig → SessionScripts → Steps (State W) RenderResult
  unfolding with_context
  with_allocator fuel config c scripts = do
    change o.new_allocator
    deferred o.allocator_cancel (
        deferred_call (clean_workspace o)
          (do change o.new_context; deferred o.cdp_cancel (with_context fuel config c scripts)))

  -- From the start to the opening of the browser.
  unfoldable pub prepared : Steps (State W) (BrowserConfig × SessionScripts × CrawlConfig)
  unfolding prepare
  prepared = do
    change
        (set_session (λ s. record s { requested_url = some page; crawl_config = phs.crawl_config }))
    config ← deref phs.crawl_config
    (c, scripts) ← prepare config
    lift (ok (c, scripts, config))

  unfoldable pub body : ℕ → Steps (State W) RenderResult
  unfolding prepared with_allocator
  body fuel = do (c, scripts, config) ← prepared; with_allocator fuel config c scripts

  -- Fetch; the text of a panic with its stack is a parameter.
  unfoldable pub fetch : String → ℕ → Steps (State W) RenderResult
  unfolding body
  fetch panic_text fuel =
      recovering (new_fetch_error (negsuc 4) "Runtime error" panic_text) (body fuel)
