-- ===== src/Session/Fetch/Tests.antt =====
-- A page that is fetched, with the calls of the browser as a log.
use veidemann_browser_contro.Prelude.{
  ◌≤◌, ◌<◌, ◌≡◌, ◌≢◌, refl, pos, negsuc, itoa, false, String, Option, none, some, List, [], ◌∷◌,
  ◌++◌, lookup, arith,
}
use veidemann_browser_contro.Errors.{Go, ok, fail, panic, Code, other, new_fetch_error}
use veidemann_browser_contro.Config.{ConfigObject, browser_config}
use veidemann_browser_contro.Requests.Samples.{registry, page}
use veidemann_browser_contro.Syncx.WaitGroup.{exceeded_max_time}
use veidemann_browser_contro.Frontier.{RenderResult}
use veidemann_browser_contro.Script.{Dict, continue, turn, executed}
use veidemann_browser_contro.Script.Decode.{nil_raw}
use veidemann_browser_contro.Session.{new_default_session}
use veidemann_browser_contro.Session.Phases.{
  Browser, Resolve, reuse, create, value, execute, execute_scripts, get_execution_context_id,
}
use veidemann_browser_contro.Session.Outlinks.{failed, extract_outlinks_of}
use veidemann_browser_contro.Errors.{described}
use veidemann_browser_contro.Session.Scripts.{get, load_scripts, new_session_scripts}
use veidemann_browser_contro.Session.Harvest.{harvest}
use veidemann_browser_contro.Requests.{initial_request}
use veidemann_browser_contro.Requests.Finalize.{finalize_responses, finalize_all}
use veidemann_browser_contro.Session.Cookies.{extract_cookies, get_cookie_params}
use veidemann_browser_contro.Session.Fetch.{
  clean_workspace, Outside, State, PageHarvestSpec, frames_waited,
}
use veidemann_browser_contro.Session.Fetch.Sequence.{fetch}
use veidemann_browser_contro.Session.Fetch.Cleanup.{Cleaned, fetch-Cleaned}
use veidemann_browser_contro.Session.Fetch.Codes.{Reason, frames_waited-Reason}

abbrev Log : Type 0
Log = List String

abbrev logged : String → State Log → State Log
logged name (s, w) = (s, w ++ name ∷ [])

abbrev config_object : ConfigObject
config_object = record {
  id = "b";
  name = "b";
  annotation = [];
  spec = browser_config (record {
    user_agent = "";
    window_width = 1400;
    window_height = 1280;
    page_load_timeout_ms = 20000;
    max_inactivity_time_ms = 2000;
    script_ref = [];
    script_selector = [];
  });
}

abbrev browser : Browser (State Log)
browser = record {
  get_frame_tree = λ s. (ok "frame", s);
  create_isolated_world = λ frame s. (ok 4, s);
  call_function_on = λ eci declaration arguments await_promise s. (value nil_raw, s);
  wait = λ s. s;
}

-- The browser sends three requests while it navigates.
abbrev loaded : State Log → State Log
loaded (s, w) = (record s { requests = some registry }, w)

abbrev outside : Outside Log
outside = record {
  get_config_object = λ ref s. (ok config_object, s);
  get_scripts = λ c s. (ok [], s);
  matching = record { normalize = λ uri. uri; longest_match = λ p. none; match_string = λ p. none };
  new_allocator = logged "allocator";
  new_context = logged "context";
  new_load_context = λ timeout s. logged "load" s;
  allocator_cancel = logged "allocator cancelled";
  new_delete_request = λ url. none;
  do_request = λ url s. (none, logged "workspace cleaned" s);
  cdp_cancel = logged "context cancelled";
  load_cancel = logged "load cancelled";
  get_version = λ s. (ok ("83", "HeadlessChrome/83"), s);
  init_browser = λ device cookies s. (ok tt, s);
  navigate = λ uri s. (ok tt, loaded s);
  wait_net_activity = λ s. s;
  browser = browser;
  wait_frames = λ s. (none, s);
  wait_timer = λ s. s;
  duration_ms = λ s. 1500;
  sha1 = λ bytes. "";
  content_writer =
      λ s. record { opening = none; send = λ sent m. none; close_and_recv = λ sent. none };
  capture = λ s. panic;
  screenshot_sent = λ sent s. s;
  evaluate = λ script await_promise s. (failed, s);
  get_all_cookies = λ s. (ok [], s);
  unix_time = λ bits. (pos bits, pos 0);
  cancel_browser = λ s. (none, s);
  uuid = λ s. "u";
  write_logs = λ h s. logged "logs" s;
}

abbrev spec : PageHarvestSpec
spec = record {
  queued_uri = page;
  crawl_config = some (record {
    collection_ref = record { id = "c" };
    browser_config_ref = record { id = "b" };
    politeness_ref = record { id = "p" };
    create_screenshot = false;
  });
}

abbrev no_status : Code → String → String
no_status c s = s

abbrev before : State Log
before = (new_default_session [], [])

nothing_follows :
    (how : Resolve) (scripts : List (String × ConfigObject)) (next next' : String) (m m' : Dict)
    (s s' : State Log)
    → turn (execute browser how) browser.wait scripts [] next m s ≡ continue next' m' s'
    → next' ≢ ""
    → 0 < 0
unfolding turn executed execute
nothing_follows (reuse eci) scripts next next' m m' s s' e named = ground arith
nothing_follows create scripts next next' m m' s s' e named = ground arith

at_most_zero : (s : State Log) → 0 ≤ 0
at_most_zero s = omega arith

fetch-Cleaned_example :
    (r : Go RenderResult) × (s' : State Log) × (fetch outside no_status spec "trace" 2 before
      ≡ some (r, s'))
    × (r ≢ panic)
    × Cleaned outside no_status spec before s'
fetch-Cleaned_example =
    fetch-Cleaned outside no_status spec (λ s. 0) 0 at_most_zero nothing_follows "trace" 2 before
      (omega arith)

frames_waited-Reason_example :
    (r : Go (Unit {0})) × (frames_waited page (some exceeded_max_time) before ≡ some (r, before))
    × Reason page (some exceeded_max_time) before.0.requests r
frames_waited-Reason_example = frames_waited-Reason page (some exceeded_max_time) before

abbrev log_after : Option (Go RenderResult × State Log) → Log
log_after none = []
log_after (some (r, (s, w))) = w

cleaned_in_reverse :
    log_after (fetch outside no_status spec "trace" 2 before)
    ≡ "allocator" ∷ "context" ∷ "load" ∷ "logs" ∷ "load cancelled" ∷ "context cancelled"
      ∷ "workspace cleaned" ∷ "allocator cancelled" ∷ []
unfolding fetch described execute_scripts get load_scripts new_session_scripts
    get_execution_context_id finalize_responses extract_outlinks_of harvest initial_request
    finalize_all lookup clean_workspace itoa extract_cookies get_cookie_params
cleaned_in_reverse = refl

abbrev result_after : Option (Go RenderResult × State Log) → Option (Go RenderResult)
result_after none = none
result_after (some (r, s)) = some r

-- The page is loaded, but its workspace has an address from which no request can be made.
workspace_unclean :
    result_after (
      fetch
        (record outside { new_delete_request = λ url. some (other "invalid") })
        no_status
        spec
        "trace"
        2
        before)
    ≡ some (fail (new_fetch_error (negsuc 4) "Runtime error" "trace"))
unfolding fetch described execute_scripts get load_scripts new_session_scripts
    get_execution_context_id finalize_responses extract_outlinks_of harvest initial_request
    finalize_all lookup clean_workspace extract_cookies get_cookie_params
workspace_unclean = refl
