-- ===== src/Session/Tests.antt =====
-- What Fetch reports of a page with a redirect, and the choice between two replacement scripts.
use veidemann_browser_contro.Prelude.{
  ◌%◌, ◌^◌, ℕ, ◌<◌, ◌⊎◌, All, filter, str_eq, if◌then◌else◌, ◌≡◌, refl, none, some, true, List, [],
  ◌∷◌, length, String,
}
use veidemann_browser_contro.Errors.{ok}
use veidemann_browser_contro.Requests.{RequestRegistry, root_request, initial_request}
use veidemann_browser_contro.Requests.Samples.{registry, page}
use veidemann_browser_contro.Frontier.{RenderResult}
use veidemann_browser_contro.Config.{ConfigObject, browser_script, replacement, get_browser_script}
use veidemann_browser_contro.Wire.{Stream}
use veidemann_browser_contro.Requests.{CrawlLog}
use veidemann_browser_contro.Requests.Samples.{redirected}
use veidemann_browser_contro.Screenshot.{WriteRequest}
use veidemann_browser_contro.Session.{Session, new_default_session}
use veidemann_browser_contro.Session.Screenshot.{
  IsStored, IsNotStored, written, save_screenshot, save_screenshot-Split,
}
use veidemann_browser_contro.Session.Scripts.{
  SessionScripts, new_session_scripts, load_scripts, Matching, get, get_replacement_script,
}
use veidemann_browser_contro.Session.Scripts.Loading.{is_wanted, load_scripts-filter}
use veidemann_browser_contro.Session.Scripts.Replacement.{
  Bounded, Picked, patterns, get_replacement_script-IsLongest,
}
use veidemann_browser_contro.Session.Harvest.{harvest, queued}
use veidemann_browser_contro.Session.Harvest.Report.{
  stored_logs, total_size, Queues, harvest-Queues,
}

abbrev sha1 : List ℕ → String
sha1 bytes = "a94a"

abbrev writer : Stream WriteRequest
writer = record { opening = none; send = λ sent m. none; close_and_recv = λ sent. none }

abbrev settled : RequestRegistry
settled = record registry { root = some 1 }

abbrev outlinks : List String
outlinks = "http://a.no/d" ∷ []

abbrev reported : RenderResult
reported = record {
  bytes_downloaded = 30;
  uri_count = 2;
  outlinks =
      record {
        uri = "http://a.no/d";
        execution_id = "e";
        job_execution_id = "j";
        discovery_path = "L";
        referrer = "http://a.no/b";
        cookies = [];
        annotation = [];
      }
      ∷ [];
  page_fetch_time_ms = 1500;
}

reported_lem : (harvest "u" none 1500 page outlinks [] settled).result ≡ ok reported
unfolding harvest root_request initial_request queued
reported_lem = refl

harvest-Queues_example :
    let h = harvest "u" none 1500 page outlinks [] settled in
    (h.crawl_logs ≡ stored_logs settled.requests)
    × (length h.page_logs ≡ 1)
    × (reported.uri_count ≡ length h.crawl_logs % 2 ^ 32)
    × (reported.bytes_downloaded ≡ total_size h.crawl_logs % 2 ^ 64)
    × Queues (root_request settled) [] outlinks reported.outlinks
harvest-Queues_example = harvest-Queues "u" none 1500 page outlinks [] settled reported reported_lem

-- Two replacement scripts, of which the second has the longer match.
abbrev matching : Matching
matching = record {
  normalize = λ uri. uri;
  longest_match = λ p. if str_eq p "short" then some (λ uri. 2) else some (λ uri. 5);
  match_string = λ p. some (λ uri. true);
}

abbrev replacement_of : String → ConfigObject
replacement_of pattern' = record {
  id = pattern';
  name = "";
  annotation = [];
  spec =
      browser_script (record {
        script = pattern';
        url_regexp = pattern' ∷ [];
        browser_script_type = replacement;
      });
}

abbrev two_scripts : SessionScripts
two_scripts = record {
  scripts = λ t. replacement_of "short" ∷ replacement_of "long" ∷ [];
  blacklist = [];
}

longer_wins :
    get_replacement_script matching two_scripts "http://a.no/"
    ≡ get_browser_script (replacement_of "long")
unfolding get_replacement_script get get_browser_script
longer_wins = refl

get_replacement_script-IsLongest_example :
    (n : ℕ) × All
      (λ bc. Bounded matching "http://a.no/" n (patterns bc))
      (get two_scripts replacement)
    × (((n ≡ 0) × (get_replacement_script matching two_scripts "http://a.no/" ≡ none))
        ⊎ ((0 < n)
            × Picked matching "http://a.no/" n
                (get_replacement_script matching two_scripts "http://a.no/")
                (get two_scripts replacement)))
get_replacement_script-IsLongest_example =
    get_replacement_script-IsLongest matching two_scripts "http://a.no/"

load_scripts-filter_example :
    get
      (load_scripts matching "http://a.no/" (replacement_of "short" ∷ []) new_session_scripts)
      replacement
    ≡ filter (is_wanted matching "http://a.no/" replacement) (replacement_of "short" ∷ [])
load_scripts-filter_example =
    load_scripts-filter matching "http://a.no/" (replacement_of "short" ∷ []) replacement

abbrev stored : Session
stored = record (new_default_session []) { requests = some settled }

save_screenshot-Split_example :
    (IsNotStored redirected × (save_screenshot sha1 writer (ok (1 ∷ [])) stored ≡ ok []))
    ⊎ ((log : CrawlLog) × IsStored redirected log
        × (save_screenshot sha1 writer (ok (1 ∷ [])) stored
            ≡ ok (written sha1 writer stored (1 ∷ []) log)))
unfolding new_default_session root_request
save_screenshot-Split_example =
    save_screenshot-Split sha1 writer (1 ∷ []) stored settled redirected refl refl
