-- ===== src/Session/Harvest.antt =====
-- The end of Fetch in session/session.go: what is written and reported for a page that was loaded.
-- An int32 or int64 is kept by its bits, a number below 2 ^ 32 or 2 ^ 64.
pub mod Report
use Prim.Native.String.{◌++◌ as append_text}
use veidemann_browser_contro.Prelude.{
  ℕ, ◌+◌, ◌%◌, ◌^◌, ℤ, Bool, String, Option, none, some, List, [], ◌∷◌, ◌++◌, str_eq, get_elem?,
  map, if◌then◌else◌,
}
use veidemann_browser_contro.Errors.{Error, Go, ok, fail, panic, GoError, wrap, other}
use veidemann_browser_contro.Config.{Cookie, QueuedUri}
use veidemann_browser_contro.Requests.{
  CrawlLog, Request, RequestRegistry, initial_request, root_request,
}
use veidemann_browser_contro.Frontier.{RenderResult}

-- logV1.PageLog_Resource; Renderable is always false.
pub record PageResource : Type 0 where
  pub uri : String
  pub from_cache : Bool
  pub resource_type : String
  pub content_type : String
  pub status_code : ℤ
  pub discovery_path : String
  pub warc_id : String
  pub referrer : String
  pub error : Option Error
  pub method : String

-- logV1.PageLog
pub record PageLog : Type 0 where
  pub warc_id : String
  pub uri : String
  pub execution_id : String
  pub referrer : String
  pub job_execution_id : String
  pub collection_final_name : String
  pub method : String
  pub resources : List PageResource
  pub outlinks : List String

-- The variables that the function of Walk changes.
pub record Walked : Type 0 where
  pub crawl_logs : List CrawlLog
  pub crawl_log_count : ℕ
  pub bytes_downloaded : ℕ
  pub resources : List PageResource

-- r.CrawlLog.GetWarcId()
get_warc_id : Option CrawlLog → String
get_warc_id none = ""
get_warc_id (some log) = log.warc_id

resource_of : Request → CrawlLog → PageResource
resource_of r log = record {
  uri = r.url;
  from_cache = r.from_cache;
  resource_type = r.resource_type;
  content_type = log.content_type;
  status_code = log.status_code;
  discovery_path = log.discovery_path;
  warc_id = log.warc_id;
  referrer = r.referrer;
  error = log.error;
  method = r.method;
}

count_log : CrawlLog → Walked → Walked
count_log log w = if str_eq log.warc_id "" then w else record w {
  crawl_logs = w.crawl_logs ++ log ∷ [];
  crawl_log_count = (w.crawl_log_count + 1) % 2 ^ 32;
  bytes_downloaded = (w.bytes_downloaded + log.size) % 2 ^ 64;
}

-- The function of Walk. A request with no log has the WARC id "".
visit : Request → Walked → Walked
unfolding count_log resource_of
visit r w = elim r.crawl_log [
  | none ↦ w
  | some log ↦
      let w' = count_log log w in record w' { resources = w'.resources ++ resource_of r log ∷ [] }
]

unfoldable pub walk : List Request → Walked → Walked
unfolding visit
walk [] w = w
walk (r ∷ rest) w = walk rest (visit r w)

unfoldable pub nothing_walked : Walked
nothing_walked = record {
  crawl_logs = [];
  crawl_log_count = 0;
  bytes_downloaded = 0;
  resources = [];
}

page_log : String → QueuedUri → Request → CrawlLog → Walked → List String → PageLog
page_log uuid requested initial log w outlinks = record {
  warc_id = if str_eq log.warc_id "" then uuid else log.warc_id;
  uri = requested.uri;
  execution_id = requested.execution_id;
  referrer = initial.referrer;
  job_execution_id = requested.job_execution_id;
  collection_final_name = log.collection_final_name;
  method = initial.method;
  resources = w.resources;
  outlinks = outlinks;
}

-- An outlink, without its time stamp.
unfoldable pub queued : QueuedUri → List Cookie → Request → CrawlLog → String → QueuedUri
queued requested cookies root log uri = record {
  uri = uri;
  execution_id = requested.execution_id;
  job_execution_id = requested.job_execution_id;
  discovery_path = append_text log.discovery_path "L";
  referrer = root.url;
  cookies = cookies;
  annotation = [];
}

-- The loop over the outlinks reads the log of the root request in each turn; nil panics.
queue_uris : QueuedUri → List Cookie → Option Request → List String → Go (List QueuedUri)
queue_uris requested cookies root [] = ok []
queue_uris requested cookies none (uri ∷ rest) = panic
queue_uris requested cookies (some root) (uri ∷ rest) = elim root.crawl_log [
  | none ↦ panic
  | some log ↦ ok (map (queued requested cookies root log) (uri ∷ rest))
]

-- What went to the log writer, whose errors are only logged, and what Fetch returns.
pub record Harvest : Type 0 where
  pub crawl_logs : List CrawlLog
  pub page_logs : List PageLog
  pub result : Go RenderResult

render_result : Walked → ℕ → Go (List QueuedUri) → Go RenderResult
render_result w duration (ok uris) = ok (record {
  bytes_downloaded = w.bytes_downloaded;
  uri_count = w.crawl_log_count;
  outlinks = uris;
  page_fetch_time_ms = duration;
})
render_result w duration (fail e) = fail e
render_result w duration panic = panic

-- fmt.Errorf with the error of chromedp.Cancel, which mostly is nil.
missing_initial : Option GoError → GoError
missing_initial none = other "missing initial request: %!w(<nil>)"
missing_initial (some e) = wrap "missing initial request" e

-- With the initial request and its log.
report_logged :
    String
    → Option GoError
    → ℕ
    → QueuedUri
    → List String
    → List Cookie
    → Walked
    → Option Request
    → Request
    → Option CrawlLog
    → Harvest
unfolding page_log queue_uris render_result missing_initial
report_logged uuid cancel_err duration requested outlinks cookies w root initial none = record {
  crawl_logs = w.crawl_logs;
  page_logs = [];
  result = fail (missing_initial cancel_err);
}
report_logged uuid cancel_err duration requested outlinks cookies w root initial (some log) =
    record {
      crawl_logs = w.crawl_logs;
      page_logs = page_log uuid requested initial log w outlinks ∷ [];
      result = render_result w duration (queue_uris requested cookies root outlinks);
    }

-- From InitialRequest on, which panics if there was no request.
report :
    String
    → Option GoError
    → ℕ
    → QueuedUri
    → List String
    → List Cookie
    → Walked
    → Option Request
    → Option Request
    → Harvest
unfolding report_logged
report uuid cancel_err duration requested outlinks cookies w root none = record {
  crawl_logs = w.crawl_logs;
  page_logs = [];
  result = panic;
}
report uuid cancel_err duration requested outlinks cookies w root (some initial) =
    report_logged uuid cancel_err duration requested outlinks cookies w root initial
      initial.crawl_log

unfoldable pub harvest :
    String → Option GoError → ℕ → QueuedUri → List String → List Cookie → RequestRegistry → Harvest
unfolding walk nothing_walked report
harvest uuid cancel_err duration requested outlinks cookies registry =
    report uuid cancel_err duration requested outlinks cookies
      (walk registry.requests nothing_walked) (root_request registry) (initial_request registry)
