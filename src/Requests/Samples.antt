-- ===== src/Requests/Samples.antt =====
-- Requests of requests/request.go for the tests: a page, the page that it redirects to, and an image.
use veidemann_browser_contro.Prelude.{ℕ, String, false, none, some, [], ◌∷◌, pos}
use veidemann_browser_contro.Config.{QueuedUri}
use veidemann_browser_contro.Requests.{CrawlLog, Request, RequestRegistry}

abbrev pub log_of : String → ℕ → CrawlLog
log_of warc_id size = record {
  warc_id = warc_id;
  method = "GET";
  requested_uri = "";
  status_code = pos 200;
  content_type = "text/html";
  size = size;
  discovery_path = "";
  referrer = "";
  error = none;
  collection_final_name = "c";
  execution_id = "e";
  ip_address = "";
  fetch_time_stamp = none;
}

abbrev pub request_of : String → String → String → CrawlLog → Request
request_of url request_id network_id log = record {
  method = "GET";
  url = url;
  request_id = request_id;
  network_id = network_id;
  crawl_log = some log;
  got_new = false;
  got_complete = false;
  initiator = "parser";
  resource_type = "Document";
  referrer = "";
  redirect_parent = none;
  from_cache = false;
}

abbrev pub first : Request
first = request_of "http://a.no/" "r1" "n1" (log_of "w1" 10)

abbrev pub redirected : Request
redirected = request_of "http://a.no/b" "r2" "n1" (log_of "w2" 20)

abbrev pub image : Request
image = request_of "http://a.no/c.png" "r3" "n3" (log_of "" 30)

abbrev pub registry : RequestRegistry
registry = record {
  done = record { counter = 0; done = false; cancel = false; state = 0 };
  requests = first ∷ redirected ∷ image ∷ [];
  root = none;
}

abbrev pub page : QueuedUri
page = record {
  uri = "http://a.no/";
  execution_id = "e";
  job_execution_id = "j";
  discovery_path = "L";
  referrer = "";
  cookies = [];
  annotation = [];
}
