-- ===== src/Frontier/Tests.antt =====
-- A page whose stream breaks after the metrics.
use veidemann_browser_contro.Prelude.{◌≡◌, ◌⊎◌, none, some, Option, List, [], ◌∷◌, String}
use veidemann_browser_contro.Errors.{Code, GoError, eof, other}
use veidemann_browser_contro.Config.{QueuedUri}
use veidemann_browser_contro.Frontier.{RenderResult, PageHarvest, page_completed}
use veidemann_browser_contro.Wire.{Stream}
use veidemann_browser_contro.Wire.Delivery.{Delivers}
use veidemann_browser_contro.Frontier.Protocol.{messages, page_completed-Delivers}

abbrev no_status : Code → String → String
no_status c s = s

abbrev breaks_later : List PageHarvest → PageHarvest → Option GoError
breaks_later [] m = none
breaks_later (x ∷ xs) m = some eof

abbrev stream : Stream PageHarvest
stream = record {
  opening = none;
  send = breaks_later;
  close_and_recv = λ sent. some (other "gone");
}

abbrev outlink_uri : QueuedUri
outlink_uri = record {
  uri = "http://a.no/b";
  execution_id = "e";
  job_execution_id = "j";
  discovery_path = "L";
  referrer = "http://a.no/";
  cookies = [];
  annotation = [];
}

abbrev page : RenderResult
page = record {
  bytes_downloaded = 100;
  uri_count = 2;
  outlinks = outlink_uri ∷ [];
  page_fetch_time_ms = 1500;
}

page_completed-Delivers_example :
    ((stream.opening ≡ none)
      × Delivers stream
          (messages no_status "t" page none)
          (page_completed no_status stream "t" page none))
    ⊎ ((e : GoError) × (stream.opening ≡ some e)
        × (page_completed no_status stream "t" page none ≡ ([], some e)))
page_completed-Delivers_example = page_completed-Delivers no_status stream "t" page none
