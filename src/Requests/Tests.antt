-- ===== src/Requests/Tests.antt =====
-- The theorems on requests/requests.go, applied to a page with a redirect.
use Prim.Native.String.{◌++◌ as append_text}
use veidemann_browser_contro.Prelude.{◌≡◌, ◌≢◌, ◌↔◌, refl, true, false, none, some, [], ◌∷◌, All}
use veidemann_browser_contro.Requests.{RequestRegistry, get_by_url, match_crawl_logs}
use veidemann_browser_contro.Requests.Samples.{log_of, first, redirected, image, registry, page}
use veidemann_browser_contro.Requests.Lookup.{IsFirst, get_by_url-IsFirst, match_crawl_logs_iff}
use veidemann_browser_contro.Requests.Finalize.{finalize_responses}
use veidemann_browser_contro.Requests.Finalize.Root.{
  last_index, network_ids, root-finalize_responses,
}

first_page-IsFirst :
    IsFirst
      (λ req. (req.url ≡ "http://a.no/b") × (true ≡ true → req.got_new ≡ false))
      registry.requests
      (get_by_url registry "http://a.no/b" true)
first_page-IsFirst = get_by_url-IsFirst registry "http://a.no/b" true

both_found :
    (match_crawl_logs registry ≡ true) ↔ All (λ req. req.crawl_log ≢ none) registry.requests
both_found = match_crawl_logs_iff registry

root-finalize_responses_example :
    (r' : RequestRegistry) × (finalize_responses registry page ≡ some r')
    × (r'.root ≡ last_index first.network_id registry.requests)
    × (network_ids r'.requests ≡ network_ids registry.requests)
root-finalize_responses_example =
    root-finalize_responses registry page first (redirected ∷ image ∷ []) refl

abbrev finalized : RequestRegistry
finalized = record registry {
  requests =
      record first { crawl_log = some (record (log_of "w1" 10) { discovery_path = "L" }) }
      ∷ record redirected {
        crawl_log = some (record (log_of "w2" 20) { discovery_path = "LR" });
        redirect_parent = some 0;
      }
      ∷ record image { crawl_log = some (record (log_of "" 30) { discovery_path = "E" }) }
      ∷ [];
  root = some 1;
}
