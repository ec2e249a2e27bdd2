-- ===== src/Requests/Finalize.antt =====
-- FinalizeResponses of requests/requests.go: redirect parents, the root request, and the discovery
-- path of every request with a crawl log.
pub mod Root
pub mod Paths
use veidemann_browser_contro.Prelude.{
  ℕ, ◌+◌, Bool, String, append_text, Option, none, some, List, [], ◌∷◌, ◌++◌, ◌==◌, str_eq, lookup,
  insert, length, get_elem?, if◌then◌else◌,
}
use veidemann_browser_contro.Config.{QueuedUri}
use veidemann_browser_contro.Requests.{CrawlLog, Request, RequestRegistry}

-- The variables of the loop: the requests before the present one, and the two maps to indices.
pub record Finalizing : Type 0 where
  pub before : List Request
  pub urls : List (String × ℕ)
  pub ids : List (String × ℕ)
  pub root : ℕ

-- The root follows a redirect of the root.
unfoldable pub next_root : Option ℕ → ℕ → ℕ → ℕ
next_root none idx root = root
next_root (some p) idx root = if p == root then idx else root

unfoldable pub with_parent : Option ℕ → Request → Request
with_parent none rr = rr
with_parent (some p) rr = record rr { redirect_parent = some p }

unfoldable pub discovery_type : QueuedUri → ℕ → Request → String
discovery_type requested idx rr =
    if idx == 0
    then requested.discovery_path
    else if str_eq rr.initiator "script"
    then "X"
    else elim rr.redirect_parent [ none ↦ "E" | some _ ↦ "R" ]

-- The crawl log of the request at an index; none for nil, of either.
unfoldable pub crawl_log_at : List Request → Option ℕ → Option CrawlLog
crawl_log_at xs none = none
crawl_log_at xs (some i) = elim (get_elem? xs i) [ none ↦ none | some r ↦ r.crawl_log ]

-- The path of a log in front of a type, or the type alone.
unfoldable pub extend_path : Option CrawlLog → Option CrawlLog → String → String
extend_path (some parent) referrer type = append_text parent.discovery_path type
extend_path none (some referrer) type = append_text referrer.discovery_path type
extend_path none none type = type

-- The request at the index of the present one is that request itself, with its old path.
unfoldable pub with_path :
    QueuedUri → List Request → List (String × ℕ) → Request → CrawlLog → Request
unfolding discovery_type crawl_log_at extend_path
with_path requested before urls rr log =
    let log' = record log { referrer = rr.referrer } in
    let all = before ++ record rr { crawl_log = some log' } ∷ [] in
    let path =
      extend_path (crawl_log_at all rr.redirect_parent) (crawl_log_at all (lookup rr.referrer urls))
        (discovery_type requested (length before) rr) in
    record rr { crawl_log = some (record log' { discovery_path = path }) }

unfoldable pub with_log : QueuedUri → List Request → List (String × ℕ) → Request → Request
unfolding with_path
with_log requested before urls rr = elim rr.crawl_log [
  | none ↦ rr
  | some log ↦ with_path requested before urls rr log
]

-- One turn of the loop.
unfoldable pub finalize_one : QueuedUri → Finalizing → Request → Finalizing
unfolding with_parent with_log next_root
finalize_one requested s rr =
    let idx = length s.before in
    let urls = insert rr.url idx s.urls in
    let parent = lookup rr.network_id s.ids in
    record {
      before = s.before ++ with_log requested s.before urls (with_parent parent rr) ∷ [];
      urls = urls;
      ids = insert rr.network_id idx s.ids;
      root = next_root parent idx s.root;
    }

unfoldable pub finalize_all : QueuedUri → Finalizing → List Request → Finalizing
unfolding finalize_one
finalize_all requested s [] = s
finalize_all requested s (rr ∷ rest) = finalize_all requested (finalize_one requested s rr) rest

finish : RequestRegistry → Finalizing → RequestRegistry
finish r s = record r { requests = s.before; root = some s.root }

abbrev pub start : Finalizing
start = record { before = []; urls = []; ids = []; root = 0 }

unfoldable pub finalize_list : RequestRegistry → QueuedUri → List Request → Option RequestRegistry
unfolding finish
finalize_list r requested [] = none
finalize_list r requested (rr ∷ rest) = some (finish r (finalize_all requested start (rr ∷ rest)))

-- FinalizeResponses; none is the panic of an index out of range.
unfoldable pub finalize_responses : RequestRegistry → QueuedUri → Option RequestRegistry
unfolding finalize_list
finalize_responses r requested = finalize_list r requested r.requests
