-- ===== src/Requests.antt =====
-- requests/request.go and requests/requests.go: the requests of one page load, in the order in which
-- the browser sent them. A *Request is its index in the registry, which only grows.
mod Tests
pub mod Samples
pub mod Lookup
pub mod Finalize
use veidemann_browser_contro.Prelude.{
  ℕ, ◌+◌, ◌-◌, ◌^◌, Bool, true, false, not, ◌&&◌, ◌||◌, String, Option, none, some, List, [], ◌∷◌,
  ◌++◌, ◌==◌, str_eq, if◌then◌else◌, ℤ, length, get_elem?,
}
use veidemann_browser_contro.Errors.{Error}
use veidemann_browser_contro.Syncx.WaitGroup.{WaitGroup, add, done}

-- logV1.CrawlLog, the fields that the program reads or writes.
pub record CrawlLog : Type 0 where
  pub warc_id : String
  pub method : String
  pub requested_uri : String
  pub status_code : ℤ
  pub content_type : String
  -- an int64, by its 64 bits
  pub size : ℕ
  pub discovery_path : String
  pub referrer : String
  pub error : Option Error
  pub collection_final_name : String
  pub execution_id : String
  pub ip_address : String
  -- nil if it is not set
  pub fetch_time_stamp : Option ℕ

pub record Request : Type 0 where
  pub method : String
  pub url : String
  pub request_id : String
  pub network_id : String
  pub crawl_log : Option CrawlLog
  pub got_new : Bool
  pub got_complete : Bool
  pub initiator : String
  pub resource_type : String
  pub referrer : String
  pub redirect_parent : Option ℕ
  pub from_cache : Bool

-- requestRegistry, whose mutex makes each method that takes it one step.
pub record RequestRegistry : Type 0 where
  pub done : WaitGroup
  pub requests : List Request
  pub root : Option ℕ

-- NewRegistry
unfoldable pub new_registry : WaitGroup → RequestRegistry
new_registry wg = record { done = wg; requests = []; root = none }

with_done : RequestRegistry → Option WaitGroup → Option RequestRegistry
with_done r none = none
with_done r (some wg) = some (record r { done = wg })

-- none is a panic of the wait group.
unfoldable pub notify_load_start : RequestRegistry → Option RequestRegistry
unfolding with_done
notify_load_start r = with_done r (add r.done 1)

unfoldable pub notify_load_finished : RequestRegistry → Option RequestRegistry
unfolding with_done
notify_load_finished r = with_done r (done r.done)

unfoldable pub add_request : RequestRegistry → Request → RequestRegistry
add_request r req = record r { requests = r.requests ++ req ∷ [] }

-- The loops of the getters: the index of the first request that passes a test.
find_from : (Request → Bool) → ℕ → List Request → Option ℕ
find_from p i [] = none
find_from p i (req ∷ rest) = if p req then some i else find_from p (i + 1) rest

unfoldable pub get_by_network_id : RequestRegistry → String → Option ℕ
unfolding find_from
get_by_network_id r id = find_from (λ req. str_eq req.network_id id) 0 r.requests

unfoldable pub get_by_request_id : RequestRegistry → String → Option ℕ
unfolding find_from
get_by_request_id r id = find_from (λ req. str_eq req.request_id id) 0 r.requests

unfoldable pub get_by_url : RequestRegistry → String → Bool → Option ℕ
unfolding find_from
get_by_url r url only_new =
    find_from (λ req. str_eq req.url url && (not only_new || not req.got_new)) 0 r.requests

count_unresolved : List Request → ℕ
count_unresolved [] = 0
count_unresolved (req ∷ rest) = elim req.crawl_log [
  | none ↦ count_unresolved rest + 1
  | some _ ↦ count_unresolved rest
]

-- MatchCrawlLogs
unfoldable pub match_crawl_logs : RequestRegistry → Bool
unfolding count_unresolved
match_crawl_logs r = count_unresolved r.requests == 0

-- InitialRequest; none is the panic of an index out of range.
unfoldable pub initial_request : RequestRegistry → Option Request
initial_request r = get_elem? r.requests 0

at_root : List Request → Option ℕ → Option Request
at_root xs none = none
at_root xs (some i) = get_elem? xs i

-- RootRequest; none is nil.
unfoldable pub root_request : RequestRegistry → Option Request
unfolding at_root
root_request r = at_root r.requests r.root
