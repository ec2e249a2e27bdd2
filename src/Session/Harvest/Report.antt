-- ===== src/Session/Harvest/Report.antt =====
-- What Fetch of session/session.go reports of a page.
use Prim.Native.String.{◌++◌ as append_text}
use mathlib.Core.List.{append-nil, append_assoc}
use veidemann_browser_contro.Prelude.{
  sym, ℕ, ◌+◌, ◌%◌, ◌^◌, ◌<◌, ◌≡◌, refl, ◌∙◌, ap, inl, inr, String, Option, none, some,
  Option-cases, subst, List, [], ◌∷◌, ◌++◌, map, length, All, length-append, str_eq, arith,
  if◌then◌else◌,
}
use veidemann_browser_contro.Errors.{Go, ok, fail, panic, GoError}
use veidemann_browser_contro.Config.{Cookie, QueuedUri}
use veidemann_browser_contro.Requests.{
  CrawlLog, Request, RequestRegistry, initial_request, root_request,
}
use veidemann_browser_contro.Frontier.{RenderResult}
use veidemann_browser_contro.Session.Harvest.{
  Walked, count_log, visit, walk, nothing_walked, queued, queue_uris, render_result, Harvest,
  report_logged, report, harvest,
}

-- The logs with a WARC id, in the order of their requests.
pub stored_logs : List Request → List CrawlLog
stored_logs [] = []
stored_logs (r ∷ rest) = elim r.crawl_log [
  | none ↦ stored_logs rest
  | some log ↦ if str_eq log.warc_id "" then stored_logs rest else log ∷ stored_logs rest
]

pub total_size : List CrawlLog → ℕ
total_size [] = 0
total_size (log ∷ rest) = log.size + total_size rest

total_size-append : (xs ys : List CrawlLog) → total_size (xs ++ ys) ≡ total_size xs + total_size ys
unfolding total_size
total_size-append [] ys = omega arith
total_size-append (x ∷ xs) ys = omega (arith, total_size-append xs ys)

-- What a request adds.
stored_log : Request → List CrawlLog
stored_log r = elim r.crawl_log [
  | none ↦ []
  | some log ↦ if str_eq log.warc_id "" then [] else log ∷ []
]

stored_logs-cons :
    (r : Request) (rest : List Request) → stored_logs (r ∷ rest) ≡ stored_log r ++ stored_logs rest
unfolding stored_logs stored_log
stored_logs-cons r rest = ground arith

visit_lem :
    (r : Request) (w : Walked)
    → ((visit r w).crawl_logs ≡ w.crawl_logs ++ stored_log r)
      × (((visit r w).crawl_log_count % 2 ^ 32)
          ≡ (w.crawl_log_count + length (stored_log r)) % 2 ^ 32)
      × (((visit r w).bytes_downloaded % 2 ^ 64)
          ≡ (w.bytes_downloaded + total_size (stored_log r)) % 2 ^ 64)
unfolding visit stored_log total_size count_log
visit_lem r w = ground (arith, append-nil w.crawl_logs)

abbrev InRange : Walked → Type 0
InRange w = (w.crawl_log_count < 2 ^ 32) × (w.bytes_downloaded < 2 ^ 64)

visit-InRange : (r : Request) (w : Walked) → InRange w → InRange (visit r w)
unfolding visit count_log
visit-InRange r w h = ground arith

walk-InRange : (rs : List Request) (w : Walked) → InRange w → InRange (walk rs w)
unfolding walk
walk-InRange [] w h = h
walk-InRange (r ∷ rest) w h = walk-InRange rest (visit r w) (visit-InRange r w h)

walk_lem :
    (rs : List Request) (w : Walked)
    → ((walk rs w).crawl_logs ≡ w.crawl_logs ++ stored_logs rs)
      × (((walk rs w).crawl_log_count % 2 ^ 32)
          ≡ (w.crawl_log_count + length (stored_logs rs)) % 2 ^ 32)
      × (((walk rs w).bytes_downloaded % 2 ^ 64)
          ≡ (w.bytes_downloaded + total_size (stored_logs rs)) % 2 ^ 64)
unfolding walk
walk_lem [] w =
    unfold stored_logs total_size in (sym (append-nil w.crawl_logs), omega arith, omega arith)
walk_lem (r ∷ rest) w =
    let (logs, count, bytes) = visit_lem r w in
    let (logs', count', bytes') = walk_lem rest (visit r w) in
    rw (stored_logs-cons r rest) (
      logs'
          ∙ (ap (λ l. l ++ stored_logs rest) logs
              ∙ append_assoc w.crawl_logs (stored_log r) (stored_logs rest)),
      omega (arith, count, count', length-append (stored_log r) (stored_logs rest)),
      omega (arith, bytes, bytes', total_size-append (stored_log r) (stored_logs rest)),
    )

map_uri-queued :
    (requested : QueuedUri) (cookies : List Cookie) (root : Request) (log : CrawlLog)
    (outlinks : List String)
    → map (λ (q : QueuedUri). q.uri) (map (queued requested cookies root log) outlinks) ≡ outlinks
unfolding queued
map_uri-queued requested cookies root log [] = refl
map_uri-queued requested cookies root log (o ∷ rest) =
    ap (λ l. o ∷ l) (map_uri-queued requested cookies root log rest)

-- The path of the root request's log, for the outlinks.
abbrev pub HasPath : Option Request → List Cookie → QueuedUri → Type 0
HasPath none cookies q = ⊥
HasPath (some root) cookies q =
    (log : CrawlLog) × (root.crawl_log ≡ some log)
    × (q.discovery_path ≡ append_text log.discovery_path "L")
    × (q.referrer ≡ root.url)
    × (q.cookies ≡ cookies)

All-queued :
    (requested : QueuedUri) (cookies : List Cookie) (root : Request) (log : CrawlLog)
    (outlinks : List String)
    → root.crawl_log ≡ some log
    → All (HasPath (some root) cookies) (map (queued requested cookies root log) outlinks)
unfolding queued
All-queued requested cookies root log [] e = tt
All-queued requested cookies root log (o ∷ rest) e =
    ((log, e, refl, refl, refl), All-queued requested cookies root log rest e)

abbrev pub Queues : Option Request → List Cookie → List String → List QueuedUri → Type 0
Queues root cookies outlinks uris =
    (map (λ (q : QueuedUri). q.uri) uris ≡ outlinks) × All (HasPath root cookies) uris

queue_uris-Queues :
    (requested : QueuedUri) (cookies : List Cookie) (root : Option Request) (outlinks : List String)
    (uris : List QueuedUri)
    → queue_uris requested cookies root outlinks ≡ ok uris
    → Queues root cookies outlinks uris
unfolding queue_uris
queue_uris-Queues requested cookies root [] uris e = let same : uris ≡ [] = cc in rw same (refl, tt)
queue_uris-Queues requested cookies none (o ∷ rest) uris e = cc
queue_uris-Queues requested cookies (some root) (o ∷ rest) uris e =
    elim (Option-cases root.crawl_log) [
      | inl missing ↦ ground arith
      | inr (log, logged) ↦
          let same : map (queued requested cookies root log) (o ∷ rest) ≡ uris = ground arith in
          subst (Queues (some root) cookies (o ∷ rest)) same (
            map_uri-queued requested cookies root log (o ∷ rest),
            All-queued requested cookies root log (o ∷ rest) logged,
          )
    ]

render_result_lem :
    (w : Walked) (duration : ℕ) (g : Go (List QueuedUri)) (result : RenderResult)
    → render_result w duration g ≡ ok result
    → (g ≡ ok result.outlinks)
      × (result.uri_count ≡ w.crawl_log_count)
      × (result.bytes_downloaded ≡ w.bytes_downloaded)
unfolding render_result
render_result_lem w duration (ok uris) result e = ground arith
render_result_lem w duration (fail x) result e = cc
render_result_lem w duration panic result e = cc

abbrev Reports :
    Walked → Option Request → List Cookie → List String → RenderResult → Harvest → Type 0
Reports w root cookies outlinks result h =
    (h.crawl_logs ≡ w.crawl_logs)
    × (length h.page_logs ≡ 1)
    × (result.uri_count ≡ w.crawl_log_count)
    × (result.bytes_downloaded ≡ w.bytes_downloaded)
    × Queues root cookies outlinks result.outlinks

module _ (uuid : String) (cancel_err : Option GoError) (duration : ℕ) (requested : QueuedUri)
    (outlinks : List String) (cookies : List Cookie) (w : Walked) (root : Option Request)
    (result : RenderResult) where
  report_logged_lem :
      (initial : Request) (log : Option CrawlLog)
      → let h =
          report_logged uuid cancel_err duration requested outlinks cookies w root initial log in
        h.result ≡ ok result → Reports w root cookies outlinks result h
  unfolding report_logged
  report_logged_lem initial none e = cc
  report_logged_lem initial (some log) e =
      let (queued_all, count, bytes) = render_result_lem w duration _ result e in
      (refl, refl, count, bytes, queue_uris-Queues requested cookies root outlinks _ queued_all)

  report_lem :
      (initial : Option Request)
      → let h = report uuid cancel_err duration requested outlinks cookies w root initial in
        h.result ≡ ok result → Reports w root cookies outlinks result h
  unfolding report
  report_lem none e = cc
  report_lem (some initial) e = report_logged_lem initial initial.crawl_log e

walked :
    (rs : List Request)
    → let w = walk rs nothing_walked in
      (w.crawl_logs ≡ stored_logs rs)
      × (w.crawl_log_count ≡ length (stored_logs rs) % 2 ^ 32)
      × (w.bytes_downloaded ≡ total_size (stored_logs rs) % 2 ^ 64)
unfolding nothing_walked
walked rs =
    let (logs, count, bytes) = walk_lem rs nothing_walked in
    let (c, b) = walk-InRange rs nothing_walked (omega arith, omega arith) in
    (logs, omega (arith, count), omega (arith, bytes))

-- If Fetch reports a result for a page, the logs that it wrote are those of the requests with a WARC
-- id, in order, together with one page log; the number of URIs, an int32, is the number of these logs
-- modulo 2 ^ 32, and the number of bytes, an int64, the sum of their sizes modulo 2 ^ 64; and there is one queued URI for each outlink, in order, each
-- with the root request's final path followed by L and with the cookies of the browser.
pub harvest-Queues :
    (uuid : String) (cancel_err : Option GoError) (duration : ℕ) (requested : QueuedUri)
    (outlinks : List String) (cookies : List Cookie) (registry : RequestRegistry)
    (result : RenderResult)
    → (harvest uuid cancel_err duration requested outlinks cookies registry).result ≡ ok result
    → let h = harvest uuid cancel_err duration requested outlinks cookies registry in
      (h.crawl_logs ≡ stored_logs registry.requests)
      × (length h.page_logs ≡ 1)
      × (result.uri_count ≡ length h.crawl_logs % 2 ^ 32)
      × (result.bytes_downloaded ≡ total_size h.crawl_logs % 2 ^ 64)
      × Queues (root_request registry) cookies outlinks result.outlinks
unfolding harvest
harvest-Queues uuid cancel_err duration requested outlinks cookies registry result e =
    let w = walk registry.requests nothing_walked in
    let (logs, one, count, bytes, queues) =
      report_lem uuid cancel_err duration requested outlinks cookies w (root_request registry)
        result (initial_request registry) e in
    let (logs', count', bytes') = walked registry.requests in
    let stored = logs ∙ logs' in
    (stored, one, rw stored (count ∙ count'), rw stored (bytes ∙ bytes'), queues)
