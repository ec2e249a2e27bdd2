-- ===== src/Session/Fetch/Codes.antt =====
-- The errors of a load that ends early in session/session.go.
use veidemann_browser_contro.Prelude.{
  ◌≡◌, ◌≢◌, refl, ◌⊎◌, inl, inr, true, false, Bool-cases, Option, none, some, Option-cases,
}
use veidemann_browser_contro.Errors.{Go, ok, fail, panic}
use veidemann_browser_contro.Config.{QueuedUri}
use veidemann_browser_contro.Syncx.WaitGroup.{WaitError, idle_timeout, exceeded_max_time, cancelled}
use veidemann_browser_contro.Requests.{CrawlLog, Request, RequestRegistry}
use veidemann_browser_contro.Session.Fetch.{
  State, already_seen, runtime_exceeded, check_log, initial_of, frames_waited,
}

-- Why Fetch goes on after the wait for the frames, or does not.
pub data Reason (page : QueuedUri) (e : Option WaitError) (requests : Option RequestRegistry)
    : Go (Unit {0}) → Type 0 where
  finished : e ≢ some cancelled → e ≢ some exceeded_max_time → Reason page e requests (ok tt)
  aborted :
      (initial : Request)
      → e ≡ some cancelled
      → initial_of requests ≡ some initial
      → initial.from_cache ≡ false
      → Reason page e requests (ok tt)
  late :
      (initial : Request) (log : CrawlLog)
      → e ≡ some exceeded_max_time
      → initial_of requests ≡ some initial
      → initial.crawl_log ≡ some log
      → Reason page e requests (ok tt)
  seen :
      (initial : Request)
      → e ≡ some cancelled
      → initial_of requests ≡ some initial
      → initial.from_cache ≡ true
      → Reason page e requests (fail (already_seen page))
  timed_out :
      (initial : Request)
      → e ≡ some exceeded_max_time
      → initial_of requests ≡ some initial
      → initial.crawl_log ≡ none
      → Reason page e requests (fail (runtime_exceeded page))
  no_request :
      (e ≡ some cancelled) ⊎ (e ≡ some exceeded_max_time)
      → initial_of requests ≡ none
      → Reason page e requests panic

module _ {W : Type 0} where
  -- After the wait for the frames, Fetch ends with the error -4100 exactly if the wait was cancelled
  -- and the first request came from the cache, and with -5004 exactly if the time was exceeded and
  -- the first request has no crawl log. If either happens before there is any request, it panics; in
  -- all other cases it goes on.
  pub frames_waited-Reason :
      (page : QueuedUri) (e : Option WaitError) (s : State W)
      → (r : Go (Unit {0})) × (frames_waited page e s ≡ some (r, s)) × Reason page e s.0.requests r
  unfolding frames_waited check_log
  frames_waited-Reason page none s = (ok tt, refl, finished (λ q. cc) (λ q. cc))
  frames_waited-Reason page (some idle_timeout) s = (ok tt, refl, finished (λ q. cc) (λ q. cc))
  frames_waited-Reason page (some cancelled) s = elim (Option-cases (initial_of s.0.requests)) [
    | inl q ↦ (panic, rw q refl, no_request (inl refl) q)
    | inr (initial, q) ↦ elim (Bool-cases initial.from_cache) [
      | inl c ↦ (fail (already_seen page), rw (q, c) refl, seen initial refl q c)
      | inr c ↦ (ok tt, rw (q, c) refl, aborted initial refl q c)
    ]
  ]
  frames_waited-Reason page (some exceeded_max_time) s =
      elim (Option-cases (initial_of s.0.requests)) [
        | inl q ↦ (panic, rw q refl, no_request (inr refl) q)
        | inr (initial, q) ↦ elim (Option-cases initial.crawl_log) [
          | inl c ↦ (fail (runtime_exceeded page), rw (q, c) refl, timed_out initial refl q c)
          | inr (log, c) ↦ (ok tt, rw (q, c) refl, late initial log refl q c)
        ]
      ]
