-- ===== src/Session/Screenshot.antt =====
-- saveScreenshot of session/session.go. The image that the browser gives, or its error, is a
-- parameter; what cannot be captured or written is only logged.
use veidemann_browser_contro.Prelude.{
  ℕ, Bool, true, false, not, ◌&&◌, ◌≡◌, ◌≢◌, refl, ◌⊎◌, inl, inr, String, Option, none, some,
  Option-cases, Bool-cases, List, [], str_eq, if◌then◌else◌, eq_iff, arith,
}
use veidemann_browser_contro.Errors.{Go, ok, fail, panic}
use veidemann_browser_contro.Wire.{Stream}
use veidemann_browser_contro.Requests.{CrawlLog, Request, RequestRegistry, root_request}
use veidemann_browser_contro.Screenshot.{Metadata, WriteRequest, write}
use veidemann_browser_contro.Session.{Session}

-- The root request of the session; none is the panic that follows where a pointer is nil.
root_of : Option RequestRegistry → Option Request
root_of none = none
root_of (some r) = root_request r

metadata_of : Session → CrawlLog → Metadata
metadata_of s log = record {
  crawl_config = s.crawl_config;
  crawl_log = log;
  browser_config = s.browser_config;
  browser_version = s.browser_version;
}

module _ (sha1 : List ℕ → String) (stream : Stream WriteRequest) (capture : Go (List ℕ)) where
  capture_and_write : Session → CrawlLog → Go (List WriteRequest)
  unfolding metadata_of
  capture_and_write s log = elim capture [
    | ok image ↦ ok (write sha1 stream image (metadata_of s log)).0
    | fail e ↦ ok []
    | panic ↦ panic
  ]

  with_crawl_log : Session → Option CrawlLog → Go (List WriteRequest)
  unfolding capture_and_write
  with_crawl_log s none = ok []
  with_crawl_log s (some log) = if str_eq log.warc_id "" then ok [] else capture_and_write s log

  screenshot_of_root : Session → Option Request → Go (List WriteRequest)
  unfolding with_crawl_log
  screenshot_of_root s none = panic
  screenshot_of_root s (some root) =
      if root.from_cache
      then ok []
      else if not (str_eq root.resource_type "Document") && not (str_eq root.resource_type "Image")
      then ok []
      else with_crawl_log s root.crawl_log

  -- saveScreenshot: what is sent to the content writer.
  unfoldable pub save_screenshot : Session → Go (List WriteRequest)
  unfolding root_of screenshot_of_root
  save_screenshot s = screenshot_of_root s (root_of s.requests)

-- The root request was loaded from the network, can be rendered, and is stored under a WARC id.
abbrev pub IsStored : Request → CrawlLog → Type 0
IsStored root log =
    (root.from_cache ≡ false)
    × ((root.resource_type ≡ "Document") ⊎ (root.resource_type ≡ "Image"))
    × (root.crawl_log ≡ some log)
    × (log.warc_id ≢ "")

-- What a screenshot of the session's root request sends.
abbrev pub written :
    (List ℕ → String) → Stream WriteRequest → Session → List ℕ → CrawlLog → List WriteRequest
unfolding metadata_of
written sha1 stream s image log = (write sha1 stream image (metadata_of s log)).0

-- What saveScreenshot looks for is missing.
abbrev pub IsNotStored : Request → Type 0
IsNotStored root =
    (root.from_cache ≡ true)
    ⊎ (((root.resource_type ≢ "Document") × (root.resource_type ≢ "Image"))
        ⊎ ((root.crawl_log ≡ none)
            ⊎ ((log : CrawlLog) × (root.crawl_log ≡ some log) × (log.warc_id ≡ ""))))

abbrev is_not_renderable : String → Bool
is_not_renderable t = not (str_eq t "Document") && not (str_eq t "Image")

renderable : (t : String) → is_not_renderable t ≡ false → (t ≡ "Document") ⊎ (t ≡ "Image")
renderable t e = ground (arith, eq_iff t "Document", eq_iff t "Image", e)

not_renderable : (t : String) → is_not_renderable t ≡ true → (t ≢ "Document") × (t ≢ "Image")
not_renderable t e = ground (arith, eq_iff t "Document", eq_iff t "Image", e)

module _ (sha1 : List ℕ → String) (stream : Stream WriteRequest) (image : List ℕ)
    (s : Session) where
  abbrev Split : Request → Go (List WriteRequest) → Type 0
  Split root r =
      (IsNotStored root × (r ≡ ok []))
      ⊎ ((log : CrawlLog) × IsStored root log × (r ≡ ok (written sha1 stream s image log)))

  root_splits :
      (root : Request) → Split root (screenshot_of_root sha1 stream (ok image) s (some root))
  unfolding screenshot_of_root with_crawl_log capture_and_write
  root_splits root = elim (Bool-cases root.from_cache) [
    | inl cached ↦ rw cached (inl (inl refl, refl))
    | inr loaded ↦ elim (Bool-cases (is_not_renderable root.resource_type)) [
      | inl no_page ↦ rw (loaded, no_page) (inl (inr (inl (not_renderable _ no_page)), refl))
      | inr is_page ↦ elim (Option-cases root.crawl_log) [
        | inl missing ↦ rw (loaded, is_page, missing) (inl (inr (inr (inl refl)), refl))
        | inr (log, q) ↦ elim (Bool-cases (str_eq log.warc_id "")) [
          | inl empty ↦
              rw (loaded, is_page, q, empty)
                (inl (inr (inr (inr (log, refl, (eq_iff log.warc_id "").0 empty))), refl))
          | inr stored ↦
              rw (loaded, is_page, q, stored)
                (inr (
                  log,
                  (
                    refl,
                    renderable _ is_page,
                    refl,
                    λ p. ground (arith, p, eq_iff log.warc_id "", stored),
                  ),
                  refl,
                ))
        ]
      ]
    ]
  ]

  -- With a root request in the session and an image of the browser, saveScreenshot does not panic; it
  -- sends the records of the image for the crawl log of the root request if that request was loaded
  -- from the network, is a document or an image and has a crawl log with a WARC id; and it sends
  -- nothing if one of these is missing.
  pub save_screenshot-Split :
      (r : RequestRegistry) (root : Request)
      → s.requests ≡ some r
      → root_request r ≡ some root
      → (IsNotStored root × (save_screenshot sha1 stream (ok image) s ≡ ok []))
        ⊎ ((log : CrawlLog) × IsStored root log
            × (save_screenshot sha1 stream (ok image) s ≡ ok (written sha1 stream s image log)))
  unfolding save_screenshot root_of
  save_screenshot-Split r root q q' = rw (q, root_of, q') (root_splits root)
