-- ===== src/Screenshot/Tests.antt =====
-- A screenshot whose second record cannot be sent.
use veidemann_browser_contro.Prelude.{
  ℕ, ◌≡◌, ◌≢◌, refl, ◌⊎◌, String, Option, none, some, List, [], ◌∷◌, ◌++◌, map, All, length, itoa,
}
use veidemann_browser_contro.Errors.{GoError, eof, wrap}
use veidemann_browser_contro.Wire.{Stream}
use veidemann_browser_contro.Wire.Delivery.{Delivers}
use veidemann_browser_contro.Requests.Samples.{log_of}
use veidemann_browser_contro.Screenshot.{
  Metadata, WriteRequest, WriteRequestMeta, payload, meta, meta_record_text, write,
}
use veidemann_browser_contro.Screenshot.Records.{payloads, AllDescribe, write-Delivers}

abbrev sha1 : List ℕ → String
sha1 bytes = elim bytes [ [] ↦ "da39" | _ ↦ "a94a" ]

abbrev breaks_later : List WriteRequest → WriteRequest → Option GoError
breaks_later [] m = none
breaks_later (x ∷ xs) m = some eof

abbrev stream : Stream WriteRequest
stream = record { opening = none; send = breaks_later; close_and_recv = λ sent. none }

abbrev about : Metadata
about = record {
  crawl_config = none;
  crawl_log = log_of "w1" 10;
  browser_config = none;
  browser_version = "HeadlessChrome/83";
}

meta_record_text_example :
    meta_record_text about
    ≡ "browserVersion: HeadlessChrome/83\r\nwindowHeight: 0\r\nwindowWidth: 0\r\nuserAgent: \r\n"
unfolding meta_record_text itoa
meta_record_text_example = refl

only_the_image : length (write sha1 stream (1 ∷ 2 ∷ []) about).0 ≡ 1
unfolding write
only_the_image = refl

write-Delivers_example :
    ((m : WriteRequestMeta) × (stream.opening ≡ none)
      × AllDescribe sha1 (payloads (1 ∷ 2 ∷ []) about) m.record_meta
      × All (λ r. r.1.warc_concurrent_to ≡ "w1" ∷ []) m.record_meta
      × (m.execution_id ≡ "e")
      × (m.target_uri ≡ "")
      × (m.ip_address ≢ "")
      × Delivers stream
          (map payload (payloads (1 ∷ 2 ∷ []) about) ++ meta m ∷ [])
          (write sha1 stream (1 ∷ 2 ∷ []) about))
    ⊎ ((e : GoError) × (stream.opening ≡ some e)
        × (write sha1 stream (1 ∷ 2 ∷ []) about
            ≡ ([], some (wrap "failed to open ContentWriter session" e))))
write-Delivers_example = write-Delivers sha1 stream (1 ∷ 2 ∷ []) about
