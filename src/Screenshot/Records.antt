-- ===== src/Screenshot/Records.antt =====
-- The records that screenshotwriter/screenshotwriter.go hands to the content writer.
use veidemann_browser_contro.Prelude.{
  ℕ, ◌≡◌, ◌≢◌, refl, ◌⊎◌, inr, String, append_text, none, some, Option-cases, List, [], sym, All,
  map, Bool-cases, inl, ◌∷◌, ◌++◌, length, str_eq, if◌then◌else◌, utf8, length-utf8, arith, eq_iff,
}
use veidemann_browser_contro.Errors.{GoError, wrap}
use veidemann_browser_contro.Wire.{Stream, sending, close_stream}
use veidemann_browser_contro.Wire.Delivery.{Delivers, sending-Delivers, close_stream-Delivers}
use veidemann_browser_contro.Requests.{CrawlLog}
use veidemann_browser_contro.Screenshot.{
  Metadata, Payload, RecordMeta, WriteRequestMeta, WriteRequest, payload, meta, meta_record_text,
  request_meta, raw_error, send_meta, send_records, write,
}

-- What the meta message says of a payload is true of its bytes.
abbrev pub Describes : (List ℕ → String) → Payload → RecordMeta → Type 0
Describes sha1 p r =
    (r.record_num ≡ p.record_num)
    × (r.size ≡ length p.bytes)
    × (r.block_digest ≡ append_text "sha1:" (sha1 p.bytes))

-- The records that belong to the payloads, in order and with their keys.
abbrev pub AllDescribe : (List ℕ → String) → List Payload → List (ℕ × RecordMeta) → Type 0
AllDescribe sha1 [] [] = Unit {0}
AllDescribe sha1 (p ∷ ps) ((k, r) ∷ rs) =
    (k ≡ p.record_num) × Describes sha1 p r × AllDescribe sha1 ps rs
AllDescribe sha1 _ _ = ⊥

abbrev pub payload_of : ℕ → List ℕ → Payload
payload_of n bytes = record { record_num = n; bytes = bytes }

-- The two payloads.
abbrev pub payloads : List ℕ → Metadata → List Payload
payloads image m = payload_of 0 image ∷ payload_of 1 (utf8 (meta_record_text m)) ∷ []

ip_address-ne-empty :
    (log : CrawlLog) → (if str_eq log.ip_address "" then "127.0.0.1" else log.ip_address) ≢ ""
ip_address-ne-empty log = elim (Bool-cases (str_eq log.ip_address "")) [
  | inl e ↦ rw e (λ p. ground (arith, p, eq_iff "127.0.0.1" ""))
  | inr e ↦ rw e (λ p. ground (arith, p, e, eq_iff log.ip_address ""))
]

request_meta-AllDescribe :
    (sha1 : List ℕ → String) (image : List ℕ) (m : Metadata)
    → AllDescribe sha1
        (payloads image m)
        (request_meta m image
          (append_text "sha1:" (sha1 image))
          (append_text "sha1:" (sha1 (utf8 (meta_record_text m))))).record_meta
unfolding request_meta
request_meta-AllDescribe sha1 image m =
    (refl, (refl, refl, refl), (refl, (refl, sym (length-utf8 (meta_record_text m)), refl), tt))

-- Over a stream that opens, Write sends the image, the text about the browser and a message on these
-- two records: with the number, the number of bytes and the SHA-1 digest of each, the crawl log's
-- execution id and URI, its WARC id as the one record that both are concurrent to, and an IP address
-- that is not empty. It either sends all three and returns the server's answer, or stops before the
-- first that cannot be sent and returns an error. With a stream that does not open it sends nothing
-- and returns the error.
pub write-Delivers :
    (sha1 : List ℕ → String) (stream : Stream WriteRequest) (image : List ℕ) (m : Metadata)
    → ((about : WriteRequestMeta) × (stream.opening ≡ none)
        × AllDescribe sha1 (payloads image m) about.record_meta
        × All (λ r. r.1.warc_concurrent_to ≡ m.crawl_log.warc_id ∷ []) about.record_meta
        × (about.execution_id ≡ m.crawl_log.execution_id)
        × (about.target_uri ≡ m.crawl_log.requested_uri)
        × (about.ip_address ≢ "")
        × Delivers stream
            (map payload (payloads image m) ++ meta about ∷ [])
            (write sha1 stream image m))
      ⊎ ((e : GoError) × (stream.opening ≡ some e)
          × (write sha1 stream image m
              ≡ ([], some (wrap "failed to open ContentWriter session" e))))
unfolding write send_records send_meta request_meta
write-Delivers sha1 stream image m = elim (Option-cases stream.opening) [
  | inr (e, q) ↦ rw (q, write) (inr (e, refl, refl))
  | inl q ↦
      rw (q, write)
        (inl (
          about,
          refl,
          request_meta-AllDescribe sha1 image m,
          (refl, (refl, tt)),
          refl,
          refl,
          ip_address-ne-empty m.crawl_log,
          sent,
        ))
]
  where
    about : WriteRequestMeta
    about =
        request_meta m image (append_text "sha1:" (sha1 image))
          (append_text "sha1:" (sha1 (utf8 (meta_record_text m))))

    sent :
        Delivers stream
          (map payload (payloads image m) ++ meta about ∷ [])
          (send_records sha1 stream image m)
    sent =
        let image_sent : List WriteRequest = map payload (payload_of 0 image ∷ []) in
        sending-Delivers stream raw_error (payload (payload_of 0 image))
          (payload (payload_of 1 (utf8 (meta_record_text m))) ∷ meta about ∷ []) []
          (sending stream raw_error (payload (payload_of 1 (utf8 (meta_record_text m))))
            (send_meta sha1 stream image m image (append_text "sha1:" (sha1 image))))
          (sending-Delivers stream raw_error (payload (payload_of 1 (utf8 (meta_record_text m))))
            (meta about ∷ []) image_sent
            (send_meta sha1 stream image m image (append_text "sha1:" (sha1 image)))
            (sending-Delivers stream raw_error (meta about) [] (map payload (payloads image m))
              (close_stream stream)
              (close_stream-Delivers stream (map payload (payloads image m) ++ meta about ∷ []))))
