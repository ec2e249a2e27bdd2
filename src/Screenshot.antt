-- ===== src/Screenshot.antt =====
-- screenshotwriter/screenshotwriter.go: an image and a text about the browser, as two records of the
-- content writer. The digest of crypto/sha1, as the text that %x prints, is a parameter.
mod Tests
pub mod Records
use Prim.Native.String.{len}
use veidemann_browser_contro.Prelude.{
  ℕ, String, append_text, Option, none, some, List, [], ◌∷◌, ◌++◌, length, str_eq, itoa, utf8,
  if◌then◌else◌,
}
use veidemann_browser_contro.Errors.{GoError, wrap}
use veidemann_browser_contro.Config.{ConfigRef, CrawlConfig, BrowserConfig}
use veidemann_browser_contro.Requests.{CrawlLog}
use veidemann_browser_contro.Wire.{Stream, Sent, sending, close_stream}

-- Metadata. A nil CrawlLog would panic; the one caller passes none.
pub record Metadata : Type 0 where
  pub crawl_config : Option CrawlConfig
  pub crawl_log : CrawlLog
  pub browser_config : Option BrowserConfig
  pub browser_version : String

-- contentwriterV1.RecordType and configV1.Collection_SubCollection, the values in use.
pub data RecordType : Type 0 where
  resource_record metadata_record : RecordType

pub data SubCollection : Type 0 where
  screenshot : SubCollection

-- contentwriterV1.Data
pub record Payload : Type 0 where
  pub record_num : ℕ
  pub bytes : List ℕ

-- contentwriterV1.WriteRequestMeta_RecordMeta
pub record RecordMeta : Type 0 where
  pub record_num : ℕ
  pub record_type : RecordType
  pub record_content_type : String
  pub block_digest : String
  pub payload_digest : String
  pub size : ℕ
  pub sub_collection : SubCollection
  pub warc_concurrent_to : List String

-- contentwriterV1.WriteRequestMeta, with the values of its map by their keys.
pub record WriteRequestMeta : Type 0 where
  pub execution_id : String
  pub target_uri : String
  pub record_meta : List (ℕ × RecordMeta)
  pub fetch_time_stamp : Option ℕ
  pub ip_address : String
  pub collection_ref : Option ConfigRef

-- The oneof of contentwriterV1.WriteRequest
pub data WriteRequest : Type 0 where
  payload : Payload → WriteRequest
  meta : WriteRequestMeta → WriteRequest

-- hash.Hash: what was written to it since it was made or reset.
abbrev Hash : Type 0
Hash = List ℕ

sum : (List ℕ → String) → Hash → String
sum sha1 h = append_text "sha1:" (sha1 h)

reset : Hash → Hash
reset h = []

line : String → String → String
line key value = append_text key (append_text ": " (append_text value "\r\n"))

-- The getters of a nil BrowserConfig give zero values.
abbrev or_zero_config : Option BrowserConfig → BrowserConfig
or_zero_config (some c) = c
or_zero_config none = record {
  user_agent = "";
  window_width = 0;
  window_height = 0;
  page_load_timeout_ms = 0;
  max_inactivity_time_ms = 0;
  script_ref = [];
  script_selector = [];
}

-- screenshotMetaRecord
unfoldable pub meta_record_text : Metadata → String
unfolding line
meta_record_text metadata =
    let c = or_zero_config metadata.browser_config in
    append_text (line "browserVersion" metadata.browser_version) (
      append_text (line "windowHeight" (itoa c.window_height))
        (append_text (line "windowWidth" (itoa c.window_width)) (line "userAgent" c.user_agent)))

abbrev get_collection_ref : Option CrawlConfig → Option ConfigRef
get_collection_ref none = none
get_collection_ref (some c) = some c.collection_ref

ip_address_of : CrawlLog → String
ip_address_of log = if str_eq log.ip_address "" then "127.0.0.1" else log.ip_address

-- `meta`, from the two digests.
unfoldable pub request_meta : Metadata → List ℕ → String → String → WriteRequestMeta
unfolding ip_address_of
request_meta metadata image digest text_digest = record {
  execution_id = metadata.crawl_log.execution_id;
  target_uri = metadata.crawl_log.requested_uri;
  record_meta =
      (
        0,
        record {
          record_num = 0;
          record_type = resource_record;
          record_content_type = "image/png";
          block_digest = digest;
          payload_digest = digest;
          size = length image;
          sub_collection = screenshot;
          warc_concurrent_to = metadata.crawl_log.warc_id ∷ [];
        },
      )
      ∷ (
        1,
        record {
          record_num = 1;
          record_type = metadata_record;
          record_content_type = "application/warc-fields";
          block_digest = text_digest;
          payload_digest = "";
          size = len (meta_record_text metadata);
          sub_collection = screenshot;
          warc_concurrent_to = metadata.crawl_log.warc_id ∷ [];
        },
      )
      ∷ [];
  fetch_time_stamp = metadata.crawl_log.fetch_time_stamp;
  ip_address = ip_address_of metadata.crawl_log;
  collection_ref = get_collection_ref metadata.crawl_config;
}

-- The error of a Send is returned as it is.
abbrev raw_error : List WriteRequest → GoError → GoError
raw_error sent e = e

module _ (sha1 : List ℕ → String) (stream : Stream WriteRequest) where
  -- What follows once the text is sent; `h` is the hash of the image.
  unfoldable pub send_meta :
      List ℕ → Metadata → Hash → String → List WriteRequest → Sent WriteRequest
  unfolding sum reset request_meta close_stream
  send_meta image metadata h digest =
      let text_hash : Hash = reset h ++ utf8 (meta_record_text metadata) in
      sending stream raw_error (meta (request_meta metadata image digest (sum sha1 text_hash)))
        (close_stream stream)

  unfoldable pub send_records : List ℕ → Metadata → Sent WriteRequest
  unfolding send_meta sum
  send_records image metadata =
      let h : Hash = [] ++ image in
      sending stream raw_error (payload (record { record_num = 0; bytes = image }))
        (sending stream raw_error
          (payload (record { record_num = 1; bytes = utf8 (meta_record_text metadata) }))
          (send_meta image metadata h (sum sha1 h)))
        []

  -- Write: what was sent, and the error that it returns.
  unfoldable pub write : List ℕ → Metadata → Sent WriteRequest
  unfolding send_records
  write image metadata = elim stream.opening [
    | some e ↦ ([], some (wrap "failed to open ContentWriter session" e))
    | none ↦ send_records image metadata
  ]
