-- ===== src/Frontier.antt =====
-- PageCompleted of frontier/frontier.go. The metrics are in Metrics; the tracing is
-- left out.
mod Tests
pub mod Metrics
pub mod Protocol
use Prim.Native.String.{◌++◌ as append_text}
use veidemann_browser_contro.Prelude.{ℕ, String, Option, none, some, List, [], ◌∷◌, ◌++◌, map}
use veidemann_browser_contro.Errors.{Error, Code, GoError, eof, other, wrap, commons_error}
use veidemann_browser_contro.Config.{QueuedUri}
use veidemann_browser_contro.Wire.{Stream, Sent, sending, close_stream}

-- RenderResult, with its int64 and int32 by their bits; its field Error is read nowhere.
pub record RenderResult : Type 0 where
  pub bytes_downloaded : ℕ
  pub uri_count : ℕ
  pub outlinks : List QueuedUri
  pub page_fetch_time_ms : ℕ

-- The oneof of frontierV1.PageHarvest
pub data Msg : Type 0 where
  error : Error → Msg
  metrics : ℕ → ℕ → Msg
  outlink : QueuedUri → Msg

-- frontierV1.PageHarvest
pub record PageHarvest : Type 0 where
  pub msg : Msg
  pub session_token : String

-- fmt.Errorf with %w, which also makes an error of nil.
wrap_option : String → Option GoError → GoError
wrap_option text none = other (append_text text ": %!w(<nil>)")
wrap_option text (some e) = wrap text e

-- The error for a failed Send: an end of the stream is replaced by the answer of the server.
unfoldable pub send_error : Stream PageHarvest → String → List PageHarvest → GoError → GoError
unfolding wrap_option
send_error stream text sent eof = wrap_option text (stream.close_and_recv sent)
send_error stream text sent e = wrap text e

-- The loop over the outlinks, and the end of the stream.
unfoldable pub send_outlinks :
    Stream PageHarvest → String → List QueuedUri → List PageHarvest → Sent PageHarvest
unfolding close_stream
send_outlinks stream token [] sent = close_stream stream sent
send_outlinks stream token (o ∷ rest) sent =
    sending stream (send_error stream "failed to send outlink to Frontier")
      (record { msg = outlink o; session_token = token }) (send_outlinks stream token rest) sent

-- The harvest of a page that was fetched.
unfoldable pub send_harvest : Stream PageHarvest → String → RenderResult → Sent PageHarvest
unfolding send_outlinks
send_harvest stream token r =
    sending stream (send_error stream "failed to send metrics to Frontier")
      (record { msg = metrics r.uri_count r.bytes_downloaded; session_token = token })
      (send_outlinks stream token r.outlinks) []

unfoldable pub send_failure : Stream PageHarvest → String → Error → Sent PageHarvest
unfolding close_stream
send_failure stream token e =
    sending stream (send_error stream "failed to send fetch error response to Frontier")
      (record { msg = error e; session_token = token }) (close_stream stream) []

-- PageCompleted: what was sent, and the error that it returns.
unfoldable pub page_completed :
    (Code → String → String)
    → Stream PageHarvest
    → String
    → RenderResult
    → Option GoError
    → Sent PageHarvest
unfolding send_harvest send_failure
page_completed status_text stream token r fetch_err = elim stream.opening [
  | some e ↦ ([], some e)
  | none ↦ elim fetch_err [
    | some e ↦ send_failure stream token (commons_error status_text e)
    | none ↦ send_harvest stream token r
  ]
]
