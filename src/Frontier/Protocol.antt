-- ===== src/Frontier/Protocol.antt =====
-- What the frontier receives for a page from frontier/frontier.go.
use veidemann_browser_contro.Prelude.{
  ◌≡◌, refl, ◌⊎◌, inl, inr, String, Option, none, some, List, [], ◌∷◌, ◌++◌,
}
use veidemann_browser_contro.Errors.{Code, GoError, commons_error}
use veidemann_browser_contro.Config.{QueuedUri}
use veidemann_browser_contro.Wire.{Stream, close_stream}
use veidemann_browser_contro.Wire.Delivery.{Delivers, sending-Delivers, close_stream-Delivers}
use veidemann_browser_contro.Frontier.{
  RenderResult, Msg, error, metrics, outlink, PageHarvest, send_error, send_error, send_outlinks,
  send_harvest, send_failure, page_completed,
}

-- The messages for a page.
abbrev pub with_token : String → Msg → PageHarvest
with_token token m = record { msg = m; session_token = token }

abbrev pub outlink_messages : String → List QueuedUri → List PageHarvest
outlink_messages token [] = []
outlink_messages token (o ∷ rest) = with_token token (outlink o) ∷ outlink_messages token rest

abbrev pub messages :
    (Code → String → String) → String → RenderResult → Option GoError → List PageHarvest
messages status_text token r none =
    with_token token (metrics r.uri_count r.bytes_downloaded) ∷ outlink_messages token r.outlinks
messages status_text token r (some e) = with_token token (error (commons_error status_text e)) ∷ []

send_outlinks-Delivers :
    (stream : Stream PageHarvest) (token : String) (outlinks : List QueuedUri)
    (sent : List PageHarvest)
    → Delivers stream
        (sent ++ outlink_messages token outlinks)
        (send_outlinks stream token outlinks sent)
unfolding send_outlinks close_stream
send_outlinks-Delivers stream token [] sent = close_stream-Delivers stream sent
send_outlinks-Delivers stream token (o ∷ rest) sent =
    sending-Delivers stream (send_error stream "failed to send outlink to Frontier")
      (with_token token (outlink o)) (outlink_messages token rest) sent
      (send_outlinks stream token rest)
      (send_outlinks-Delivers stream token rest (sent ++ with_token token (outlink o) ∷ []))

-- Over a stream that opens, PageCompleted sends the frontier the error of the fetch and nothing else,
-- or the metrics followed by the outlinks in order, each with the token of the page; it either sends
-- all of this and returns the server's answer, or stops before the first message that cannot be sent
-- and returns an error. With a stream that does not open it sends nothing and returns the error.
pub page_completed-Delivers :
    (status_text : Code → String → String) (stream : Stream PageHarvest) (token : String)
    (r : RenderResult) (fetch_err : Option GoError)
    → ((stream.opening ≡ none)
        × Delivers stream
            (messages status_text token r fetch_err)
            (page_completed status_text stream token r fetch_err))
      ⊎ ((e : GoError) × (stream.opening ≡ some e)
          × (page_completed status_text stream token r fetch_err ≡ ([], some e)))
unfolding page_completed send_harvest send_failure close_stream
page_completed-Delivers status_text stream token r fetch_err = go stream.opening refl
  where
    opened :
        (o : Option GoError)
        → Delivers stream (messages status_text token r o) (elim o [
          | some e ↦ send_failure stream token (commons_error status_text e)
          | none ↦ send_harvest stream token r
        ])
    opened none =
        sending-Delivers stream (send_error stream "failed to send metrics to Frontier")
          (with_token token (metrics r.uri_count r.bytes_downloaded))
          (outlink_messages token r.outlinks) [] (send_outlinks stream token r.outlinks)
          (send_outlinks-Delivers stream token r.outlinks
            (with_token token (metrics r.uri_count r.bytes_downloaded) ∷ []))
    opened (some e) =
        sending-Delivers stream
          (send_error stream "failed to send fetch error response to Frontier")
          (with_token token (error (commons_error status_text e))) [] [] (close_stream stream)
          (inl (refl, refl))

    go :
        (o : Option GoError)
        → stream.opening ≡ o
        → let result : List PageHarvest × Option GoError = elim o [
          | some e ↦ ([], some e)
          | none ↦ elim fetch_err [
            | some e ↦ send_failure stream token (commons_error status_text e)
            | none ↦ send_harvest stream token r
          ]
        ] in
          ((stream.opening ≡ none)
            × Delivers stream (messages status_text token r fetch_err) result)
          ⊎ ((e : GoError) × (stream.opening ≡ some e) × (result ≡ ([], some e)))
    go none q = inl (q, opened fetch_err)
    go (some e) q = inr (e, q, refl)
