-- ===== src/Session/Events/Tests.antt =====
-- A paused request that already has the header of the controller.
use veidemann_browser_contro.Prelude.{
  ◌≡◌, ◌≢◌, refl, String, Option, none, some, false, List, [], ◌∷◌, ◌++◌, map, lookup, eq_iff,
  arith,
}
use veidemann_browser_contro.Errors.{GoError}
use veidemann_browser_contro.Requests.{RequestRegistry}
use veidemann_browser_contro.Requests.Samples.{registry}
use veidemann_browser_contro.Session.{Session, new_default_session}
use veidemann_browser_contro.Session.Events.{
  nil_header, header_text, Headers, interface_to_string, continue_headers, reqid_header,
  PausedRequest, is_request_stage, request_of, Command, continue_request, request_paused, listen,
}
use veidemann_browser_contro.Session.Events.Paused.{values, Finds, paused-Registered}

abbrev headers : Headers
headers =
    ("Referer", header_text "http://a.no/")
    ∷ ("veidemann_reqid", header_text "old")
    ∷ ("Accept", header_text "*/*")
    ∷ []

abbrev paused : PausedRequest
paused = record {
  request_id = "interception-1";
  network_id = "n9";
  resource_type = "Image";
  method = "GET";
  url = "http://a.no/d.png";
  url_fragment = "";
  headers = headers;
  response_status_code = 0;
  response_error_reason = "";
}

abbrev loading : Session
unfolding new_default_session
loading = record (new_default_session []) { ctx = some false; requests = some registry }

abbrev run : Command → Option GoError
run c = none

replaced :
    continue_headers paused
    ≡ ("Referer", "http://a.no/") ∷ ("Accept", "*/*") ∷ ("veidemann_reqid", "interception-1") ∷ []
unfolding continue_headers lookup
replaced = refl

text-ne-nil : (s : String) → some (header_text s) ≢ some nil_header
text-ne-nil s e = cc

given : lookup reqid_header headers ≢ some nil_header
unfolding lookup
given = text-ne-nil "old"

not_reqid : "Accept" ≢ reqid_header
not_reqid e = ground (arith, e, eq_iff "Accept" reqid_header)

paused-Registered_example :
    (r : RequestRegistry) × (hs : List (String × String)) × ((listen run 0
        (λ url. url)
        (request_paused paused)
        loading).0
      ≡ (
        continue_request "interception-1"
            (some (record { url = "http://a.no/d.png"; method = "GET"; headers = hs })),
        some r,
      )
        ∷ [])
    × (r.requests ≡ registry.requests ++ request_of (λ url. url) paused ∷ [])
    × Finds r "interception-1"
    × (values reqid_header hs ≡ "interception-1" ∷ [])
    × (values "Accept" hs ≡ map interface_to_string (values "Accept" headers))
unfolding is_request_stage loading
paused-Registered_example =
    paused-Registered run 0 (λ url. url) paused loading registry "Accept" refl refl given not_reqid
