-- ===== src/Session/Create.antt =====
-- New of session/session.go. A parsed URL and its query, whose code is the URL library's, are
-- parameters.
mod Tests
pub mod Pool
use veidemann_browser_contro.Prelude.{
  ℕ, ◌+◌, ◌≡◌, refl, String, append_text, List, str_eq, itoa, if◌then◌else◌,
}
use veidemann_browser_contro.Errors.{Go, ok, fail, panic, Go-cases, ◌>>=◌}
use veidemann_browser_contro.Session.{Session, SessionOption, new_default_session}

-- `http://host:port` and the like.
address : String → String → ℕ → String
address scheme host port =
    append_text scheme (append_text "://" (append_text host (append_text ":" (itoa port))))

module _ {Url : Type 0} (parse : String → Go Url)
    (set_param append_param : String → String → Url → Url) (url_text : Url → String) where
  -- The query of the address of the browser.
  add_query : Session → Url → Url
  unfolding address
  add_query s ws =
      let proxied : Url =
        if str_eq s.proxy_host ""
        then ws
        else set_param "--proxy-server" (address "http" s.proxy_host (s.proxy_port + s.id)) ws in
      append_param "trackingId" (itoa s.id) (
        append_param "timeout" (itoa s.browser_timeout)
          (append_param "headless" "true" (append_param "--ignore-certificate-errors" "" proxied)))

  with_workspace : Session → Go Session
  unfolding address
  with_workspace s =
      parse (append_text (address "http" s.browser_host s.browser_port) "/workspace") >>= λ work.
      ok (record s { workspace_endpoint = url_text work })

  with_endpoints : Session → Go Session
  unfolding address add_query with_workspace
  with_endpoints s = parse (address "ws" s.browser_host s.browser_port) >>= λ ws.
      with_workspace (record s { browser_ws_endpoint = url_text (add_query s ws) })

  -- New
  unfoldable pub new_session : List SessionOption → ℕ → Go Session
  unfolding with_endpoints
  new_session opts session_id =
      with_endpoints (record (new_default_session opts) { id = session_id })
