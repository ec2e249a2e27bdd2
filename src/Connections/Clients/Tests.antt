-- ===== src/Connections/Clients/Tests.antt =====
-- The frontier's client, where the service can be dialled.
use veidemann_browser_contro.Prelude.{◌⊎◌, inl, inr, ◌≡◌, ℕ, String, Option, none, some, List, []}
use veidemann_browser_contro.Errors.{ok, GoError, Code}
use veidemann_browser_contro.Connections.{close}
use veidemann_browser_contro.Connections.Options.{DialOption, connect_service}
use veidemann_browser_contro.Connections.Clients.{
  Client, new_frontier, connect, close_client, get_next_page,
}
use veidemann_browser_contro.Connections.Clients.Calls.{connect-call}

abbrev no_status : Code → String → String
no_status c s = s

abbrev seconds : ℕ → String
seconds n = "10s"

abbrev dial : ℕ → String → List DialOption → GoError ⊎ ℕ
dial timeout address options = inr 7

abbrev close_conn : ℕ → Option GoError
close_conn conn = none

abbrev client : Client ℕ ℕ
client = new_frontier []

frontier_connected :
    let (e, c') = connect no_status seconds dial (λ n. n) client in
    ((conn : ℕ) × (connect_service no_status seconds dial client.opts ≡ inr conn)
      × (e ≡ none)
      × (get_next_page ok c' ≡ ok conn)
      × (close_client close_conn c' ≡ close client.opts.service_name (some (close_conn conn))))
    ⊎ ((x : GoError) × (connect_service no_status seconds dial client.opts ≡ inl x)
        × (e ≡ some x)
        × (close_client close_conn c' ≡ none)
        × (get_next_page ok c' ≡ get_next_page ok client))
frontier_connected = connect-call no_status seconds dial (λ n. n) close_conn ok client
