-- ===== src/Connections/Clients/Calls.antt =====
-- What can be done with a client once it is connected, or could not be.
use veidemann_browser_contro.Prelude.{
  ◌⊎◌, inl, inr, ⊎-cases, ◌≡◌, refl, ℕ, String, Option, none, some, List,
}
use veidemann_browser_contro.Errors.{Go, GoError, Code}
use veidemann_browser_contro.Connections.{close}
use veidemann_browser_contro.Connections.Options.{DialOption, connect_service}
use veidemann_browser_contro.Connections.Clients.{
  Client, connect, connect_conn, close_client, get_next_page,
}

module _ {C Stub Page : Type 0} (status_text : Code → String → String) (duration_text : ℕ → String)
    (dial : ℕ → String → List DialOption → GoError ⊎ C) (new_stub : C → Stub)
    (close_conn : C → Option GoError) (call : Stub → Go Page) where
  -- Connect returns no error exactly if the service could be dialled; then a call goes to the stub that
  -- was made on the new connection, and Close closes this connection. Else Connect returns the error,
  -- Close has nothing to close and returns nil, and a call panics unless there was a stub before.
  pub connect-call :
      (c : Client C Stub)
      → let (e, c') = connect status_text duration_text dial new_stub c in
        ((conn : C) × (connect_service status_text duration_text dial c.opts ≡ inr conn)
          × (e ≡ none)
          × (get_next_page call c' ≡ call (new_stub conn))
          × (close_client close_conn c' ≡ close c.opts.service_name (some (close_conn conn))))
        ⊎ ((x : GoError) × (connect_service status_text duration_text dial c.opts ≡ inl x)
            × (e ≡ some x)
            × (close_client close_conn c' ≡ none)
            × (get_next_page call c' ≡ get_next_page call c))
  unfolding connect connect_conn get_next_page close_client close
  connect-call c = elim (⊎-cases (connect_service status_text duration_text dial c.opts)) [
    | inl (x, e) ↦ inr (
      x,
      e,
      rw (e, connect, connect_conn) refl,
      rw (e, connect, connect_conn) refl,
      rw (e, connect, connect_conn) refl,
    )
    | inr (conn, e) ↦ inl (
      conn,
      e,
      rw (e, connect, connect_conn) refl,
      rw (e, connect, connect_conn) refl,
      rw (e, connect, connect_conn) refl,
    )
  ]
