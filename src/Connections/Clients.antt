-- ===== src/Connections/Clients.antt =====
-- The clients of the services: New, Connect and Close of serviceconnections/connect.go, and of the
-- clients that embed its connection (frontier/frontier.go, robotsevaluator/robotsevaluator.go,
-- screenshotwriter/screenshotwriter.go, logwriter/logwriter.go); and GetNextPage of the frontier.
pub mod Calls
mod Tests
use mathlib.Core.Option
use veidemann_browser_contro.Prelude.{◌⊎◌, inl, inr, ℕ, String, Option, none, some, List}
use veidemann_browser_contro.Errors.{Go, ok, fail, panic, GoError, Code}
use veidemann_browser_contro.Connections.{close}
use veidemann_browser_contro.Connections.Options.{
  DialOption, ConnectionOptions, ConnectionOption, connection_options, connect_service,
}

-- A client with its connection, and the stub that gRPC makes on this; nil is none.
pub record Client (C Stub : Type 0) : Type 0 where
  pub opts : ConnectionOptions
  pub conn : Option C
  pub stub : Option Stub

module _ {C Stub : Type 0} where
  -- NewClientConn
  unfoldable pub new_client : String → List ConnectionOption → Client C Stub
  new_client service_name opts = record {
    opts = connection_options service_name opts;
    conn = none;
    stub = none;
  }

  -- New of the four clients.
  abbrev pub new_frontier : List ConnectionOption → Client C Stub
  new_frontier = new_client "Frontier"

  abbrev pub new_robots_evaluator : List ConnectionOption → Client C Stub
  new_robots_evaluator = new_client "RobotsEvaluator"

  abbrev pub new_screenshot_writer : List ConnectionOption → Client C Stub
  new_screenshot_writer = new_client "ContentWriter"

  abbrev pub new_log_writer : List ConnectionOption → Client C Stub
  new_log_writer = new_client "logWriter"

  -- Connection
  unfoldable pub connection : Client C Stub → Option C
  connection c = c.conn

  with_stub : (C → Stub) → Option GoError × Client C Stub → Option GoError × Client C Stub
  with_stub new_stub (some e, c) = (some e, c)
  with_stub new_stub (none, c) = (none, record c { stub = Option.map new_stub c.conn })

  module _ (status_text : Code → String → String) (duration_text : ℕ → String)
      (dial : ℕ → String → List DialOption → GoError ⊎ C) where
    -- Connect of ClientConn, which writes the connection of a failure, nil, too.
    unfoldable pub connect_conn : Client C Stub → Option GoError × Client C Stub
    connect_conn c = elim (connect_service status_text duration_text dial c.opts) [
      | inl e ↦ (some e, record c { conn = none })
      | inr conn ↦ (none, record c { conn = some conn })
    ]

    -- Connect of a client.
    unfoldable pub connect : (C → Stub) → Client C Stub → Option GoError × Client C Stub
    unfolding connect_conn with_stub
    connect new_stub c = with_stub new_stub (connect_conn c)

    -- Connect of the four clients.
    abbrev pub connect_frontier : (C → Stub) → Client C Stub → Option GoError × Client C Stub
    connect_frontier = connect

    abbrev pub connect_robots_evaluator :
        (C → Stub) → Client C Stub → Option GoError × Client C Stub
    connect_robots_evaluator = connect

    abbrev pub connect_screenshot_writer :
        (C → Stub) → Client C Stub → Option GoError × Client C Stub
    connect_screenshot_writer = connect

    abbrev pub connect_log_writer : (C → Stub) → Client C Stub → Option GoError × Client C Stub
    connect_log_writer = connect

  -- Close; the connection's own Close is an argument.
  unfoldable pub close_client : (C → Option GoError) → Client C Stub → Option GoError
  close_client close_conn c = close c.opts.service_name (Option.map close_conn c.conn)

-- A call on the stub; on nil it panics.
unfoldable pub call_stub : {C Stub A : Type 0} → (Stub → Go A) → Client C Stub → Go A
call_stub f c = elim c.stub [ none ↦ panic | some stub ↦ f stub ]

-- GetNextPage of the frontier
unfoldable pub get_next_page : {C Stub Page : Type 0} → (Stub → Go Page) → Client C Stub → Go Page
unfolding call_stub
get_next_page call c = call_stub call c
