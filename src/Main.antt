-- ===== src/Main.antt =====
-- main.go: the flags and their defaults, what is made from them, and the start and the end of the
-- program as the list of what happens.
mod Tests
pub mod Closing
use veidemann_browser_contro.Prelude.{
  ◌⊎◌, inl, inr, ℕ, ◌*◌, Bool, true, false, String, append_text, Option, none, some, List, [], ◌∷◌,
  ◌++◌, itoa,
}
use veidemann_browser_contro.Errors.{Go, ok, fail, panic, GoError, Code}
use veidemann_browser_contro.Connections.Options.{
  DialOption, trace_unary, trace_stream, ConnectionOptions, with_host, with_port, with_dial_options,
  with_connect_timeout, connection_options, connect_service,
}
use veidemann_browser_contro.Logger.{Logger, init_log}
use veidemann_browser_contro.Database.Session.{DbOptions}
use veidemann_browser_contro.Controller.Options.{
  ControllerOptions, with_listen_interface, with_listen_port, with_max_concurrent_sessions,
  with_session_options, new_controller,
}
use veidemann_browser_contro.Session.{
  SessionOption, with_browser_host, with_browser_port, with_proxy_host, with_proxy_port,
}

-- The flags; times in milliseconds.
pub record Flags : Type 0 where
  pub help : Bool
  pub interface_name : String
  pub port : ℕ
  pub proxy_count : ℕ
  pub browser_host : String
  pub browser_port : ℕ
  pub proxy_host : String
  pub proxy_port : ℕ
  pub content_writer_host : String
  pub content_writer_port : ℕ
  pub frontier_host : String
  pub frontier_port : ℕ
  pub log_service_host : String
  pub log_service_port : ℕ
  pub robots_evaluator_host : String
  pub robots_evaluator_port : ℕ
  pub connect_timeout : ℕ
  pub db_host : String
  pub db_port : ℕ
  pub db_name : String
  pub db_user : String
  pub db_password : String
  pub db_query_timeout : ℕ
  pub db_max_retries : ℕ
  pub db_max_open_conn : ℕ
  pub db_use_opentracing : Bool
  pub db_cache_ttl : ℕ
  pub metrics_interface : String
  pub metrics_port : ℕ
  pub metrics_path : String
  pub log_level : String
  pub log_formatter : String
  pub log_method : Bool

unfoldable pub default_flags : Flags
default_flags = record {
  help = false;
  interface_name = "";
  port = 8080;
  proxy_count = 10;
  browser_host = "localhost";
  browser_port = 3000;
  proxy_host = "localhost";
  proxy_port = 9900;
  content_writer_host = "veidemann-contentwriter";
  content_writer_port = 8082;
  frontier_host = "veidemann-frontier";
  frontier_port = 7700;
  log_service_host = "veidemann-log-service";
  log_service_port = 8080;
  robots_evaluator_host = "veidemann-robotsevaluator-service";
  robots_evaluator_port = 7053;
  connect_timeout = 10 * 1000;
  db_host = "rethinkdb-proxy";
  db_port = 28015;
  db_name = "veidemann";
  db_user = "";
  db_password = "";
  db_query_timeout = 60 * 1000;
  db_max_retries = 5;
  db_max_open_conn = 10;
  db_use_opentracing = false;
  db_cache_ttl = 5 * 60 * 1000;
  metrics_interface = "";
  metrics_port = 9153;
  metrics_path = "/metrics";
  log_level = "info";
  log_formatter = "logfmt";
  log_method = false;
}

-- What main connects to, in this order.
pub data Service : Type 0 where
  content_writer frontier robots_evaluator log_writer database : Service

-- The options of the gRPC services; the names are those that the constructors give.
content_writer_options : Flags → ConnectionOptions
content_writer_options f = connection_options "ContentWriter" (
    with_connect_timeout f.connect_timeout
    ∷ with_host f.content_writer_host
    ∷ with_port f.content_writer_port
    ∷ [])

frontier_options : Flags → ConnectionOptions
frontier_options f = connection_options "Frontier" (
    with_connect_timeout f.connect_timeout
    ∷ with_host f.frontier_host
    ∷ with_port f.frontier_port
    ∷ with_dial_options (trace_unary ∷ trace_stream ∷ [])
    ∷ [])

robots_evaluator_options : Flags → ConnectionOptions
robots_evaluator_options f = connection_options "RobotsEvaluator" (
    with_connect_timeout f.connect_timeout
    ∷ with_host f.robots_evaluator_host
    ∷ with_port f.robots_evaluator_port
    ∷ [])

log_writer_options : Flags → ConnectionOptions
log_writer_options f = connection_options "logWriter" (
    with_connect_timeout f.connect_timeout
    ∷ with_host f.log_service_host
    ∷ with_port f.log_service_port
    ∷ [])

unfoldable pub db_options : Flags → DbOptions
db_options f = record {
  username = f.db_user;
  password = f.db_password;
  database = f.db_name;
  use_opentracing = f.db_use_opentracing;
  address = append_text f.db_host (append_text ":" (itoa f.db_port));
  query_timeout = f.db_query_timeout;
  max_retries = f.db_max_retries;
  max_open_connections = f.db_max_open_conn;
}

unfoldable pub logger_of : Flags → Logger
logger_of f = init_log f.log_level f.log_formatter f.log_method

-- The options of the sessions, without those that hand over a client.
unfoldable pub session_options : Flags → List SessionOption
session_options f =
    with_browser_host f.browser_host
    ∷ with_browser_port f.browser_port
    ∷ with_proxy_host f.proxy_host
    ∷ with_proxy_port f.proxy_port
    ∷ []

-- The controller, without the options that hand over a client.
unfoldable pub controller_of : Flags → ControllerOptions
unfolding session_options new_controller
controller_of f = new_controller (
    with_listen_interface f.interface_name
    ∷ with_listen_port f.port
    ∷ with_max_concurrent_sessions f.proxy_count
    ∷ with_session_options (session_options f)
    ∷ [])

-- What happens until the process ends.
pub data Event : Type 0 where
  usage tracing_closed metrics_closed controller_ended stopped : Event
  connected closed : Service → Event
  fatal : GoError → Event

-- What happened, and the error of a panic.
abbrev pub Ended : Type 0
Ended = List Event × Option GoError

-- `if err := s.Connect(); err != nil { panic(err) }; defer s.Close()`, and what follows.
unfoldable pub with_service : Service → Option GoError → Ended → Ended
with_service s (some e) rest = ([], some e)
with_service s none (events, e) = (connected s ∷ (events ++ closed s ∷ []), e)

error_of : {A : Type 0} → GoError ⊎ A → Option GoError
error_of (inl e) = some e
error_of (inr c) = none

-- The deferred calls of the tracer, of the message and of the recovery.
unfoldable pub last_events : Bool → Option GoError → List Event
last_events true none = tracing_closed ∷ stopped ∷ []
last_events true (some e) = tracing_closed ∷ stopped ∷ fatal e ∷ []
last_events false none = stopped ∷ []
last_events false (some e) = stopped ∷ fatal e ∷ []

unfoldable pub finish : Bool → Ended → List Event
unfolding last_events
finish tracing (events, e) = events ++ last_events tracing e

module _ {C : Type 0} (status_text : Code → String → String) (duration_text : ℕ → String)
    (dial : ℕ → String → List DialOption → GoError ⊎ C) (db_connect : DbOptions → Option GoError)
    (run : Option GoError) (tracing : Bool) where
  connect_to : ConnectionOptions → Option GoError
  unfolding error_of
  connect_to o = error_of (connect_service status_text duration_text dial o)

  -- Run of the controller, with the metrics' server that is closed after it.
  run_controller : Ended
  run_controller = (controller_ended ∷ metrics_closed ∷ [], run)

  -- From the connections on.
  unfoldable pub connect_and_run : Flags → Ended
  unfolding connect_to run_controller content_writer_options frontier_options
      robots_evaluator_options log_writer_options db_options
  connect_and_run f = with_service content_writer (connect_to (content_writer_options f)) (
      with_service frontier (connect_to (frontier_options f)) (
        with_service robots_evaluator (connect_to (robots_evaluator_options f)) (
          with_service log_writer (connect_to (log_writer_options f))
            (with_service database (db_connect (db_options f)) run_controller))))

  -- main, once the flags are parsed.
  unfoldable pub main : Flags → List Event
  unfolding connect_and_run finish
  main f = elim f.help [ true ↦ usage ∷ [] | false ↦ finish tracing (connect_and_run f) ]
