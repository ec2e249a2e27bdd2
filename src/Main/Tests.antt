-- ===== src/Main/Tests.antt =====
-- A start at which the log writer cannot be connected.
use veidemann_browser_contro.Prelude.{
  ℕ, ◌≡◌, refl, ◌⊎◌, inl, inr, true, String, Option, none, List, [], ◌∷◌, ◌++◌, str_eq, itoa,
  if◌then◌else◌,
}
use veidemann_browser_contro.Errors.{
  GoError, wraps_deadline, error_text, Code, other, deadline_exceeded,
}
use veidemann_browser_contro.Connections.Options.{
  DialOption, with_host, with_port, with_connect_timeout, with_dial_options, connection_options,
  connect_service,
}
use veidemann_browser_contro.Controller.Options.{
  with_listen_interface, with_listen_port, with_max_concurrent_sessions, with_session_options,
  new_controller,
}
use veidemann_browser_contro.Session.{
  with_browser_host, with_browser_port, with_proxy_host, with_proxy_port, apply_options,
  new_default_session,
}
use veidemann_browser_contro.Database.Session.{DbOptions}
use veidemann_browser_contro.Main.{
  controller_of, session_options, Service, content_writer, frontier, robots_evaluator, connected,
  closed, stopped, tracing_closed, fatal, default_flags, with_service, main,
}
use veidemann_browser_contro.Main.Closing.{
  gather, opens, closes, fails, backwards, errors_of, all_services, main-Closes,
}

abbrev no_status : Code → String → String
no_status c s = s

abbrev seconds : ℕ → String
seconds n = "10s"

abbrev dial : ℕ → String → List DialOption → GoError ⊎ Unit {0}
dial timeout address options =
    if str_eq address "veidemann-log-service:8080" then inl deadline_exceeded else inr tt

abbrev database_is_up : DbOptions → Option GoError
database_is_up options = none

-- A session of the controller that default flags make.
default_session :
    let o = controller_of default_flags in
    let s = new_default_session o.session_opts in
    (o.max_sessions ≡ 10) × (s.proxy_host ≡ "localhost") × (s.proxy_port ≡ 9900)
unfolding controller_of default_flags new_controller with_listen_interface with_listen_port
    with_max_concurrent_sessions with_session_options session_options new_default_session
    apply_options with_browser_host with_browser_port with_proxy_host with_proxy_port
default_session = (refl, refl, refl)

log_writer_down :
    main no_status seconds dial database_is_up none true default_flags
    ≡ connected content_writer
      ∷ connected frontier
      ∷ connected robots_evaluator
      ∷ closed robots_evaluator
      ∷ closed frontier
      ∷ closed content_writer
      ∷ tracing_closed
      ∷ stopped
      ∷ fatal (
          other
            "failed to connect to logWriter at veidemann-log-service:8080 within 10s: context deadline exceeded")
      ∷ []
unfolding main default_flags with_service connect_service connection_options with_port with_host
    itoa with_dial_options wraps_deadline with_connect_timeout error_text
log_writer_down = refl

main-Closes_example :
    let events = main no_status seconds dial database_is_up none true default_flags in
    (gather closes events ≡ backwards (gather opens events))
    × ((rest : List Service) × (gather opens events ++ rest ≡ all_services))
    × (((gather opens events ≡ all_services) × (gather fails events ≡ errors_of none))
        ⊎ ((e : GoError) × (gather fails events ≡ e ∷ [])))
unfolding default_flags
main-Closes_example = main-Closes no_status seconds dial database_is_up none true default_flags refl
