-- ===== src/Database/Session/Tests.antt =====
-- A database whose connection is closed at first, and can be opened again.
use veidemann_browser_contro.Prelude.{ℕ, ◌+◌, ◌≡◌, refl, String, false, Option, none, some, [], ◌∷◌}
use veidemann_browser_contro.Errors.{ok}
use veidemann_browser_contro.Database.Retry.{
  ExecResult, success, connection_closed, connect, Retried, found, turn, recovery,
}
use veidemann_browser_contro.Database.Retry.Bounds.{Ends}
use veidemann_browser_contro.Database.Session.{
  DbOptions, RethinkDriver, State, new_rethink_db_connection, exec_with_retry_db,
}
use veidemann_browser_contro.Database.Session.Retries.{attempts_of, exec_with_retry_db-Ends}

-- A session is a number; the world counts the calls of Connect.
abbrev driver : RethinkDriver ℕ ℕ
driver = record {
  connect_session = λ opts w. ((some 7, none), w + 1);
  close_session = λ session w. (ok none, w);
  wait_for = λ name timeout session w. (none, w);
}

abbrev query : ℕ → Option ℕ → ℕ → ExecResult String × ℕ
query timeout none w = (connection_closed, w)
query timeout (some session) w = (success "row", w)

abbrev options : DbOptions
options = record {
  username = "";
  password = "";
  database = "veidemann";
  use_opentracing = false;
  address = "db:28015";
  query_timeout = 1000;
  max_retries = 2;
  max_open_connections = 10;
}

abbrev start : State driver
start = (new_rethink_db_connection options, 0)

connected_again :
    (exec_with_retry_db driver query start).0
    ≡ some (record { outcome = found "row"; recoveries = connect ∷ [] })
unfolding exec_with_retry_db new_rethink_db_connection turn recovery
connected_again = refl

exec_with_retry_db-Ends_example :
    (r : Retried String) × ((exec_with_retry_db driver query start).0 ≡ some r)
    × Ends start.0.max_retries (attempts_of driver query start) 0 r
exec_with_retry_db-Ends_example = exec_with_retry_db-Ends driver query start
