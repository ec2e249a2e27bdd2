-- ===== src/Database/Session.antt =====
-- The connection of database/database.go, with the driver's session that it keeps: the options, Connect,
-- Close, wait, exec, and execWithRetry over this state. The calls of the driver are parameters over the rest of the world; times in milliseconds.
mod Tests
pub mod Retries
use mathlib.Core.Option
use veidemann_browser_contro.Prelude.{
  ℕ, zero, suc, ◌*◌, String, append_text, Bool, Option, none, some, ltb, if◌then◌else◌,
}
use veidemann_browser_contro.Errors.{Go, GoError, wrap}
use veidemann_browser_contro.Database.Retry.{
  ExecResult, Recovery, wait, connect, recovery, Retried, turn,
}

-- Options
pub record DbOptions : Type 0 where
  pub username : String
  pub password : String
  pub database : String
  pub use_opentracing : Bool
  pub address : String
  pub query_timeout : ℕ
  pub max_retries : ℕ
  pub max_open_connections : ℕ

-- r.ConnectOpts
pub record ConnectOpts : Type 0 where
  pub address : String
  pub username : String
  pub password : String
  pub database : String
  pub initial_cap : ℕ
  pub max_open : ℕ
  pub use_opentracing : Bool
  pub num_retries : ℕ
  pub timeout : ℕ

-- RethinkDbConnection, whose field maxOpenConnections is never set.
pub record RethinkDbConnection (H : Type 0) : Type 0 where
  pub connect_opts : ConnectOpts
  pub session : Option H
  pub max_retries : ℕ
  pub wait_timeout : ℕ
  pub query_timeout : ℕ
  pub batch_size : ℕ

unfoldable pub new_rethink_db_connection : {H : Type 0} → DbOptions → RethinkDbConnection H
new_rethink_db_connection opts = record {
  connect_opts = record {
    address = opts.address;
    username = opts.username;
    password = opts.password;
    database = opts.database;
    initial_cap = 2;
    max_open = opts.max_open_connections;
    use_opentracing = opts.use_opentracing;
    num_retries = 10;
    timeout = 10 * 1000;
  };
  session = none;
  max_retries = opts.max_retries;
  wait_timeout = 60 * 1000;
  query_timeout = opts.query_timeout;
  batch_size = 200;
}

-- The calls of the driver. r.Connect gives a session, which may be nil, with an error or none.
pub record RethinkDriver (H W : Type 0) : Type 0 where
  pub connect_session : ConnectOpts → W → (Option H × Option GoError) × W
  pub close_session : Option H → W → Go (Option GoError) × W
  -- r.DB(name).Wait with its time-out
  pub wait_for : String → ℕ → Option H → W → Option GoError × W

module _ {H W : Type 0} (d : RethinkDriver H W) where
  -- The connection and the rest of the world.
  abbrev pub State : Type 0
  State = RethinkDbConnection H × W

  -- Connect, which writes the session of a failure too.
  unfoldable pub connect_db : State → Option GoError × State
  connect_db (c, w) =
      let ((session, e), w') = d.connect_session c.connect_opts w in
      (
        Option.map (wrap (append_text "failed to connect to RethinkDB at " c.connect_opts.address))
            e,
        (record c { session = session }, w'),
      )

  -- Close
  unfoldable pub close_db : State → Go (Option GoError) × State
  close_db (c, w) = let (r, w') = d.close_session c.session w in (r, (c, w'))

  -- wait
  unfoldable pub wait_db : State → Option GoError × State
  wait_db (c, w) =
      let (e, w') = d.wait_for c.connect_opts.database c.wait_timeout c.session w in (e, (c, w'))

  -- What the switch of execWithRetry does after an error; its own error is only logged.
  unfoldable pub recovered_by : Recovery → State → State
  unfolding connect_db wait_db
  recovered_by wait s = (wait_db s).1
  recovered_by connect s = (connect_db s).1

  module _ {A : Type 0} (q : ℕ → Option H → W → ExecResult A × W) where
    -- exec: the query with the time-out of the connection.
    unfoldable pub exec : State → ExecResult A × State
    exec (c, w) = let (r, w') = q c.query_timeout c.session w in (r, (c, w'))

    -- The state after an attempt and the recovery from its error, if there is one.
    unfoldable pub after_attempt : ExecResult A × State → State
    unfolding recovered_by
    after_attempt (r, s) = elim (recovery r) [ none ↦ s | some x ↦ recovered_by x s ]

    -- The state at the end, by the state after this attempt and that after all.
    end_state : ℕ → ℕ → ExecResult A → State → State → State
    end_state max_retries attempts r s last = elim (recovery r) [
      | none ↦ s
      | some x ↦ if ltb max_retries attempts then s else last
    ]

    -- The loop of execWithRetry after some attempts; none means that the fuel ran out.
    unfoldable pub exec_from : ℕ → ℕ → ℕ → State → Option (Retried A) × State
    unfolding exec after_attempt end_state
    exec_from max_retries zero attempts s = (none, s)
    exec_from max_retries (suc fuel) attempts s =
        let attempt = exec s in
        let s' = after_attempt attempt in
        let (rest, last) = exec_from max_retries fuel (suc attempts) s' in
        (
          turn max_retries (suc attempts) attempt.0 rest,
          end_state max_retries (suc attempts) attempt.0 s' last,
        )

    -- execWithRetry
    unfoldable pub exec_with_retry_db : State → Option (Retried A) × State
    unfolding exec_from
    exec_with_retry_db s = exec_from s.0.max_retries (suc s.0.max_retries) 0 s
