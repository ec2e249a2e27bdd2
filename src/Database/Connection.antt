-- ===== src/Database/Connection.antt =====
-- database/database.go: the two reads of config objects. What the driver gives for an attempt at a
-- query, and what its cursors hold, are arguments.
mod Tests
pub mod Answers
use veidemann_browser_contro.Prelude.{
  ℕ, ◌+◌, String, append_text, Option, none, some, List, [], ◌∷◌, itoa,
}
use veidemann_browser_contro.Errors.{Go, ok, fail, panic, GoError, wrap, ◌>>=◌}
use veidemann_browser_contro.Config.{ConfigRef, ConfigObject}
use veidemann_browser_contro.Database.ConfigCache.{Label, DbAdapter}
use veidemann_browser_contro.Database.Retry.{
  ExecResult, success, query_timeout, connection_closed, another_error, Outcome, found, failed,
  Retried, exec_with_retry,
}

-- The terms that are executed.
pub data Query : Type 0 where
  -- r.Table("config").Get(id)
  get_by_id : String → Query
  -- r.Table("config").GetAllByIndex("label", [key, value]), with the rows of this kind
  get_all_by_label : String → String → String → Query

-- What the program reads of a cursor: One; the objects that Next gives, and Err after them.
pub record Cursor : Type 0 where
  pub one : Go ConfigObject
  pub rows : List ConfigObject
  pub err : Option GoError

-- r.ErrQueryTimeout and r.ErrConnectionClosed, by their texts, and what the driver gives by the
-- number of the attempt.
pub record Driver : Type 0 where
  pub timeout_error : GoError
  pub closed_error : GoError
  pub run : Query → ℕ → ExecResult Cursor

-- The error of an attempt.
unfoldable pub exec_error : Driver → ExecResult Cursor → Option GoError
exec_error d (success c) = none
exec_error d query_timeout = some d.timeout_error
exec_error d connection_closed = some d.closed_error
exec_error d (another_error e) = some e

unfoldable pub failed_after : String → ℕ → ℕ → String
failed_after name attempts max_retries = append_text "failed to " (
    append_text name (
      append_text " after " (
        append_text (itoa attempts)
          (append_text " of " (append_text (itoa (max_retries + 1)) " attempts")))))

-- What execWithRetry returns.
unfoldable pub returned : Driver → ℕ → String → Outcome Cursor → Go Cursor
unfolding exec_error failed_after
returned d max_retries name (found c) = ok c
returned d max_retries name (failed attempts r) = elim (exec_error d r) [
  | some e ↦ fail (wrap (failed_after name attempts max_retries) e)
  | none ↦ panic
]

-- execRead; no result would mean that the fuel of execWithRetry ran out.
unfoldable pub exec_read : Driver → ℕ → String → Query → Option (Go Cursor)
unfolding returned
exec_read d max_retries name q = elim (exec_with_retry max_retries (d.run q)) [
  | none ↦ none
  | some r ↦ some (returned d max_retries name r.outcome)
]

unfoldable pub all_rows : Cursor → Go (Option (List ConfigObject))
all_rows c = elim c.err [
  | some e ↦ fail e
  | none ↦ elim c.rows [ [] ↦ ok none | x ∷ xs ↦ ok (some (x ∷ xs)) ]
]

unfoldable pub read : {A : Type 0} → (Cursor → Go A) → Option (Go Cursor) → Option (Go A)
read f none = none
read f (some r) = some (r >>= f)

-- GetConfigObject
unfoldable pub get_config_object : Driver → ℕ → ConfigRef → Option (Go ConfigObject)
unfolding exec_read read
get_config_object d max_retries ref =
    read (λ c. c.one) (exec_read d max_retries "get-config-object" (get_by_id ref.id))

-- GetConfigsForSelector, for the kind browserScript.
unfoldable pub get_configs_for_selector :
    Driver → ℕ → Label → Option (Go (Option (List ConfigObject)))
unfolding exec_read read all_rows
get_configs_for_selector d max_retries label = read all_rows (
    exec_read d max_retries "get-configs-by-label"
      (get_all_by_label label.key label.value "browserScript"))
