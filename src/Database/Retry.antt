-- ===== src/Database/Retry.antt =====
-- database/database.go: a query is executed again after the errors that a wait or a new connection
-- may mend. What an attempt gives is an argument, by the number of the attempt.
pub mod Bounds
use veidemann_browser_contro.Prelude.{
  ℕ, zero, suc, ◌+◌, Option, none, some, List, [], ◌∷◌, ltb, if◌then◌else◌,
}
use veidemann_browser_contro.Errors.{GoError}

-- The result of exec; the errors of the driver that the switch tells apart.
pub data ExecResult (A : Type 0) : Type 0 where
  success : A → ExecResult A
  query_timeout connection_closed : ExecResult A
  another_error : GoError → ExecResult A

-- What is tried before the next attempt; a failure of it is only logged.
pub data Recovery : Type 0 where
  wait connect : Recovery

pub data Outcome (A : Type 0) : Type 0 where
  found : A → Outcome A
  -- the attempts made, and what the last one gave
  failed : ℕ → ExecResult A → Outcome A

pub record Retried (A : Type 0) : Type 0 where
  pub outcome : Outcome A
  pub recoveries : List Recovery

module _ {A : Type 0} where
  -- The switch: none leaves the loop, after a success too.
  unfoldable pub recovery : ExecResult A → Option Recovery
  recovery query_timeout = some wait
  recovery connection_closed = some connect
  recovery _ = none

  -- What is returned when the last attempt gave this.
  abbrev pub last_outcome : ℕ → ExecResult A → Outcome A
  last_outcome attempts (success a) = found a
  last_outcome attempts r = failed attempts r

  unfoldable pub also : Recovery → Option (Retried A) → Option (Retried A)
  also x none = none
  also x (some r) = some (record r { recoveries = x ∷ r.recoveries })

  -- One turn of the loop, after the attempt with number `attempts`.
  unfoldable pub turn : ℕ → ℕ → ExecResult A → Option (Retried A) → Option (Retried A)
  unfolding also
  turn max_retries attempts r rest =
      let stop = some (record { outcome = last_outcome attempts r; recoveries = [] }) in
      elim (recovery r) [
        | none ↦ stop
        | some x ↦ also x (if ltb max_retries attempts then stop else rest)
      ]

  -- The loop of execWithRetry after some attempts; none means that the fuel ran out.
  unfoldable pub retry_from : ℕ → (ℕ → ExecResult A) → ℕ → ℕ → Option (Retried A)
  unfolding turn
  retry_from max_retries exec zero attempts = none
  retry_from max_retries exec (suc fuel) attempts =
      let rest = retry_from max_retries exec fuel (suc attempts) in
      turn max_retries (suc attempts) (exec (suc attempts)) rest

  -- execWithRetry; a turn of the loop makes an attempt, and there are at most maxRetries + 1.
  unfoldable pub exec_with_retry : ℕ → (ℕ → ExecResult A) → Option (Retried A)
  unfolding retry_from
  exec_with_retry max_retries exec = retry_from max_retries exec (suc max_retries) 0
