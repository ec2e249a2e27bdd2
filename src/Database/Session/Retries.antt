-- ===== src/Database/Session/Retries.antt =====
-- execWithRetry of database/database.go over the state of the connection.
use veidemann_browser_contro.Prelude.{
  ℕ, zero, suc, ◌+◌, ◌-◌, ◌≡◌, refl, ap, sym, ◌∙◌, Option, none, some, arith,
}
use veidemann_browser_contro.Database.Retry.{
  ExecResult, Recovery, wait, connect, recovery, Retried, turn, retry_from, exec_with_retry,
}
use veidemann_browser_contro.Database.Retry.Bounds.{Ends, exec_with_retry-Ends}
use veidemann_browser_contro.Database.Session.{
  RethinkDriver, State, exec, after_attempt, exec_from, recovered_by, connect_db, wait_db,
  exec_with_retry_db,
}

module _ {H W : Type 0} (d : RethinkDriver H W) {A : Type 0}
    (q : ℕ → Option H → W → ExecResult A × W) where
  -- The state in which the next attempt is made: the same, or after waiting for the database, or with
  -- the session of a new connection.
  unfoldable pub mended_state : Option Recovery → State d → State d
  mended_state none s = s
  mended_state (some wait) (c, w) =
      (c, (d.wait_for c.connect_opts.database c.wait_timeout c.session w).1)
  mended_state (some connect) (c, w) =
      let ((session, e), w') = d.connect_session c.connect_opts w in
      (record c { session = session }, w')

  -- What the attempts give, one after the other, each after the recovery from the one before.
  abbrev results : State d → ℕ → ExecResult A
  results s zero = (exec d q s).0
  results s (suc n) = results (mended_state (recovery (exec d q s).0) (exec d q s).1) n

  recovered-mended_state :
      (o : Option Recovery) (s : State d)
      → elim o [ none ↦ s | some x ↦ recovered_by d x s ] ≡ mended_state o s
  unfolding recovered_by connect_db wait_db mended_state
  recovered-mended_state none s = refl
  recovered-mended_state (some wait) s = refl
  recovered-mended_state (some connect) s = refl

  after_attempt_lem :
      (attempt : ExecResult A × State d)
      → after_attempt d q attempt ≡ mended_state (recovery attempt.0) attempt.1
  unfolding after_attempt
  after_attempt_lem (r, s) = recovered-mended_state (recovery r) s

  -- The same by the number of the attempt, from 1 on.
  abbrev pub attempts_of : State d → ℕ → ExecResult A
  attempts_of s n = results s (n - 1)

  exec_from-retry_from :
      (max_retries fuel attempts : ℕ) (s : State d) (e : ℕ → ExecResult A)
      → ((i j : ℕ) → j ≡ attempts + i → e (suc j) ≡ results s i)
      → (exec_from d q max_retries fuel attempts s).0 ≡ retry_from max_retries e fuel attempts
  unfolding exec_from retry_from
  exec_from-retry_from max_retries zero attempts s e h = refl
  exec_from-retry_from max_retries (suc fuel) attempts s e h =
      let rest =
        exec_from-retry_from max_retries fuel (suc attempts) (after_attempt d q (exec d q s)) e
          (λ i j p.
            h (suc i) j (omega arith)
            ∙ ap (λ next. results next i) (sym (after_attempt_lem (exec d q s)))) in
      ap (turn max_retries (suc attempts) (exec d q s).0) rest
      ∙ ap (λ r. turn max_retries (suc attempts) r (retry_from max_retries e fuel (suc attempts)))
          (sym (h 0 attempts (omega arith)))

  -- Whatever the driver does with the connection's session and the rest of the world, and whether Connect
  -- or wait fail between two attempts: execWithRetry ends after at most maxRetries + 1 attempts, each made
  -- in the state that the recovery before it left, and returns the result of the last one.
  pub exec_with_retry_db-Ends :
      (s : State d)
      → (r : Retried A) × ((exec_with_retry_db d q s).0 ≡ some r)
        × Ends s.0.max_retries (attempts_of s) 0 r
  unfolding exec_with_retry_db exec_with_retry
  exec_with_retry_db-Ends s =
      let (r, result, h) = exec_with_retry-Ends s.0.max_retries (attempts_of s) in
      let same =
        exec_from-retry_from s.0.max_retries (suc s.0.max_retries) 0 s (attempts_of s)
          (λ i j p. ap (results s) {x = suc j - 1} {y = i} (omega arith)) in
      (r, same ∙ result, h)
