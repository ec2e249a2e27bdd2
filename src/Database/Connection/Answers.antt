-- ===== src/Database/Connection/Answers.antt =====
-- What the two reads of database/database.go return, for every driver.
use veidemann_browser_contro.Prelude.{
  ℕ, ◌+◌, ◌<◌, ◌≤◌, ◌≡◌, ◌⊎◌, inl, inr, refl, ap, String, Option, none, some,
}
use veidemann_browser_contro.Errors.{Go, fail, GoError, wrap}
use veidemann_browser_contro.Config.{ConfigRef}
use veidemann_browser_contro.Database.ConfigCache.{Label}
use veidemann_browser_contro.Database.Retry.{
  ExecResult, success, query_timeout, connection_closed, another_error, recovery, last_outcome,
}
use veidemann_browser_contro.Database.Retry.Bounds.{IsRetryable, exec_with_retry-Ends}
use veidemann_browser_contro.Database.Connection.{
  Query, get_by_id, get_all_by_label, Cursor, Driver, exec_error, failed_after, returned, exec_read,
  all_rows, read, get_config_object, get_configs_for_selector,
}

-- Attempt k was the last one, and all before it gave errors that a recovery may mend. Either it was a
-- success, and its cursor makes the result; or it gave an error, which the result wraps, and which
-- nothing mends unless this was the last attempt allowed.
pub record Answer {A : Type 0} (d : Driver) (max_retries : ℕ) (name : String) (q : Query)
    (f : Cursor → Go A) (r : Option (Go A)) : Type 0 where
  pub k : ℕ
  pub after : 0 < k
  pub bounded : k ≤ max_retries + 1
  pub mended : (j : ℕ) → 0 < j → j < k → IsRetryable (d.run q j)
  pub result :
      ((c : Cursor) × (d.run q k ≡ success c) × (r ≡ some (f c)))
      ⊎ ((e : GoError) × (exec_error d (d.run q k) ≡ some e)
          × (r ≡ some (fail (wrap (failed_after name k max_retries) e)))
          × ((recovery (d.run q k) ≡ none) ⊎ (k ≡ max_retries + 1)))

last_result :
    {A : Type 0} (d : Driver) (max_retries k : ℕ) (name : String) (f : Cursor → Go A)
    (x : ExecResult Cursor)
    → (recovery x ≡ none) ⊎ (k ≡ max_retries + 1)
    → let r = read f (some (returned d max_retries name (last_outcome k x))) in
      ((c : Cursor) × (x ≡ success c) × (r ≡ some (f c)))
      ⊎ ((e : GoError) × (exec_error d x ≡ some e)
          × (r ≡ some (fail (wrap (failed_after name k max_retries) e)))
          × ((recovery x ≡ none) ⊎ (k ≡ max_retries + 1)))
unfolding returned exec_error read
last_result d max_retries k name f (success c) w = inl (c, refl, refl)
last_result d max_retries k name f query_timeout w = inr (d.timeout_error, refl, refl, w)
last_result d max_retries k name f connection_closed w = inr (d.closed_error, refl, refl, w)
last_result d max_retries k name f (another_error e) w = inr (e, refl, refl, w)

exec_read-Answer :
    {A : Type 0} (d : Driver) (max_retries : ℕ) (name : String) (q : Query) (f : Cursor → Go A)
    → Answer d max_retries name q f (read f (exec_read d max_retries name q))
unfolding exec_read
exec_read-Answer d max_retries name q f =
    let (r, result, h) = exec_with_retry-Ends max_retries (d.run q) in
    let why : (recovery (d.run q h.attempts) ≡ none) ⊎ (h.attempts ≡ max_retries + 1) =
      elim h.reason [ inl (n, c) ↦ inl n | inr (m, k, c) ↦ inr k ] in
    let same : exec_read d max_retries name q
        ≡ some (returned d max_retries name (last_outcome h.attempts (d.run q h.attempts))) =
      rw (result, exec_read) (ap (λ o. some (returned d max_retries name o)) h.outcome_last) in
    rw same (record {
      k = h.attempts;
      after = h.after;
      bounded = h.bounded;
      mended = h.mended;
      result = last_result d max_retries h.attempts name f (d.run q h.attempts) why;
    })

-- Both reads of config objects return, after at most maxRetries + 1 attempts at their query, of which
-- all but the last gave errors that a recovery may mend. If the last attempt is a success, the result
-- is what its cursor holds; else it is the error of the last attempt, wrapped with the number of
-- attempts, and either nothing mends that error or no attempt was left.
pub reads-Answer :
    (d : Driver) (max_retries : ℕ) (ref : ConfigRef) (label : Label)
    → Answer d max_retries "get-config-object"
        (get_by_id ref.id)
        (λ c. c.one)
        (get_config_object d max_retries ref)
      × Answer d max_retries "get-configs-by-label"
          (get_all_by_label label.key label.value "browserScript")
          all_rows
          (get_configs_for_selector d max_retries label)
unfolding get_config_object get_configs_for_selector
reads-Answer d max_retries ref label = (
  exec_read-Answer d max_retries "get-config-object" (get_by_id ref.id) (λ c. c.one),
  exec_read-Answer d max_retries "get-configs-by-label"
      (get_all_by_label label.key label.value "browserScript") all_rows,
)
