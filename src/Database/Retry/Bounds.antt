-- ===== src/Database/Retry/Bounds.antt =====
-- How often database/database.go executes a query, and what it returns.
use veidemann_browser_contro.Prelude.{
  true, false, length, subst, dec_lt, Option-cases, ℕ, zero, suc, ◌+◌, ◌≤◌, ◌<◌, ◌≡◌, refl, ◌⊎◌,
  inl, inr, Option, none, some, [], ◌∷◌, arith, ltb,
}
use veidemann_browser_contro.Database.Retry.{
  ExecResult, Recovery, Retried, recovery, last_outcome, turn, retry_from, exec_with_retry,
}

module _ {A : Type 0} where
  -- The error is one that a recovery may mend.
  abbrev pub IsRetryable : ExecResult A → Type 0
  IsRetryable r = (x : Recovery) × (recovery r ≡ some x)

  -- The loop ends with an attempt k, after attempts that could all be mended: either attempt k was a
  -- success or could not be mended, or it was the last one allowed.
  pub record Ends (max_retries : ℕ) (exec : ℕ → ExecResult A) (done : ℕ) (r : Retried A)
      : Type 0 where
    pub attempts : ℕ
    pub after : done < attempts
    pub bounded : attempts ≤ max_retries + 1
    pub mended : (j : ℕ) → done < j → j < attempts → IsRetryable (exec j)
    pub outcome_last : r.outcome ≡ last_outcome attempts (exec attempts)
    pub reason :
        ((recovery (exec attempts) ≡ none) × (length r.recoveries + done + 1 ≡ attempts))
        ⊎ (IsRetryable (exec attempts)
            × (attempts ≡ max_retries + 1)
            × (length r.recoveries + done ≡ attempts))

  abbrev pub Result : ℕ → (ℕ → ExecResult A) → ℕ → Option (Retried A) → Type 0
  Result max_retries exec done o = (r : Retried A) × (o ≡ some r) × Ends max_retries exec done r

  final_Ends :
      (max_retries done : ℕ) (exec : ℕ → ExecResult A)
      → recovery (exec (suc done)) ≡ none
      → done ≤ max_retries
      → Ends max_retries exec done
          (record { outcome = last_outcome (suc done) (exec (suc done)); recoveries = [] })
  final_Ends max_retries done exec e le = record {
    attempts = suc done;
    after = omega arith;
    bounded = omega arith;
    mended = λ j p q. absurd (omega arith);
    outcome_last = refl;
    reason = inl (e, omega arith);
  }

  spent_Ends :
      (max_retries done : ℕ) (exec : ℕ → ExecResult A) (x : Recovery)
      → recovery (exec (suc done)) ≡ some x
      → done ≡ max_retries
      → Ends max_retries exec done
          (record { outcome = last_outcome (suc done) (exec (suc done)); recoveries = x ∷ [] })
  spent_Ends max_retries done exec x e d = record {
    attempts = suc done;
    after = omega arith;
    bounded = omega arith;
    mended = λ j p q. absurd (omega arith);
    outcome_last = refl;
    reason = inr ((x, e), omega arith, omega arith);
  }

  mended_at :
      (exec : ℕ → ExecResult A) (done j : ℕ)
      → IsRetryable (exec (suc done))
      → done < j
      → (suc done < j → IsRetryable (exec j))
      → IsRetryable (exec j)
  mended_at exec done j h p later = elim (dec_lt (suc done) j) [
    | yes q ↦ later q
    | no q ↦ subst (λ k. IsRetryable (exec k)) {x = suc done} {y = j} (omega arith) h
  ]

  mended_Ends :
      (max_retries done : ℕ) (exec : ℕ → ExecResult A) (x : Recovery) (r : Retried A)
      → recovery (exec (suc done)) ≡ some x
      → Ends max_retries exec (suc done) r
      → Ends max_retries exec done (record r { recoveries = x ∷ r.recoveries })
  mended_Ends max_retries done exec x r e h = record {
    attempts = h.attempts;
    after = omega arith;
    bounded = h.bounded;
    mended = λ j p q. mended_at exec done j (x, e) p (λ p'. h.mended j p' q);
    outcome_last = h.outcome_last;
    reason = elim h.reason [
      | inl (n, c) ↦ inl (n, omega arith)
      | inr (m, k, c) ↦ inr (m, k, omega arith)
    ];
  }

  retry_from-Ends :
      (max_retries : ℕ) (exec : ℕ → ExecResult A) (fuel done : ℕ)
      → done + suc fuel ≡ max_retries + 1
      → Result max_retries exec done (retry_from max_retries exec (suc fuel) done)
  unfolding retry_from
  retry_from-Ends max_retries exec zero done h = elim (Option-cases (recovery (exec (suc done)))) [
    | inl e ↦ (_, rw (e, turn), final_Ends max_retries done exec e (omega arith))
    | inr (x, e) ↦
        let last : ltb max_retries (suc done) ≡ true = ground arith in
        (_, rw (e, turn) (rw last refl), spent_Ends max_retries done exec x e (omega arith))
  ]
  retry_from-Ends max_retries exec (suc fuel) done h =
      elim (Option-cases (recovery (exec (suc done)))) [
        | inl e ↦ (_, rw (e, turn), final_Ends max_retries done exec e (omega arith))
        | inr (x, e) ↦
            let more : ltb max_retries (suc done) ≡ false = ground arith in
            let (r, result, ends) =
              retry_from-Ends max_retries exec fuel (suc done) (omega arith) in
            (
              _,
              rw (e, turn) (rw more (rw result refl)),
              mended_Ends max_retries done exec x r e ends,
            )
      ]

-- execWithRetry always ends, after k attempts with 1 ≤ k ≤ maxRetries + 1: all before attempt k gave
-- errors that a recovery may mend, and the result is that of attempt k. Either attempt k was a success
-- or an error that nothing mends, with one recovery before each attempt but the first, or it was the
-- last one allowed and failed, with one recovery after each attempt.
pub exec_with_retry-Ends :
    {A : Type 0} (max_retries : ℕ) (exec : ℕ → ExecResult A)
    → (r : Retried A) × (exec_with_retry max_retries exec ≡ some r) × Ends max_retries exec 0 r
unfolding exec_with_retry
exec_with_retry-Ends max_retries exec = retry_from-Ends max_retries exec max_retries 0 (omega arith)
