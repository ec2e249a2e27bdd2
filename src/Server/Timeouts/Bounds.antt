-- ===== src/Server/Timeouts/Bounds.antt =====
-- When the calls of server/interruptablejob.go return, and with what.
use veidemann_browser_contro.Prelude.{
  ℕ, ◌≤◌, ◌≡◌, ◌≢◌, refl, ◌⊎◌, inl, inr, Option, none, some, [], All, ltb, arith, Bool-cases,
}
use veidemann_browser_contro.Errors.{GoError}
use veidemann_browser_contro.Server.Timeouts.{
  error_case, Happens, select, too_slow, in_case, taken_case, drain, stop_timer, receive_timer,
  do_with_timeout, send, recv,
}

-- It does not happen before this time.
abbrev pub NotBefore : {A : Type 0} → ℕ → Happens A → Type 0
NotBefore d none = Unit
NotBefore d (some (t, a)) = d ≤ t

-- The call returns by the time d: with its own error, when it ends; or at d as too slow, if it has not
-- ended before.
abbrev pub InTime : ℕ → Happens (Option GoError) → Option (ℕ × Option GoError) → Type 0
InTime d f none = ⊥
InTime d f (some (t, e)) =
    (t ≤ d) × ((f ≡ some (t, e)) ⊎ ((t ≡ d) × (e ≡ some too_slow) × NotBefore d f))

-- The receive from the timer's channel never blocks: if Stop has not stopped the timer, it has fired.
drain_now : (d t : ℕ) → drain d t ≡ some t
unfolding drain stop_timer receive_timer
drain_now d t = elim (Bool-cases (ltb t d)) [ inl e ↦ rw e refl | inr e ↦ rw e refl ]

taken_now : (d t : ℕ) (x : Option GoError) → taken_case d (error_case, t, x) ≡ some (t, x)
unfolding taken_case
taken_now d t x = rw (drain_now d t, taken_case) refl

error_InTime :
    (d t : ℕ) (x : Option GoError)
    → t ≤ d
    → InTime d (some (t, x)) (taken_case d (error_case, t, x))
error_InTime d t x le = rw (taken_now d t x) (le, inl refl)

do_with_timeout-InTime :
    (f : Happens (Option GoError)) (d : ℕ)
    → (do_with_timeout f d ≢ []) × All (InTime d f) (do_with_timeout f d)
unfolding do_with_timeout select in_case taken_case
do_with_timeout-InTime none d = (λ e. ground arith, ((omega arith, inr (refl, refl, tt)), tt))
do_with_timeout-InTime (some (t, x)) d = elim (Bool-cases (ltb d t)) [
  | inl e ↦ rw e (λ q. ground arith, ((omega arith, inr (refl, refl, ground arith)), tt))
  | inr e ↦ rw e (elim (Bool-cases (ltb t d)) [
    | inl e' ↦ rw e' (λ q. ground arith, (error_InTime d t x (ground arith), tt))
    | inr e' ↦ rw e' (
      λ q. ground arith,
      ((omega arith, inr (refl, refl, ground arith)), (error_InTime d t x (ground arith), tt)),
    )
  ])
]

-- Send always returns, whichever case its select takes, also if it then has to receive from the timer,
-- and within five seconds: either when the stream's Send does and with its error,
-- or after five seconds with DeadlineExceeded, and then the stream's Send has not returned before.
pub send-InTime : (f : Happens (Option GoError)) → (send f ≢ []) × All (InTime 5000 f) (send f)
unfolding send
send-InTime f = do_with_timeout-InTime f 5000

-- The message comes, and the context is not done before; or the context is done, which gives its error,
-- and no message has come before.
abbrev pub Prompt :
    {R : Type 0}
    → Happens GoError
    → Happens (Option R × Option GoError)
    → ℕ × (Option R × Option GoError)
    → Type 0
Prompt ctx fn (t, r) =
    ((fn ≡ some (t, r)) × NotBefore t ctx)
    ⊎ ((e : GoError) × (ctx ≡ some (t, e)) × (r.1 ≡ some e) × NotBefore t fn)

-- Recv returns unless neither a message nor the end of the context ever comes. It returns at the first
-- of the two: with what the stream's Recv gave, or with the error of the context.
pub recv-Prompt :
    {R : Type 0} (ctx : Happens GoError) (fn : Happens (Option R × Option GoError))
    → ((recv ctx fn ≢ []) ⊎ ((ctx ≡ none) × (fn ≡ none))) × All (Prompt ctx fn) (recv ctx fn)
unfolding recv
recv-Prompt none none = (inr (refl, refl), tt)
recv-Prompt none (some (t, r)) = (inl (λ q. ground arith), (inl (refl, tt), tt))
recv-Prompt (some (s, e)) none = (inl (λ q. ground arith), (inr (e, refl, refl, tt), tt))
recv-Prompt (some (s, e)) (some (t, r)) = elim (Bool-cases (ltb s t)) [
  | inl p ↦ rw p (inl (λ q. ground arith), (inr (e, refl, refl, ground arith), tt))
  | inr p ↦ rw p (elim (Bool-cases (ltb t s)) [
    | inl p' ↦ rw p' (inl (λ q. ground arith), (inl (refl, ground arith), tt))
    | inr p' ↦ rw p' (
      inl (λ q. ground arith),
      (
        inr (e, refl, refl, ground arith),
        (inr (e, refl, refl, ground arith), (inl (refl, ground arith), tt)),
      ),
    )
  ])
]
