-- ===== src/Server/Timeouts.antt =====
-- server/interruptablejob.go: a call that is not waited for longer than a time or a context allows. A
-- call is when it returns and what, and a select is all that it may choose: the event that comes first,
-- or either one when both come at once. Times in milliseconds.
mod Tests
pub mod Bounds
use veidemann_browser_contro.Prelude.{
  ℕ, ◌*◌, Option, none, some, List, [], ◌∷◌, ltb, if◌then◌else◌, Bool, not, map,
}
use veidemann_browser_contro.Errors.{GoError, status_error, deadline_exceeded_code}

-- When something happens, and with what; none is never.
abbrev pub Happens : Type 0 → Type 0
Happens A = Option (ℕ × A)

-- The cases of the select in DoWithTimeout.
pub data Case : Type 0 where
  timer_case error_case : Case

-- A select over two events.
unfoldable pub select : {A : Type 0} → Happens A → Happens A → List (ℕ × A)
select none none = []
select none (some y) = y ∷ []
select (some x) none = x ∷ []
select (some (s, a)) (some (t, b)) =
    if ltb s t then (s, a) ∷ [] else if ltb t s then (t, b) ∷ [] else (s, a) ∷ (t, b) ∷ []

abbrev pub too_slow : GoError
too_slow = status_error deadline_exceeded_code "too slow"

-- The timer of a duration, made at time 0: a value stands in its channel from then on, unless Stop was
-- called before.
-- t.Stop(), with whether it stops the timer before it fires.
stop_timer : ℕ → ℕ → Bool
stop_timer d now = ltb now d

-- `<-t.C` at a time, of a timer that was stopped or not: when it has received; none blocks for ever.
receive_timer : ℕ → Bool → ℕ → Option ℕ
receive_timer d stopped now = if stopped then none else some (if ltb now d then d else now)

-- The case of the error's channel: `if !t.Stop() { <-t.C }`, and when the error is returned.
unfoldable pub drain : ℕ → ℕ → Option ℕ
unfolding stop_timer receive_timer
drain d now =
    let stopped = stop_timer d now in if not stopped then receive_timer d stopped now else some now

-- The case that the select has taken, with its result; none is a return that never comes.
unfoldable pub taken_case : ℕ → Case × ℕ × Option GoError → Option (ℕ × Option GoError)
unfolding drain
taken_case d (timer_case, t, e) = some (t, e)
taken_case d (error_case, t, e) = elim (drain d t) [ none ↦ none | some t' ↦ some (t', e) ]

in_case : {A : Type 0} → Case → Happens A → Happens (Case × A)
in_case k none = none
in_case k (some (t, a)) = some (t, (k, a))

-- DoWithTimeout of a call that returns its error. The goroutine sends the error into a channel with
-- room for one, where it does not wait, so that the error can be received once the call returns.
unfoldable pub do_with_timeout : Happens (Option GoError) → ℕ → List (Option (ℕ × Option GoError))
unfolding select in_case taken_case
do_with_timeout f d =
    map (λ c. taken_case d (c.1.0, c.0, c.1.1))
      (select (in_case timer_case (some (d, some too_slow))) (in_case error_case f))

done_with : Happens GoError → Happens (Option GoError)
done_with none = none
done_with (some (t, e)) = some (t, some e)

-- DoWithContext; the context is when it is done and its error.
unfoldable pub do_with_context :
    Happens GoError → Happens (Option GoError) → List (ℕ × Option GoError)
unfolding select done_with
do_with_context ctx f = select (done_with ctx) f

-- Send, of the stream's own Send.
unfoldable pub send : Happens (Option GoError) → List (Option (ℕ × Option GoError))
unfolding do_with_timeout
send f = do_with_timeout f (5 * 1000)

-- Recv, of the stream's own Recv. If the context is done when the message comes, the variable of the
-- result may be read before it is written or after it.
unfoldable pub recv :
    {R : Type 0}
    → Happens GoError
    → Happens (Option R × Option GoError)
    → List (ℕ × (Option R × Option GoError))
recv none none = []
recv none (some r) = r ∷ []
recv (some (s, e)) none = (s, (none, some e)) ∷ []
recv (some (s, e)) (some (t, r)) =
    if ltb s t
    then (s, (none, some e)) ∷ []
    else if ltb t s
    then (t, r) ∷ []
    else (s, (none, some e)) ∷ (s, (r.0, some e)) ∷ (t, r) ∷ []
