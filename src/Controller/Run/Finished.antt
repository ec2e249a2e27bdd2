-- ===== src/Controller/Run/Finished.antt =====
-- The end of Run of controller/browsercontroller.go.
use veidemann_browser_contro.Prelude.{
  ℕ, ◌≡◌, refl, sym, ◌∙◌, subst, Option, none, some, Bool, false, List, [], ◌∷◌, ◌++◌,
}
use veidemann_browser_contro.Errors.{Go, ok, fail, panic, GoError, canceled}
use veidemann_browser_contro.Registry.{Registry, get_cancelled, CloseWait}
use veidemann_browser_contro.Controller.Run.{
  taking, closed, shutdown, shutdown_sent, Run, run_started, next_point, take_done, got, start_page,
  without_page, end_page, takes_done, backs_off, goes_on, gets, gets_cancelled, gets_page,
  gets_no_page, page_ends, closes, server_fails, server_sends, server_cancels, shuts_down,
  shutdown_sends, Reach, begins, next,
}
use veidemann_browser_contro.Controller.Run.Ends.{CloseWait-iff}

not_next :
    {S : Type 0} (r : Option (Option GoError)) (elapsed : Bool) (e : Option GoError)
    → next_point {S = S} r ≡ closed elapsed e
    → ⊥
unfolding next_point
not_next none elapsed e q = cc
not_next (some x) elapsed e q = cc

module _ {S : Type 0} (id_of : S → ℕ) (new : ℕ → Go S)
    (new-id : (i : ℕ) (s : S) → new i ≡ ok s → id_of s ≡ i) where
  no_page_ends :
      (before : List S) (s : S) (after : List S) (xs : List S)
      → xs ≡ before ++ s ∷ after
      → xs ≡ []
      → ⊥
  no_page_ends [] s after xs p q = let none_left : [] ≡ s ∷ after = sym q ∙ p in cc
  no_page_ends (x ∷ before) s after xs p q =
      let none_left : [] ≡ x ∷ (before ++ s ∷ after) = sym q ∙ p in cc

  not_got :
      (x : Go S) (r : Registry S) (u : Run S) (e : Option GoError)
      → u.point ≡ taking
      → (got (x, r) u).point ≡ closed false e
      → ⊥
  unfolding got
  not_got (ok s) r u e p q = cc
  not_got (fail x) r u e p q = not_next _ false e q
  not_got panic r u e p q = cc

  -- Run does not return before the last page has ended, unless CloseWait times out; and no page is
  -- started after it: whenever Run has returned and the time-out had not elapsed, no page is being
  -- fetched.
  pub closed-none :
      (max_sessions : ℕ) {u : Run S} (e : Option GoError)
      → Reach id_of new max_sessions u
      → u.point ≡ closed false e
      → u.pages ≡ []
  unfolding run_started take_done got start_page without_page end_page shutdown shutdown_sent
      get_cancelled
  closed-none max_sessions e (begins r x) q = refl
  closed-none max_sessions e (next {u} h (takes_done x p d)) q = cc
  closed-none max_sessions e (next {u} h (backs_off p b)) q = closed-none max_sessions e h q
  closed-none max_sessions e (next {u} h (goes_on p d b)) q = cc
  closed-none max_sessions e (next {u} h (gets x r p g)) q = absurd (not_got x r u e p q)
  closed-none max_sessions e (next {u} h (gets_cancelled p c)) q =
      absurd (not_got (fail canceled) u.registry u e p q)
  closed-none max_sessions e (next {u} h (gets_page s p)) q = cc
  closed-none max_sessions e (next {u} h (gets_no_page s x r p g)) q = absurd (not_next _ false e q)
  closed-none max_sessions e (next {u} h (page_ends before s after r p g)) q =
      absurd (no_page_ends before s after u.pages p (closed-none max_sessions e h q))
  closed-none max_sessions e (next {u} h (closes elapsed x p w)) q =
      let still : elapsed ≡ false = cc in
      (CloseWait-iff id_of new new-id max_sessions u x h p).0 (subst (CloseWait u.registry) still w)
  closed-none max_sessions e (next {u} h (server_fails x p)) q = closed-none max_sessions e h q
  closed-none max_sessions e (next {u} h (server_sends x p d)) q = closed-none max_sessions e h q
  closed-none max_sessions e (next {u} h (server_cancels p)) q = closed-none max_sessions e h q
  closed-none max_sessions e (next {u} h shuts_down) q = closed-none max_sessions e h q
  closed-none max_sessions e (next {u} h (shutdown_sends p d)) q = closed-none max_sessions e h q
