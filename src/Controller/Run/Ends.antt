-- ===== src/Controller/Run/Ends.antt =====
-- What holds in every state of Run of controller/browsercontroller.go and its goroutines.
use veidemann_browser_contro.Prelude.{
  ℕ, ◌+◌, ◌-◌, ◌≡◌, ◌≢◌, refl, sym, ap, ◌∙◌, subst, ◌⊎◌, inl, Option, none, some, List, [], ◌∷◌,
  ◌↔◌, ◌++◌, false, arith, length,
}
use mathlib.Core.List.{append_assoc}
use veidemann_browser_contro.Errors.{Go, ok, GoError, wrap}
use veidemann_browser_contro.Registry.{Registry, CloseWait, all_finished, timed_out}
use veidemann_browser_contro.Registry.Holding.{Holds, get_next_available-Holds, release-Holds}
use veidemann_browser_contro.Controller.Run.{
  shutdown, shutdown_sent, closing, announced, cancelled, failed, Run, end_page, Step, takes_done,
  backs_off, goes_on, gets, gets_cancelled, gets_page, gets_no_page, page_ends, closes,
  server_fails, server_sends, server_cancels, shuts_down, shutdown_sends, Reach, begins, next,
}
use veidemann_browser_contro.Controller.Run.Points.{hand, result, Quiet, Told, Told-full}
use veidemann_browser_contro.Controller.Run.Held.{
  Sound, at_point, not_returned, run_started-Sound, take_done-Sound, got-Sound,
  gets_cancelled-Sound, without_page-Sound, start_page-Sound, end_page-Sound, messages-Sound,
}

module _ {S : Type 0} (id_of : S → ℕ) (new : ℕ → Go S)
    (new-id : (i : ℕ) (s : S) → new i ≡ ok s → id_of s ≡ i) where
  Step-Sound : {u v : Run S} → Step id_of new u v → Sound id_of u → Sound id_of v
  unfolding shutdown shutdown_sent
  Step-Sound {u} (takes_done e p q) h = take_done-Sound id_of e u p h
  Step-Sound {u} (backs_off p q) h = record {
    lost = h.lost;
    holds = h.holds;
    fetching = h.fetching;
    running = h.running;
    quiet = subst (λ x. Quiet x (u.loop.backoff - 1)) (sym p) tt;
    told = h.told;
  }
  Step-Sound {u} (goes_on p q b) h = record {
    lost = h.lost;
    holds = at_point id_of u h p;
    fetching = h.fetching;
    running = sym (not_returned id_of u h p refl);
    quiet = b;
    told = h.told;
  }
  Step-Sound {u} (gets x r p q) h = got-Sound id_of new new-id x r h.lost u p h (
      get_next_available-Holds id_of new new-id u.registry h.lost u.pages x r (at_point id_of u h p)
        q)
  Step-Sound {u} (gets_cancelled p q) h = gets_cancelled-Sound id_of u p h
  Step-Sound {u} (gets_page s p) h = start_page-Sound id_of s u p h
  Step-Sound {u} (gets_no_page s e r p q) h = without_page-Sound id_of s e r u p q h
  Step-Sound {u} (page_ends before s after r p q) h = end_page-Sound id_of before s after r u p q h
  Step-Sound {u} (closes elapsed e p w) h = record {
    lost = h.lost;
    holds = at_point id_of u h p;
    fetching = h.fetching;
    running = ap result (sym p) ∙ h.running;
    quiet = tt;
    told = h.told;
  }
  Step-Sound {u} (server_fails e p) h = messages-Sound id_of u.done (failed e) u.shutdowns u h tt
  Step-Sound {u} (server_sends e p q) h =
      messages-Sound id_of (some (some (wrap "API server stopped" e))) announced u.shutdowns u h
        (inl (λ x. cc))
  Step-Sound {u} (server_cancels p) h =
      messages-Sound id_of u.done cancelled u.shutdowns u h
        (subst (λ x. Told x u.done u.loop.returned) p h.told)
  Step-Sound {u} shuts_down h = messages-Sound id_of u.done u.server (u.shutdowns + 1) u h h.told
  Step-Sound {u} (shutdown_sends p q) h =
      messages-Sound id_of (some none) u.server (u.shutdowns - 1) u h
        (Told-full u.server none u.loop.returned)

  pub Reach-Sound : (max_sessions : ℕ) {u : Run S} → Reach id_of new max_sessions u → Sound id_of u
  Reach-Sound max_sessions (begins r e) = run_started-Sound id_of max_sessions r e
  Reach-Sound max_sessions (next h step) = Step-Sound step (Reach-Sound max_sessions h)

  -- In every state of Run, its pages, API server and callers of Shutdown, the sessions whose pages are
  -- being fetched, and the one for which a page is asked, are exactly those in the registry, each at its
  -- own id, and the wait group counts them; every other id is in the pool, or lost.
  pub Reach-Holds :
      (max_sessions : ℕ) {u : Run S}
      → Reach id_of new max_sessions u
      → (lost : List ℕ) × Holds id_of u.registry lost (hand u.point ++ u.pages)
  Reach-Holds max_sessions h = let v = Reach-Sound max_sessions h in (v.lost, v.holds)

  -- Whenever a page is being fetched, its goroutine can end: the release of its session neither panics
  -- nor blocks, whatever Run, the server and the other pages do meanwhile, also after Run has returned.
  pub page_ends_lem :
      (max_sessions : ℕ) (u : Run S) (before : List S) (s : S) (after : List S)
      → Reach id_of new max_sessions u
      → u.pages ≡ before ++ s ∷ after
      → (r : Registry S) × Step id_of new u (end_page id_of before s after r u)
  page_ends_lem max_sessions u before s after h e =
      let v = Reach-Sound max_sessions h in
      let regroup = append_assoc (hand u.point) before (s ∷ after) in
      let held : Holds id_of u.registry v.lost ((hand u.point ++ before) ++ s ∷ after) =
        subst (Holds id_of u.registry v.lost) (ap (λ xs. hand u.point ++ xs) e ∙ sym regroup)
          v.holds in
      let (r, released, _) =
        release-Holds id_of u.registry v.lost (hand u.point ++ before) s after held in
      (r, page_ends before s after r e released)

  -- While Run waits in CloseWait and its time-out has not elapsed, CloseWait can return exactly when no
  -- page is being fetched.
  pub CloseWait-iff :
      (max_sessions : ℕ) (u : Run S) (e : Option GoError)
      → Reach id_of new max_sessions u
      → u.point ≡ closing e
      → CloseWait u.registry false ↔ (u.pages ≡ [])
  CloseWait-iff max_sessions u e h p =
      let number = (at_point id_of u (Reach-Sound max_sessions h) p).number in
      (λ w. empty u.pages (sym number ∙ finished w), λ q. all_finished (number ∙ ap length q))
    where
      finished : CloseWait u.registry false → u.registry.wg ≡ 0
      finished (all_finished q) = q
      finished (timed_out q) = cc

      empty : (xs : List S) → length xs ≡ 0 → xs ≡ []
      empty [] q = refl
      empty (x ∷ xs) q = absurd (omega arith)

  -- Once the API server has cancelled the context, for which GetNextAvailable gives Canceled and Run
  -- goes on with its loop, a message waits in `done` or Run has its result: Run does not go round for
  -- ever.
  pub cancelled_lem :
      (max_sessions : ℕ) (u : Run S)
      → Reach id_of new max_sessions u
      → u.server ≡ cancelled
      → (u.done ≢ none) ⊎ (u.loop.returned ≢ none)
  cancelled_lem max_sessions u h e =
      let v = Reach-Sound max_sessions h in subst (λ x. Told x u.done u.loop.returned) e v.told
