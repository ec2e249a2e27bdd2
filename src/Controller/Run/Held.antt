-- ===== src/Controller/Run/Held.antt =====
-- Run of controller/browsercontroller.go keeps the session registry well-formed.
use veidemann_browser_contro.Prelude.{
  ℕ, ◌≡◌, refl, sym, ap, ◌∙◌, subst, Option, none, some, List, [], ◌∷◌, ◌++◌, map, arith,
}
use mathlib.Core.List.{append_assoc, map-append}
use veidemann_browser_contro.Errors.{Go, ok, fail, panic, GoError, canceled}
use veidemann_browser_contro.Registry.{Registry, returns, new_registry, get_cancelled, release}
use veidemann_browser_contro.Registry.Holding.{
  Holds, HoldsAfter, new_registry-Holds, released-Holds,
}
use veidemann_browser_contro.Controller.{Loop, started, no_session, no_page, fetch_page, fetched}
use veidemann_browser_contro.Controller.Run.{
  Point, looping, taking, asking, ServerState, Run, run_started, next_point, take_done, got,
  start_page, without_page, end_page,
}
use veidemann_browser_contro.Controller.Run.Points.{
  hand, result, Quiet, Told, hand-next_point, result-next_point, next_point-Quiet, Told-running,
  Told-stopped,
}

module _ {S : Type 0} (id_of : S → ℕ) where
  pub record Sound (u : Run S) : Type 0 where
    pub lost : List ℕ
    pub holds : Holds id_of u.registry lost (hand u.point ++ u.pages)
    pub fetching : u.loop.fetching ≡ map id_of u.pages
    pub running : result u.point ≡ u.loop.returned
    pub quiet : Quiet u.point u.loop.backoff
    pub told : Told u.server u.done u.loop.returned

  pub run_started-Sound :
      (max_sessions : ℕ) (r : Registry S)
      → new_registry max_sessions ≡ some r
      → Sound (run_started r)
  unfolding run_started started
  run_started-Sound max_sessions r e = record {
    lost = [];
    holds = new_registry-Holds id_of max_sessions r e;
    fetching = refl;
    running = refl;
    quiet = tt;
    told = tt;
  }

  pub at_point :
      (u : Run S) {p : Point S} (h : Sound u)
      → u.point ≡ p
      → Holds id_of u.registry h.lost (hand p ++ u.pages)
  at_point u h e = subst (λ q. Holds id_of u.registry h.lost (hand q ++ u.pages)) e h.holds

  pub take_done-Sound :
      (e : Option GoError) (u : Run S) → u.point ≡ looping → Sound u → Sound (take_done e u)
  unfolding take_done
  take_done-Sound e u p h = record {
    lost = h.lost;
    holds = at_point u h p;
    fetching = h.fetching;
    running = refl;
    quiet = tt;
    told = Told-stopped u.server none e;
  }

  no_session-fetching : (e : GoError) (l : Loop) → (no_session e l).fetching ≡ l.fetching
  unfolding no_session
  no_session-fetching e l = ground arith

  no_page-fetching : (e : GoError) (l : Loop) → (no_page e l).fetching ≡ l.fetching
  unfolding no_page
  no_page-fetching e l = ground arith

  pub not_returned :
      (u : Run S) {p : Point S} → Sound u → u.point ≡ p → result p ≡ none → u.loop.returned ≡ none
  not_returned u h e r = sym h.running ∙ ap result e ∙ r

  running_tells :
      (u : Run S) (returned : Option (Option GoError))
      → Sound u
      → u.loop.returned ≡ none
      → Told u.server u.done returned
  running_tells u returned h e =
      Told-running u.server u.done returned (subst (Told u.server u.done) e h.told)

  got_session-Sound :
      (s : S) (r : Registry S) (lost : List ℕ) (u : Run S)
      → u.point ≡ taking
      → Sound u
      → Holds id_of r lost (s ∷ u.pages)
      → Sound (got (ok s, r) u)
  unfolding got
  got_session-Sound s r lost u p h holds = record {
    lost = lost;
    holds = holds;
    fetching = h.fetching;
    running = sym (not_returned u h p refl);
    quiet = subst (λ q. Quiet q u.loop.backoff) p h.quiet;
    told = h.told;
  }

  -- A step of the loop that holds no session after it.
  next_point-Sound :
      (l : Loop) (r : Registry S) (lost : List ℕ) (u : Run S)
      → l.fetching ≡ u.loop.fetching
      → u.loop.returned ≡ none
      → Sound u
      → Holds id_of r lost u.pages
      → Sound (record u { point = next_point l.returned; registry = r; loop = l })
  next_point-Sound l r lost u same running h holds = record {
    lost = lost;
    holds =
        subst (λ xs. Holds id_of r lost (xs ++ u.pages)) (sym (hand-next_point S l.returned)) holds;
    fetching = same ∙ h.fetching;
    running = result-next_point S l.returned;
    quiet = next_point-Quiet S l.returned l.backoff;
    told = running_tells u l.returned h running;
  }

  pub got-Sound :
      (new : ℕ → Go S) (new-id : (i : ℕ) (s : S) → new i ≡ ok s → id_of s ≡ i) (x : Go S)
      (r : Registry S) (lost : List ℕ) (u : Run S)
      → u.point ≡ taking
      → Sound u
      → HoldsAfter id_of new new-id lost u.pages x r
      → Sound (got (x, r) u)
  unfolding got
  got-Sound new new-id (ok s) r lost u p h after = got_session-Sound s r lost u p h after
  got-Sound new new-id (fail e) r lost u p h after =
      next_point-Sound (no_session e u.loop) r (after.0 ∷ lost) u (no_session-fetching e u.loop)
        (not_returned u h p refl) h after.1
  got-Sound new new-id panic r lost u p h after = absurd after

  pub gets_cancelled-Sound :
      (u : Run S) → u.point ≡ taking → Sound u → Sound (got (get_cancelled canceled u.registry) u)
  unfolding got get_cancelled
  gets_cancelled-Sound u p h =
      next_point-Sound (no_session canceled u.loop) u.registry h.lost u
        (no_session-fetching canceled u.loop) (not_returned u h p refl) h (at_point u h p)

  pub without_page-Sound :
      (s : S) (e : GoError) (r : Registry S) (u : Run S)
      → u.point ≡ asking s
      → release id_of u.registry s ≡ returns r
      → Sound u
      → Sound (without_page id_of s e r u)
  unfolding without_page
  without_page-Sound s e r u p q h =
      next_point-Sound (no_page e u.loop) r h.lost u (no_page-fetching e u.loop)
        (not_returned u h p refl) h
        (released-Holds id_of u.registry h.lost [] s u.pages r (at_point u h p) q)

  pub start_page-Sound :
      (s : S) (u : Run S) → u.point ≡ asking s → Sound u → Sound (start_page id_of s u)
  unfolding start_page fetch_page
  start_page-Sound s u p h = record {
    lost = h.lost;
    holds = at_point u h p;
    fetching = ap (λ t. id_of s ∷ t) h.fetching;
    running = sym (not_returned u h p refl);
    quiet = tt;
    told = h.told;
  }

  pub end_page-Sound :
      (before : List S) (s : S) (after : List S) (r : Registry S) (u : Run S)
      → u.pages ≡ before ++ s ∷ after
      → release id_of u.registry s ≡ returns r
      → Sound u
      → Sound (end_page id_of before s after r u)
  unfolding end_page fetched
  end_page-Sound before s after r u p q h =
      let regroup = append_assoc (hand u.point) before in
      let held : Holds id_of u.registry h.lost ((hand u.point ++ before) ++ s ∷ after) =
        subst (Holds id_of u.registry h.lost)
          (ap (λ xs. hand u.point ++ xs) p ∙ sym (regroup (s ∷ after))) h.holds in
      record {
        lost = h.lost;
        holds =
            subst (Holds id_of r h.lost) (regroup after)
              (released-Holds id_of u.registry h.lost (hand u.point ++ before) s after r held q);
        fetching = sym (map-append id_of before after);
        running = h.running;
        quiet = h.quiet;
        told = h.told;
      }

  -- A step of the server, or of a caller of Shutdown.
  pub messages-Sound :
      (d : Option (Option GoError)) (v : ServerState) (n : ℕ) (u : Run S)
      → Sound u
      → Told v d u.loop.returned
      → Sound (record u { done = d; server = v; shutdowns = n })
  messages-Sound d v n u h t = record {
    lost = h.lost;
    holds = h.holds;
    fetching = h.fetching;
    running = h.running;
    quiet = h.quiet;
    told = t;
  }
