-- ===== src/Controller/Run.antt =====
-- Run and Shutdown of controller/browsercontroller.go with the session registry and all their
-- goroutines: the loop, the pages that are being fetched, the API server and the callers of Shutdown.
-- The frontier and the fetches decide which step is taken.
mod Points
pub mod Held
pub mod Ends
pub mod Finished
mod Tests
use veidemann_browser_contro.Prelude.{
  ℕ, Bool, ◌+◌, ◌-◌, ◌≡◌, ◌<◌, Option, none, some, List, [], ◌∷◌, ◌++◌, map,
}
use veidemann_browser_contro.Errors.{Go, ok, fail, panic, GoError, canceled, wrap}
use veidemann_browser_contro.Registry.{
  Registry, returns, CloseWait, new_registry, get_next_available, get_cancelled, release,
}
use veidemann_browser_contro.Controller.{Loop, started, no_session, no_page, fetch_page, fetched}

-- Where Run is: at the select, in GetNextAvailable, in GetNextPage with a session, in CloseWait with the
-- result of Run, or at its end, with whether the time-out of CloseWait had elapsed.
pub data Point (S : Type 0) : Type 0 where
  looping taking : Point S
  asking : S → Point S
  closing : Option GoError → Point S
  closed : Bool → Option GoError → Point S

-- The goroutine of the API server: Start runs; it has returned an error; this was sent to `done`; and
-- the context was cancelled.
pub data ServerState : Type 0 where
  serving announced cancelled : ServerState
  failed : GoError → ServerState

pub record Run (S : Type 0) : Type 0 where
  pub loop : Loop
  pub registry : Registry S
  pub point : Point S
  -- the sessions of the goroutines that fetch pages
  pub pages : List S
  -- the channel `done`, for one element
  pub done : Option (Option GoError)
  pub server : ServerState
  -- the calls of Shutdown that have not sent yet
  pub shutdowns : ℕ

-- The start of Run, with a new registry.
unfoldable pub run_started : {S : Type 0} → Registry S → Run S
run_started r = record {
  loop = started;
  registry = r;
  point = looping;
  pages = [];
  done = none;
  server = serving;
  shutdowns = 0;
}

-- `continue`, or the deferred calls of Run if it returns.
unfoldable pub next_point : {S : Type 0} → Option (Option GoError) → Point S
next_point none = looping
next_point (some e) = closing e

module _ {S : Type 0} where
  -- `case err := <-bc.done`
  unfoldable pub take_done : Option GoError → Run S → Run S
  take_done e u = record u {
    point = closing e;
    done = none;
    loop = record u.loop { returned = some e };
  }

  -- GetNextAvailable has returned.
  unfoldable pub got : Go S × Registry S → Run S → Run S
  unfolding next_point
  got (ok s, r) u = record u { point = asking s; registry = r }
  got (fail e, r) u =
      let l = no_session e u.loop in
      record u { point = next_point l.returned; registry = r; loop = l }
  got (panic, r) u = record u { registry = r }

  -- Shutdown is called; it waits until its message is in `done`.
  unfoldable pub shutdown : Run S → Run S
  shutdown u = record u { shutdowns = u.shutdowns + 1 }

  unfoldable pub shutdown_sent : Run S → Run S
  shutdown_sent u = record u { shutdowns = u.shutdowns - 1; done = some none }

module _ {S : Type 0} (id_of : S → ℕ) where
  -- GetNextPage has returned a page, and the goroutine starts.
  unfoldable pub start_page : S → Run S → Run S
  start_page s u = record u {
    point = looping;
    pages = s ∷ u.pages;
    loop = fetch_page (id_of s) u.loop;
  }

  -- GetNextPage has failed; the registry is that after the release.
  unfoldable pub without_page : S → GoError → Registry S → Run S → Run S
  unfolding next_point
  without_page s e r u =
      let l = no_page e u.loop in record u { point = next_point l.returned; registry = r; loop = l }

  -- A page is done; the registry is that after the release.
  unfoldable pub end_page : List S → S → List S → Registry S → Run S → Run S
  end_page before s after r u = record u {
    pages = before ++ after;
    registry = r;
    loop = fetched (map id_of before) (map id_of after) u.loop;
  }

module _ {S : Type 0} (id_of : S → ℕ) (new : ℕ → Go S) where
  -- The default case of the select is taken only if no other is ready.
  pub data Step (u : Run S) : Run S → Type 0 where
    takes_done : (e : Option GoError) → u.point ≡ looping → u.done ≡ some e → Step u (take_done e u)
    backs_off :
        u.point ≡ looping
        → 0 < u.loop.backoff
        → Step u (record u { loop = record u.loop { backoff = u.loop.backoff - 1 } })
    goes_on :
        u.point ≡ looping
        → u.done ≡ none
        → u.loop.backoff ≡ 0
        → Step u (record u { point = taking })
    gets :
        (result : Go S) (r : Registry S)
        → u.point ≡ taking
        → get_next_available new u.registry ≡ returns (result, r)
        → Step u (got (result, r) u)
    gets_cancelled :
        u.point ≡ taking → u.server ≡ cancelled → Step u (got (get_cancelled canceled u.registry) u)
    gets_page : (s : S) → u.point ≡ asking s → Step u (start_page id_of s u)
    gets_no_page :
        (s : S) (e : GoError) (r : Registry S)
        → u.point ≡ asking s
        → release id_of u.registry s ≡ returns r
        → Step u (without_page id_of s e r u)
    page_ends :
        (before : List S) (s : S) (after : List S) (r : Registry S)
        → u.pages ≡ before ++ s ∷ after
        → release id_of u.registry s ≡ returns r
        → Step u (end_page id_of before s after r u)
    closes :
        (elapsed : Bool) (e : Option GoError)
        → u.point ≡ closing e
        → CloseWait u.registry elapsed
        → Step u (record u { point = closed elapsed e })
    server_fails : (e : GoError) → u.server ≡ serving → Step u (record u { server = failed e })
    server_sends :
        (e : GoError)
        → u.server ≡ failed e
        → u.done ≡ none
        → Step u (record u { server = announced; done = some (some (wrap "API server stopped" e)) })
    server_cancels : u.server ≡ announced → Step u (record u { server = cancelled })
    shuts_down : Step u (shutdown u)
    shutdown_sends : 0 < u.shutdowns → u.done ≡ none → Step u (shutdown_sent u)

  pub data Reach (max_sessions : ℕ) : Run S → Type 0 where
    begins :
        (r : Registry S) → new_registry max_sessions ≡ some r → Reach max_sessions (run_started r)
    next : {u v : Run S} → Reach max_sessions u → Step u v → Reach max_sessions v
