-- ===== src/Session/Fetch/Ends.antt =====
-- Fetch of session/session.go comes to an end.
use veidemann_browser_contro.Prelude.{
  ℕ, ◌+◌, ◌≤◌, ◌<◌, ◌≡◌, ◌≢◌, Bool-cases, inl, inr, String, Option, none, some, List,
}
use veidemann_browser_contro.Errors.{
  Go, ok, fail, panic, Code, canceled, deadline_exceeded, eof, fetch_error, status_error, other,
  wrap,
}
use veidemann_browser_contro.Config.{
  Cookie, ConfigObject, CrawlConfig, BrowserConfig, ScriptType, QueuedUri, on_load, on_new_document,
}
use veidemann_browser_contro.Syncx.WaitGroup.{WaitError, idle_timeout, exceeded_max_time, cancelled}
use veidemann_browser_contro.Script.{Dict, continue, turn}
use veidemann_browser_contro.Session.Scripts.{SessionScripts}
use veidemann_browser_contro.Session.Phases.{Resolve, execute, execute_scripts}
use veidemann_browser_contro.Session.Phases.Runs.{execute_scripts-Executed}
use veidemann_browser_contro.Session.Steps.{
  Ends, ends, call-Ends, lift-Ends, deref-Ends, then_run-Ends,
}
use veidemann_browser_contro.Session.Fetch.{
  Outside, State, PageHarvestSpec, navigated, frames_waited, initial_of,
}
use veidemann_browser_contro.Session.Fetch.Sequence.{
  browser_closed, reported, initialised, page_navigated, wait_for_frames, take_screenshot, finish,
  run_phases, annotated, ignoring, load,
}

annotated-Ends : {S : Type 0} (r : Option (Go (Unit {0}) × S)) → Ends r → Ends (annotated r)
unfolding annotated
annotated-Ends o (ends r s) = ends _ s

ignoring-Ends : {S : Type 0} (r : Option (Go (Unit {0}) × S)) → Ends r → Ends (ignoring r)
unfolding ignoring
ignoring-Ends o (ends (ok a) s) = ends (ok a) s
ignoring-Ends o (ends (fail e) s) = ends (ok tt) s
ignoring-Ends o (ends panic s) = ends panic s

module _ {W : Type 0} where
  navigated-Ends : (page : QueuedUri) (r : Go (Unit {0})) (s : State W) → Ends (navigated page r s)
  unfolding navigated
  navigated-Ends page (ok u) s = ends _ _
  navigated-Ends page (fail canceled) s =
      deref-Ends _ (initial_of s.0.requests) s (λ a s'. ends _ _)
  navigated-Ends page (fail deadline_exceeded) s = ends _ _
  navigated-Ends page (fail eof) s = ends _ _
  navigated-Ends page (fail (fetch_error e)) s = ends _ _
  navigated-Ends page (fail (status_error c t)) s = ends _ _
  navigated-Ends page (fail (other t)) s = ends _ _
  navigated-Ends page (fail (wrap t e)) s = ends _ _
  navigated-Ends page panic s = ends _ _

  frames_waited-Ends :
      (page : QueuedUri) (e : Option WaitError) (s : State W) → Ends (frames_waited page e s)
  unfolding frames_waited
  frames_waited-Ends page none s = ends _ _
  frames_waited-Ends page (some idle_timeout) s = ends _ _
  frames_waited-Ends page (some exceeded_max_time) s = ends _ _
  frames_waited-Ends page (some cancelled) s =
      deref-Ends _ (initial_of s.0.requests) s (λ a s'. ends _ _)

module _ {W : Type 0} (o : Outside W) (status_text : Code → String → String) (phs : PageHarvestSpec)
    (measure : State W → ℕ) (bound : ℕ) (bounded : (s : State W) → measure s ≤ bound)
    (falls : (how : Resolve) (scripts : List (String × ConfigObject)) (next next' : String)
        (m m' : Dict) (s s' : State W)
      → turn (execute o.browser how) o.browser.wait scripts phs.queued_uri.annotation next m s
        ≡ continue next' m' s'
      → next' ≢ ""
      → measure s' < measure s) where
  phase-Ends :
      (fuel : ℕ) (scripts : SessionScripts) (t : ScriptType) (s : State W)
      → bound + 2 ≤ fuel
      → Ends (execute_scripts o.browser fuel scripts phs.queued_uri.annotation t s)
  phase-Ends fuel scripts t s h =
      let (r, s', e, _) =
        execute_scripts-Executed o.browser phs.queued_uri.annotation measure bound bounded falls
          fuel scripts t s h in
      rw e (ends _ _)

  run_phases-Ends :
      (fuel : ℕ) (scripts : SessionScripts) (s : State W)
      → bound + 2 ≤ fuel
      → Ends (run_phases o status_text phs fuel scripts s)
  unfolding run_phases
  run_phases-Ends fuel scripts s h =
      then_run-Ends _ (annotated _) (annotated-Ends _ (phase-Ends fuel scripts on_new_document s h))
        (λ u s'. ignoring-Ends _ (phase-Ends fuel scripts on_load s' h))

  take_screenshot-Ends :
      (config : CrawlConfig) (s : State W) → Ends (take_screenshot o status_text phs config s)
  unfolding take_screenshot
  take_screenshot-Ends config s = elim (Bool-cases config.create_screenshot) [
    | inl e ↦ rw e (lift-Ends _ _ _ (λ sent s1. ends _ _))
    | inr e ↦ rw e (ends _ _)
  ]

  browser_closed-Ends :
      (duration : ℕ) (outlinks : List String) (cookies : List Cookie) (s : State W)
      → Ends (browser_closed o status_text phs duration outlinks cookies s)
  unfolding browser_closed
  browser_closed-Ends duration outlinks cookies s = deref-Ends _ _ _ (λ registry s1. ends _ _)

  reported-Ends :
      (duration : ℕ) (outlinks : List String) (s : State W)
      → Ends (reported o status_text phs duration outlinks s)
  unfolding reported
  reported-Ends duration outlinks s =
      lift-Ends _ _ _ (λ cookies s1. browser_closed-Ends duration outlinks cookies s1)

  finish-Ends :
      (config : CrawlConfig) (scripts : SessionScripts) (s : State W)
      → Ends (finish o status_text phs config scripts s)
  unfolding finish
  finish-Ends config scripts s = deref-Ends _ _ _ (λ registry s1.
      then_run-Ends _ _ (take_screenshot-Ends config _)
        (λ u s2. call-Ends _ _ (λ outlinks s3. reported-Ends _ outlinks s3)))

  initialised-Ends : (c : BrowserConfig) (s : State W) → Ends (initialised o status_text phs c s)
  unfolding initialised
  initialised-Ends c s = ends _ _

  page_navigated-Ends : (s : State W) → Ends (page_navigated o status_text phs s)
  unfolding page_navigated
  page_navigated-Ends s =
      let (r, s') = o.navigate phs.queued_uri.uri s in navigated-Ends phs.queued_uri r s'

  wait_for_frames-Ends : (s : State W) → Ends (wait_for_frames o status_text phs s)
  unfolding wait_for_frames
  wait_for_frames-Ends s = let (e, s') = o.wait_frames s in frames_waited-Ends phs.queued_uri e s'

  pub load-Ends :
      (fuel : ℕ) (config : CrawlConfig) (c : BrowserConfig) (scripts : SessionScripts)
      (user_agent : String) (s : State W)
      → bound + 2 ≤ fuel
      → Ends (load o status_text phs fuel config c scripts user_agent s)
  unfolding load
  load-Ends fuel config c scripts user_agent s h = then_run-Ends _ _ (initialised-Ends c _) (λ u s1.
      then_run-Ends _ _ (page_navigated-Ends s1) (λ u s2.
        then_run-Ends _ _ (run_phases-Ends fuel scripts _ h) (λ u s3.
          then_run-Ends _ _ (wait_for_frames-Ends s3) (λ u s4. finish-Ends config scripts s4))))
