-- ===== src/Session/Fetch/Cleanup.antt =====
-- How Fetch of session/session.go ends: with a result or an error, and with the browser cleaned up.
use veidemann_browser_contro.Prelude.{
  negsuc, ℕ, ◌+◌, ◌≤◌, ◌<◌, ◌≡◌, ◌≢◌, refl, false, String, Option, some, List,
}
use veidemann_browser_contro.Errors.{wrapping, Go, ok, fail, panic, GoError, Code, new_fetch_error}
use veidemann_browser_contro.Config.{ConfigObject, CrawlConfig, BrowserConfig}
use veidemann_browser_contro.Script.{Dict, continue, turn}
use veidemann_browser_contro.Frontier.{RenderResult}
use veidemann_browser_contro.Session.Scripts.{SessionScripts}
use veidemann_browser_contro.Session.Phases.{Resolve, execute}
use veidemann_browser_contro.Errors.{described}
use veidemann_browser_contro.Session.Steps.{
  recover, unless_panic, Ends, ends, lift-Ends, deref-Ends, then_run-Ends,
}
use veidemann_browser_contro.Session.Fetch.{
  clean_workspace, Outside, State, PageHarvestSpec, set_session,
}
use veidemann_browser_contro.Session.Fetch.Sequence.{
  prepare, prepared, start_browser, load, with_context, with_allocator, body, fetch,
}
use veidemann_browser_contro.Session.Fetch.Ends.{load-Ends}

ok-ne-panic : {A : Type 0} (a : A) → ok a ≢ panic
ok-ne-panic a q = cc

fail-ne-panic : {A : Type 0} (e : GoError) → ◌≢◌ {A = Go A} (fail e) panic
fail-ne-panic e q = cc

-- An error or a panic.
abbrev pub IsFailure : {A : Type 0} → Go A → Type 0
IsFailure (ok a) = ⊥
IsFailure r = Unit {0}

module _ {W : Type 0} (o : Outside W) (status_text : Code → String → String)
    (phs : PageHarvestSpec) where
  -- The state when the browser is started, and the deferred calls of the browser in their order.
  abbrev pub opened : State W → State W
  opened s = set_session (λ t. record t { ctx = some false }) (o.new_context (o.new_allocator s))

  abbrev pub cleaned : State W → State W
  cleaned s = o.allocator_cancel (clean_workspace o (o.cdp_cancel s)).1

  -- The result of the load, unless cleanWorkspace panics.
  abbrev pub unless_unclean : State W → Go RenderResult → Go RenderResult
  unless_unclean s r = unless_panic (clean_workspace o (o.cdp_cancel s)).0 r

  -- What was cleaned up between the state at the start and that at the end.
  pub data Cleaned (s s' : State W) : Type 0 where
    not_opened :
        (r : Go (BrowserConfig × SessionScripts × CrawlConfig))
        → prepared o status_text phs s ≡ some (r, s')
        → IsFailure r
        → Cleaned s s'
    not_started :
        (x : BrowserConfig × SessionScripts × CrawlConfig) (s1 t : State W) (r : Go String)
        → prepared o status_text phs s ≡ some (ok x, s1)
        → start_browser o status_text phs (opened s1) ≡ some (r, t)
        → IsFailure r
        → s' ≡ cleaned t
        → Cleaned s s'
    loaded :
        (x : BrowserConfig × SessionScripts × CrawlConfig) (s1 t : State W)
        → prepared o status_text phs s ≡ some (ok x, s1)
        → s' ≡ cleaned (o.load_cancel t)
        → Cleaned s s'

  prepare-Ends : (config : CrawlConfig) (s : State W) → Ends (prepare o status_text phs config s)
  unfolding prepare
  prepare-Ends config s =
      lift-Ends _
        (described status_text "failed to get browser config"
          (o.get_config_object config.browser_config_ref s).0)
        (o.get_config_object config.browser_config_ref s).1
        (λ c s1. lift-Ends _ (described status_text "failed to get politeness config" _) _ (λ p s3.
          deref-Ends _ _ s3 (λ bc s4.
            lift-Ends _ (wrapping "failed to load scripts" (o.get_scripts bc s4).0)
              (o.get_scripts bc s4).1 (λ all s5. ends _ _))))

  prepared-Ends : (s : State W) → Ends (prepared o status_text phs s)
  unfolding prepared
  prepared-Ends s =
      deref-Ends _ _ _ (λ config s1. then_run-Ends _ _ (prepare-Ends config s1) (λ x s2. ends _ _))

  start_browser-Ends : (s : State W) → Ends (start_browser o status_text phs s)
  unfolding start_browser
  start_browser-Ends s =
      lift-Ends _ (wrapping "failed to start browser" (o.get_version s).0) (o.get_version s).1
        (λ v s'. ends _ _)

  module _ (measure : State W → ℕ) (bound : ℕ) (bounded : (s : State W) → measure s ≤ bound)
      (falls : (how : Resolve) (scripts : List (String × ConfigObject)) (next next' : String)
          (m m' : Dict) (s s' : State W)
        → turn (execute o.browser how) o.browser.wait scripts phs.queued_uri.annotation next m s
          ≡ continue next' m' s'
        → next' ≢ ""
        → measure s' < measure s) where
    load_result :
        (fuel : ℕ) (config : CrawlConfig) (c : BrowserConfig) (scripts : SessionScripts)
        (user_agent : String) (s : State W)
        → bound + 2 ≤ fuel
        → (r : Go RenderResult) × (s' : State W) × (load o status_text phs fuel config c scripts
              user_agent s
            ≡ some (r, s'))
    load_result fuel config c scripts user_agent s h =
        go (load o status_text phs fuel config c scripts user_agent s) (
          load-Ends o status_text phs measure bound bounded falls fuel config c scripts user_agent s
            h)
      where
        go :
            (b : Option (Go RenderResult × State W))
            → Ends b
            → (r : Go RenderResult) × (s' : State W) × (b ≡ some (r, s'))
        go b (ends r s') = (r, s', refl)

    with_allocator-Cleaned :
        (fuel : ℕ) (x : BrowserConfig × SessionScripts × CrawlConfig) (s s1 : State W)
        → bound + 2 ≤ fuel
        → prepared o status_text phs s ≡ some (ok x, s1)
        → (r : Go RenderResult) × (s' : State W) × (with_allocator o status_text phs fuel x.2 x.0
              x.1 s1
            ≡ some (r, s'))
          × Cleaned s s'
    unfolding with_allocator with_context
    with_allocator-Cleaned fuel (c, scripts, config) s s1 h e =
        go (start_browser o status_text phs (opened s1)) refl (start_browser-Ends (opened s1))
      where
        go :
            (b : Option (Go String × State W))
            → start_browser o status_text phs (opened s1) ≡ b
            → Ends b
            → (r : Go RenderResult) × (s' : State W) × (with_allocator o status_text phs fuel config
                  c scripts s1
                ≡ some (r, s'))
              × Cleaned s s'
        go b q (ends (fail x) t) = (
          unless_unclean t (fail x),
          cleaned t,
          rw (q, with_allocator, with_context) refl,
          not_started (c, scripts, config) s1 t (fail x) e q tt refl,
        )
        go b q (ends panic t) = (
          unless_unclean t panic,
          cleaned t,
          rw (q, with_allocator, with_context) refl,
          not_started (c, scripts, config) s1 t panic e q tt refl,
        )
        go b q (ends (ok user_agent) t) =
            let (r, t', e') =
              load_result fuel config c scripts user_agent
                (o.new_load_context c.page_load_timeout_ms t) h in
            (
              unless_unclean (o.load_cancel t') r,
              cleaned (o.load_cancel t'),
              rw (q, with_allocator, with_context, e') refl,
              loaded (c, scripts, config) s1 t' e refl,
            )

    -- If every turn of a chain of scripts that names a next script lowers a bounded measure of the
    -- state, then Fetch ends, with fuel for two more turns than the bound: with a result or an error,
    -- never with a panic. If the page could not be prepared, no browser was opened; else the browser's
    -- context is cancelled, then cleanWorkspace runs and then the allocator is cancelled, as the last
    -- things, and before them the context of the load unless the browser could not be started.
    pub fetch-Cleaned :
        (panic_text : String) (fuel : ℕ) (s : State W)
        → bound + 2 ≤ fuel
        → (r : Go RenderResult) × (s' : State W) × (fetch o status_text phs panic_text fuel s
            ≡ some (r, s'))
          × (r ≢ panic)
          × Cleaned s s'
    unfolding fetch body
    fetch-Cleaned panic_text fuel s h = go (prepared o status_text phs s) refl (prepared-Ends s)
      where
        after :
            (b : Option (Go RenderResult × State W)) (r : Go RenderResult) (s' : State W)
            → b ≡ some (r, s')
            → Cleaned s s'
            → (r' : Go RenderResult) × (s'' : State W) × (recover
                  (new_fetch_error (negsuc 4) "Runtime error" panic_text)
                  b
                ≡ some (r', s''))
              × (r' ≢ panic)
              × Cleaned s s''
        after b (ok a) s' e v = (ok a, s', rw (e, recover) refl, ok-ne-panic a, v)
        after b (fail x) s' e v = (fail x, s', rw (e, recover) refl, fail-ne-panic x, v)
        after b panic s' e v = (
          fail (new_fetch_error (negsuc 4) "Runtime error" panic_text),
          s',
          rw (e, recover) refl,
          fail-ne-panic _,
          v,
        )

        go :
            (b : Option (Go (BrowserConfig × SessionScripts × CrawlConfig) × State W))
            → prepared o status_text phs s ≡ b
            → Ends b
            → (r : Go RenderResult) × (s' : State W) × (fetch o status_text phs panic_text fuel s
                ≡ some (r, s'))
              × (r ≢ panic)
              × Cleaned s s'
        go b q (ends (ok x) s1) =
            let (r, s', e, v) = with_allocator-Cleaned fuel x s s1 h q in
            after (body o status_text phs fuel s) r s' (rw (q, body) e) v
        go b q (ends (fail x) s1) =
            after (body o status_text phs fuel s) (fail x) s1 (rw (q, body) refl)
              (not_opened (fail x) q tt)
        go b q (ends panic s1) =
            after (body o status_text phs fuel s) panic s1 (rw (q, body) refl)
              (not_opened panic q tt)
