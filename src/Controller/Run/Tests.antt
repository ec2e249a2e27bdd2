-- ===== src/Controller/Run/Tests.antt =====
-- Run with two places for sessions that are numbers: a page is fetched, Shutdown is called, and the page
-- ends while Run waits in CloseWait.
use veidemann_browser_contro.Prelude.{
  false, ℕ, ◌≡◌, ◌≢◌, ◌↔◌, refl, ◌⊎◌, none, some, List, [], ◌∷◌, arith,
}
use veidemann_browser_contro.Errors.{Go, ok, eof, wrap}
use veidemann_browser_contro.Registry.{
  Registry, CloseWait, all_finished, release, new_registry, upwards, get_next_available,
}
use veidemann_browser_contro.Registry.Holding.{Holds}
use veidemann_browser_contro.Controller
use veidemann_browser_contro.Controller.{started, fetch_page, fetched, no_session, is_canceled}
use veidemann_browser_contro.Controller.Run.{
  closed, closes, shutdown, shutdown_sent, Run, closing, cancelled, run_started, take_done, got,
  start_page, end_page, next_point, Step, takes_done, goes_on, gets, gets_page, page_ends,
  shuts_down, shutdown_sends, server_fails, server_sends, server_cancels, Reach, begins, next,
}
use veidemann_browser_contro.Controller.Run.Ends.{
  Reach-Holds, page_ends_lem, CloseWait-iff, cancelled_lem,
}
use veidemann_browser_contro.Controller.Run.Finished.{closed-none}

abbrev itself : ℕ → ℕ
itself i = i

abbrev new : ℕ → Go ℕ
new i = ok i

new-id : (i s : ℕ) → new i ≡ ok s → itself s ≡ i
new-id i s e = cc

abbrev fresh : Registry ℕ
fresh = record { sessions = none ∷ none ∷ none ∷ []; pool = 1 ∷ 2 ∷ []; capacity = 2; wg = 0 }

abbrev one_taken : Registry ℕ
one_taken = record { sessions = none ∷ some 1 ∷ none ∷ []; pool = 2 ∷ []; capacity = 2; wg = 1 }

abbrev fetching : Run ℕ
unfolding start_page fetch_page got started run_started
fetching =
    start_page itself 1
      (got (ok 1, one_taken) (record (run_started fresh) { point = Controller.Run.taking }))

abbrev stopping : Run ℕ
unfolding fetching take_done
stopping = take_done none (record fetching { done = some none; shutdowns = 0 })

fetching-Reach : Reach itself new 3 fetching
unfolding run_started started got start_page fetch_page new_registry upwards get_next_available
fetching-Reach =
    next
      (next (next (begins fresh refl) (goes_on refl refl refl)) (gets (ok 1) one_taken refl refl))
      (gets_page 1 refl)

Reach-Holds_example : (lost : List ℕ) × Holds itself one_taken lost (1 ∷ [])
unfolding fetching
Reach-Holds_example = Reach-Holds itself new new-id 3 fetching-Reach

page_ends_lem_example :
    (r : Registry ℕ) × Step itself new fetching (end_page itself [] 1 [] r fetching)
unfolding fetching
page_ends_lem_example = page_ends_lem itself new new-id 3 fetching [] 1 [] fetching-Reach refl

stopping-Reach : Reach itself new 3 stopping
unfolding stopping shutdown shutdown_sent
stopping-Reach =
    next (next (next fetching-Reach shuts_down) (shutdown_sends (omega arith) refl))
      (takes_done none refl refl)

CloseWait-iff_example : CloseWait stopping.registry false ↔ (stopping.pages ≡ [])
unfolding stopping
CloseWait-iff_example = CloseWait-iff itself new new-id 3 stopping none stopping-Reach refl

-- The page has ended, and then Run.
abbrev over : Run ℕ
unfolding stopping end_page fetched
over = record (end_page itself [] 1 [] (record fresh { pool = 2 ∷ 1 ∷ [] }) stopping) {
  point = closed false none;
}

over-Reach : Reach itself new 3 over
unfolding over release
over-Reach =
    next (next stopping-Reach (page_ends [] 1 [] _ refl refl))
      (closes false none refl (all_finished refl))

closed-none_example : over.pages ≡ []
unfolding over
closed-none_example = closed-none itself new new-id 3 none over-Reach refl

abbrev cut_off : Run ℕ
unfolding run_started
cut_off = record (run_started fresh) {
  server = cancelled;
  done = some (some (wrap "API server stopped" eof));
}

cut_off-Reach : Reach itself new 3 cut_off
unfolding cut_off new_registry upwards
cut_off-Reach =
    next (next (next (begins fresh refl) (server_fails eof refl)) (server_sends eof refl refl))
      (server_cancels refl)

cancelled_lem_example : (cut_off.done ≢ none) ⊎ (cut_off.loop.returned ≢ none)
unfolding cut_off
cancelled_lem_example = cancelled_lem itself new new-id 3 cut_off cut_off-Reach refl
