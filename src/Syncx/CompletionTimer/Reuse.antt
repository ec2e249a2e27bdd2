-- ===== src/Syncx/CompletionTimer/Reuse.antt =====
-- A second wait on a timer, after Reset.
use veidemann_browser_contro.Prelude.{ℕ, ◌+◌, ◌≡◌, true, false, none, some, arith}
use veidemann_browser_contro.Syncx.WaitGroup.{cancelled}
use veidemann_browser_contro.Syncx.CompletionTimer.{
  CompletionTimer, done_chan_closed, returned, begin_wait, notify, reset, wake, IsReady, closed,
}

-- Reset keeps the closed channel of a timer that a notification completed: a new wait on it whose
-- check fails at first is ready at once to return Cancelled, though nobody cancelled, and a
-- notification that finds the check passed panics.
pub reset_after_success :
    (t : CompletionTimer) (now later : ℕ)
    → t.done ≡ 1
    → t.done_chan ≡ true
    → let u = (begin_wait (reset t).0 now false).0 in
      IsReady u now done_chan_closed
      × ((wake u done_chan_closed).1 ≡ returned (some cancelled))
      × (notify u later true ≡ none)
unfolding begin_wait reset wake notify
reset_after_success t now later d c = (closed c, ground arith, ground arith)

-- A timer that neither completed by a notification nor was cancelled is reset for a new wait: the
-- number of notifications is handed over and starts again at 0, and the new wait begins as on a
-- timer that was not used.
pub reset_unfinished :
    (t : CompletionTimer) (now : ℕ)
    → t.done ≡ 0
    → t.done_chan ≡ false
    → let u = begin_wait (reset t).0 now false in
      ((reset t).1 ≡ t.notify_count)
      × (u.0.notify_count ≡ 0)
      × (u.0.done ≡ 0)
      × (u.0.done_chan ≡ false)
      × (u.0.idle_timer ≡ some (now + t.max_idle_time))
      × (u.0.wait_timer ≡ some (now + t.max_total_time))
unfolding begin_wait reset
reset_unfinished t now d c = ground arith
