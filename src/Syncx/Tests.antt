-- ===== src/Syncx/Tests.antt =====
-- Tests of syncx, and the theorems applied to small schedules.
use veidemann_browser_contro.Prelude.{
  ◌+◌, ◌-◌, ◌<◌, ◌≤◌, ◌≡◌, refl, ◌≢◌, ◌⊎◌, Bool, true, false, none, some, arith,
}
use veidemann_browser_contro.Syncx.WaitGroup.{
  WaitGroup, exceeded_max_time, cancelled, new_wait_group, add, done, done_times, Selects,
  close_done, add_counter, compare_and_swap_state,
}
use veidemann_browser_contro.Syncx.WaitGroup.Threads.{Threads, start, Step, Reach}
use veidemann_browser_contro.Syncx.WaitGroup.Safety.{
  close_done-ne-none, no_lost_wakeup, done_times-closes,
}
use veidemann_browser_contro.Syncx.CompletionTimer.{
  CompletionTimer, new_completion_timer, begin_wait, notify, wake, reset, cancel, returned,
  wait_timer_fired, done_chan_closed, IsReady, closed,
}
use veidemann_browser_contro.Syncx.CompletionTimer.Waiting.{
  IsFresh, Waits, notify-ne-none, wake_idle, wake_total, wake_done,
}
use veidemann_browser_contro.Syncx.CompletionTimer.Reuse.{reset_after_success, reset_unfinished}

-- One load starts, one goroutine waits, and the load ends.
abbrev one_wait : WaitGroup
one_wait = record { counter = 1; done = false; cancel = false; state = 1 }

add-done : add new_wait_group 1 ≡ some (record one_wait { state = 0 })
unfolding add new_wait_group
add-done = refl

done-one_wait : done one_wait ≡ some (record one_wait { counter = 0; done = true; state = 2 })
unfolding done
done-one_wait = refl

abbrev blocked_threads : Threads
blocked_threads = record {
  wg = one_wait;
  swapping = 0;
  closing = 0;
  loading = 0;
  blocked = 1;
  returned = 0;
}

blocked-Reach : Reach blocked_threads
unfolding start add_counter compare_and_swap_state
blocked-Reach =
    Reach.next (Reach.next (Reach.next Reach.here (Step.adds 1 (ground arith))) Step.begins)
      (Step.blocks 0 refl (ground arith))

abbrev closing_threads : Threads
closing_threads = record blocked_threads {
  wg = record one_wait { counter = 0; state = 2 };
  closing = 1;
}

closing-Reach : Reach closing_threads
unfolding add_counter compare_and_swap_state
closing-Reach =
    Reach.next (Reach.next blocked-Reach (Step.adds_to_zero 4294967295 refl))
      (Step.swaps 0 refl refl)

close_done-ne-none_example : (close_done closing_threads.wg ≢ none) × (closing_threads.closing ≡ 1)
close_done-ne-none_example = close_done-ne-none closing-Reach (omega arith)

closed-Reach : Reach (record closing_threads {
  wg = record one_wait { counter = 0; state = 2; done = true };
  closing = 0;
})
unfolding close_done
closed-Reach = Reach.next closing-Reach (Step.closes 0 _ refl refl)

no_lost_wakeup_example :
    Selects (record one_wait { counter = 0; state = 2; done = true }) false none
no_lost_wakeup_example = no_lost_wakeup closed-Reach (omega arith) refl refl refl false

abbrev three_loads : WaitGroup
three_loads = record one_wait { counter = 3 }

three_loads_done :
    (done_times 2 three_loads ≡ some (record three_loads { counter = 3 - 2 }))
    × (done_times 3 three_loads ≡ some (record three_loads { counter = 0; done = true; state = 2 }))
three_loads_done = done_times-closes 2 2 three_loads refl refl refl (omega arith) (omega arith)

-- A timer with an idle time of 10 and a total time of 100, waiting since 5, notified at 8.
abbrev fresh_timer : CompletionTimer
unfolding new_completion_timer
fresh_timer = new_completion_timer 10 100

fresh_timer-IsFresh : IsFresh fresh_timer
unfolding new_completion_timer
fresh_timer-IsFresh = record { not_done = refl; open_channel = refl }

abbrev waiting_timer : CompletionTimer
waiting_timer = record fresh_timer {
  wait_timer = some 105;
  idle_deadline = 18;
  idle_timer = some 15;
  started = true;
  notify_count = 1;
}

timer-Waits : Waits fresh_timer 5 waiting_timer 8 8 false false
unfolding new_completion_timer begin_wait notify
timer-Waits = Waits.notified (Waits.began refl) (omega arith) refl

notify-ne-none_example : (notify waiting_timer 9 true ≢ none) × (cancel waiting_timer ≢ none)
notify-ne-none_example = notify-ne-none fresh_timer-IsFresh timer-Waits 9 true

idle_is_over : (5 + 10 < 19) × (8 + 10 < 19) × (◌≡◌ {A = Bool} false false)
unfolding new_completion_timer wake
idle_is_over =
    wake_idle fresh_timer-IsFresh timer-Waits (record waiting_timer { last_check_result = false })
      19 false refl

total_time_is_over :
    (IsReady waiting_timer 105 (wait_timer_fired false) → 5 + fresh_timer.max_total_time ≤ 105)
    × (5 + fresh_timer.max_total_time ≤ 105 → IsReady waiting_timer 105 (wait_timer_fired false))
    × ((wake waiting_timer (wait_timer_fired false)).1 ≡ returned (some exceeded_max_time))
total_time_is_over = wake_total fresh_timer-IsFresh timer-Waits 105 false

abbrev completed_timer : CompletionTimer
completed_timer = record waiting_timer {
  last_check_result = true;
  idle_deadline = 19;
  notify_count = 2;
  done = 1;
  done_chan = true;
}

timer_completed : Waits fresh_timer 5 completed_timer 9 9 true false
unfolding new_completion_timer notify
timer_completed = Waits.notified_done timer-Waits (omega arith) refl

done_is_over :
    (((wake completed_timer done_chan_closed).1 ≡ returned none) × (◌≡◌ {A = Bool} true true))
    ⊎ (((wake completed_timer done_chan_closed).1 ≡ returned (some cancelled))
        × (◌≡◌ {A = Bool} false true))
done_is_over = wake_done fresh_timer-IsFresh timer_completed 9 (closed refl)

reset_after_success_example :
    let u = (begin_wait (reset completed_timer).0 20 false).0 in
    IsReady u 20 done_chan_closed
    × ((wake u done_chan_closed).1 ≡ returned (some cancelled))
    × (notify u 21 true ≡ none)
reset_after_success_example = reset_after_success completed_timer 20 21 refl refl

waits_anew :
    let u = begin_wait (reset waiting_timer).0 20 false in
    ((reset waiting_timer).1 ≡ waiting_timer.notify_count)
    × (u.0.notify_count ≡ 0)
    × (u.0.done ≡ 0)
    × (u.0.done_chan ≡ false)
    × (u.0.idle_timer ≡ some (20 + waiting_timer.max_idle_time))
    × (u.0.wait_timer ≡ some (20 + waiting_timer.max_total_time))
unfolding fresh_timer
waits_anew = reset_unfinished waiting_timer 20 refl refl
