-- ===== src/Syncx/WaitGroup.antt =====
-- syncx/waitgroup.go: a wait group that can be cancelled, over atomic words and channels.
-- A channel that is only ever closed is a Boolean, and closing it twice is a panic.
pub mod Threads
pub mod Safety
use veidemann_browser_contro.Prelude.{
  ℕ, zero, suc, ◌+◌, ◌-◌, ◌%◌, ◌^◌, ◌≡◌, Bool, true, false, ◌&&◌, Option, none, some, ◌==◌,
  if◌then◌else◌,
}

-- The errors of the package, declared in syncx/completiontimer.go.
pub data WaitError : Type 0 where
  idle_timeout exceeded_max_time cancelled : WaitError

pub record WaitGroup : Type 0 where
  -- int32, as its 32-bit pattern
  pub counter : ℕ
  pub done : Bool
  pub cancel : Bool
  -- 0: nobody has waited, 1: somebody waits, 2: done is being closed, or closed
  pub state : ℕ

-- NewWaitGroup; the context is handed to `wait` when it looks at it.
unfoldable pub new_wait_group : WaitGroup
new_wait_group = record { counter = 0; done = false; cancel = false; state = 0 }

-- atomic.AddInt32, which wraps around.
unfoldable pub add_counter : WaitGroup → ℕ → WaitGroup
add_counter wg delta = record wg { counter = (wg.counter + delta) % 2 ^ 32 }

-- atomic.CompareAndSwapInt32(&wg.state, old, new), with its result.
unfoldable pub compare_and_swap_state : WaitGroup → ℕ → ℕ → WaitGroup × Bool
compare_and_swap_state wg old new =
    if wg.state == old then (record wg { state = new }, true) else (wg, false)

-- close(wg.done); none is the panic on a closed channel.
unfoldable pub close_done : WaitGroup → Option WaitGroup
close_done wg = if wg.done then none else some (record wg { done = true })

close_if_swapped : WaitGroup × Bool → Option WaitGroup
unfolding close_done
close_if_swapped (wg, swapped) = if swapped then close_done wg else some wg

-- Add of a delta, given as its 32-bit pattern.
unfoldable pub add : WaitGroup → ℕ → Option WaitGroup
unfolding add_counter compare_and_swap_state close_if_swapped
add wg delta =
    let n = add_counter wg delta in
    if n.counter == 0 then close_if_swapped (compare_and_swap_state n 1 2) else some n

-- wg.Add(-1)
unfoldable pub done : WaitGroup → Option WaitGroup
unfolding add
done wg = add wg (2 ^ 32 - 1)

-- The part of Wait above its select: `true` if it returns nil at once.
unfoldable pub wait_begin : WaitGroup → WaitGroup × Bool
unfolding compare_and_swap_state
wait_begin wg = let w = (compare_and_swap_state wg 0 1).0 in (w, w.counter == 0)

-- The select of Wait: the outcomes of the channels that are ready.
pub data Selects (wg : WaitGroup) (context_done : Bool) : Option WaitError → Type 0 where
  deadline : context_done ≡ true → Selects wg context_done (some exceeded_max_time)
  completed : wg.done ≡ true → Selects wg context_done none
  stopped : wg.cancel ≡ true → Selects wg context_done (some cancelled)

-- Cancel; none is the panic of a second call.
unfoldable pub cancel_wait : WaitGroup → Option WaitGroup
cancel_wait wg = if wg.cancel then none else some (record wg { cancel = true })

-- A run of calls of Done by one goroutine.
unfoldable pub done_times : ℕ → WaitGroup → Option WaitGroup
unfolding done
done_times zero wg = some wg
done_times (suc n) wg = elim (done wg) [ none ↦ none | some w ↦ done_times n w ]
