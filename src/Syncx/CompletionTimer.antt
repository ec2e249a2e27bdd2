-- ===== src/Syncx/CompletionTimer.antt =====
-- syncx/completiontimer.go: waiting for a check to pass, with an idle and a total deadline. Times
-- are nanoseconds; the results of `check` and the clock are arguments of the calls that read them.
pub mod Waiting
pub mod Reuse
use veidemann_browser_contro.Prelude.{
  ℕ, ◌+◌, ◌%◌, ◌^◌, ◌≤◌, ◌≡◌, Bool, true, false, Option, none, some, ◌==◌, ltb, if◌then◌else◌,
}
use veidemann_browser_contro.Syncx.WaitGroup.{WaitError, idle_timeout, exceeded_max_time, cancelled}

pub record CompletionTimer : Type 0 where
  pub max_idle_time : ℕ
  pub max_total_time : ℕ
  pub last_check_result : Bool
  -- when the running timers fire
  pub wait_timer : Option ℕ
  pub idle_timer : Option ℕ
  pub idle_deadline : ℕ
  -- the channel doneChan, closed or not
  pub done_chan : Bool
  pub started : Bool
  -- 0: not done, 1: success, 2: cancel
  pub done : ℕ
  -- int32
  pub notify_count : ℕ

unfoldable pub new_completion_timer : ℕ → ℕ → CompletionTimer
new_completion_timer max_idle_time max_total_time = record {
  max_idle_time = max_idle_time;
  max_total_time = max_total_time;
  last_check_result = false;
  wait_timer = none;
  idle_timer = none;
  idle_deadline = 0;
  done_chan = false;
  started = false;
  done = 0;
  notify_count = 0;
}

-- CompareAndSwapInt32(&t.done, 0, value), and the close of doneChan if it swapped; none is the
-- panic on a closed channel.
unfoldable pub finish : CompletionTimer → ℕ → Option CompletionTimer
finish t value =
    if t.done == 0
    then (if t.done_chan then none else some (record t { done = value; done_chan = true }))
    else some t

check_started : CompletionTimer → Bool → Option CompletionTimer
unfolding finish
check_started t check =
    let u = record t { last_check_result = check } in if check then finish u 1 else some u

-- Notify at time `now`, where check() would return `check`.
unfoldable pub notify : CompletionTimer → ℕ → Bool → Option CompletionTimer
unfolding check_started
notify t now check =
    let u = record t {
      notify_count = (t.notify_count + 1) % 2 ^ 32;
      idle_deadline = now + t.max_idle_time;
    } in
    if t.started then check_started u check else some u

unfoldable pub cancel : CompletionTimer → Option CompletionTimer
unfolding finish
cancel t = finish t 2

-- Reset, with the number of notifications since the last one.
unfoldable pub reset : CompletionTimer → CompletionTimer × ℕ
reset t = (
  record t { done = if t.done == 1 then 0 else t.done; started = false; notify_count = 0 },
  t.notify_count,
)

-- A wait goes on, or has returned nil or an error.
pub data Wait : Type 0 where
  waiting : Wait
  returned : Option WaitError → Wait

-- WaitForCompletion down to its loop.
unfoldable pub begin_wait : CompletionTimer → ℕ → Bool → CompletionTimer × Wait
begin_wait t now check = if check then (record t { last_check_result = true }, returned none) else (
  record t {
    last_check_result = false;
    wait_timer = some (now + t.max_total_time);
    idle_deadline = now + t.max_idle_time;
    idle_timer = some (now + t.max_idle_time);
    started = true;
  },
  waiting,
)

-- What the select of the loop received, with the time and the check's result.
pub data Wakeup : Type 0 where
  wait_timer_fired : Bool → Wakeup
  idle_timer_fired : ℕ → Bool → Wakeup
  done_chan_closed : Wakeup

-- One round of the loop. A new idle timer fires at the present deadline.
unfoldable pub wake : CompletionTimer → Wakeup → CompletionTimer × Wait
wake t (wait_timer_fired check) = (
  record t { last_check_result = check },
  returned (if check then none else some exceeded_max_time),
)
wake t (idle_timer_fired now check) =
    let u = record t { last_check_result = check } in
    if check
    then (u, returned none)
    else if ltb t.idle_deadline now
    then (u, returned (some idle_timeout))
    else (record u { idle_timer = some t.idle_deadline }, waiting)
wake t done_chan_closed = (t, returned (if t.done == 1 then none else some cancelled))

-- The select receives from a channel that is ready: from a timer once its time has come.
pub data IsReady (t : CompletionTimer) (now : ℕ) : Wakeup → Type 0 where
  wait_elapsed :
      (at : ℕ) (check : Bool)
      → t.wait_timer ≡ some at
      → at ≤ now
      → IsReady t now (wait_timer_fired check)
  idle_elapsed :
      (at : ℕ) (check : Bool)
      → t.idle_timer ≡ some at
      → at ≤ now
      → IsReady t now (idle_timer_fired now check)
  closed : t.done_chan ≡ true → IsReady t now done_chan_closed
