-- ===== src/Syncx/CompletionTimer/Waiting.antt =====
-- One call of WaitForCompletion, with notifications and cancellations from other goroutines.
use veidemann_browser_contro.Prelude.{
  ℕ, ◌+◌, ◌≤◌, ◌<◌, ◌≡◌, refl, ◌≢◌, ◌⊎◌, Bool, true, false, none, some, ◌||◌, arith, if◌then◌else◌,
}
use veidemann_browser_contro.Syncx.WaitGroup.{idle_timeout, exceeded_max_time, cancelled}
use veidemann_browser_contro.Syncx.CompletionTimer.{
  CompletionTimer, Wakeup, wait_timer_fired, idle_timer_fired, done_chan_closed, IsReady,
  wait_elapsed, closed, waiting, returned, begin_wait, notify, cancel, wake,
}

-- A timer that was not used before.
pub record IsFresh (t : CompletionTimer) : Type 0 where
  pub not_done : t.done ≡ 0
  pub open_channel : t.done_chan ≡ false

-- `Waits t₀ start checked stopped t now last`: the wait that began on t₀ at `start` still goes on at
-- `now`, with the timer at t and notifications received at `times`; `checked` tells that one of
-- these found the check passed, `stopped` that Cancel was called.
pub data Waits (t0 : CompletionTimer) (start : ℕ)
    : CompletionTimer → ℕ → ℕ → Bool → Bool → Type 0 where
  began :
      {t : CompletionTimer}
      → begin_wait t0 start false ≡ (t, waiting)
      → Waits t0 start t start start false false
  notified :
      {t u : CompletionTimer} {now later : ℕ} {last : ℕ} {checked stopped : Bool}
      → Waits t0 start t now last checked stopped
      → now ≤ later
      → notify t later false ≡ some u
      → Waits t0 start u later later checked stopped
  notified_done :
      {t u : CompletionTimer} {now later : ℕ} {last : ℕ} {checked stopped : Bool}
      → Waits t0 start t now last checked stopped
      → now ≤ later
      → notify t later true ≡ some u
      → Waits t0 start u later later true stopped
  stopped_by :
      {t u : CompletionTimer} {now : ℕ} {last : ℕ} {checked stopped : Bool}
      → Waits t0 start t now last checked stopped
      → cancel t ≡ some u
      → Waits t0 start u now last checked true
  woke :
      {t u : CompletionTimer} {now later : ℕ} {last : ℕ} {checked stopped : Bool} {w : Wakeup}
      → Waits t0 start t now last checked stopped
      → now ≤ later
      → IsReady t later w
      → wake t w ≡ (u, waiting)
      → Waits t0 start u later last checked stopped

pub record Inv (t0 : CompletionTimer) (start : ℕ) (t : CompletionTimer) (now : ℕ) (last : ℕ)
    (checked stopped : Bool) : Type 0 where
  pub idle : t.max_idle_time ≡ t0.max_idle_time
  pub running : t.started ≡ true
  pub total : t.wait_timer ≡ some (start + t0.max_total_time)
  pub order : (start ≤ last) × (last ≤ now)
  pub deadline : t.idle_deadline ≡ last + t0.max_idle_time
  pub consistent : (t.done_chan ≡ true) → (t.done ≡ 1) ⊎ (t.done ≡ 2)
  pub unset : (t.done_chan ≡ false) → t.done ≡ 0
  pub success : t.done ≡ 1 → checked ≡ true
  pub stop : t.done ≡ 2 → stopped ≡ true

notify-Inv :
    {t0 t u : CompletionTimer} {start now : ℕ} {last : ℕ} {checked stopped : Bool} (later : ℕ)
    (check : Bool)
    → notify t later check ≡ some u
    → now ≤ later
    → Inv t0 start t now last checked stopped
    → Inv t0 start u later later (check || checked) stopped
unfolding notify
notify-Inv later check e le v = ground arith

cancel-Inv :
    {t0 t u : CompletionTimer} {start now : ℕ} {last : ℕ} {checked stopped : Bool}
    → cancel t ≡ some u
    → Inv t0 start t now last checked stopped
    → Inv t0 start u now last checked true
unfolding cancel
cancel-Inv e v = ground arith

wake-Inv :
    {t0 t u : CompletionTimer} {start now : ℕ} {last : ℕ} {checked stopped : Bool} (w : Wakeup)
    (later : ℕ)
    → wake t w ≡ (u, waiting)
    → now ≤ later
    → Inv t0 start t now last checked stopped
    → Inv t0 start u later last checked stopped
unfolding wake
wake-Inv (wait_timer_fired c) later e le v = ground arith
wake-Inv (idle_timer_fired n c) later e le v = ground arith
wake-Inv done_chan_closed later e le v = ground arith

wait_of_ready :
    {t : CompletionTimer} {later : ℕ} {check : Bool}
    → IsReady t later (wait_timer_fired check)
    → (at : ℕ) × (t.wait_timer ≡ some at) × (at ≤ later)
wait_of_ready (wait_elapsed at check e le) = (at, e, le)

module _ {t0 : CompletionTimer} (fresh : IsFresh t0) {start : ℕ} where
  Waits-Inv :
      {t : CompletionTimer} {now : ℕ} {last : ℕ} {checked stopped : Bool}
      → Waits t0 start t now last checked stopped
      → Inv t0 start t now last checked stopped
  unfolding begin_wait
  Waits-Inv (began e) = ground arith
  Waits-Inv (notified {later = later} w le e) = notify-Inv later false e le (Waits-Inv w)
  Waits-Inv (notified_done {later = later} w le e) = notify-Inv later true e le (Waits-Inv w)
  Waits-Inv (stopped_by w e) = cancel-Inv e (Waits-Inv w)
  Waits-Inv (woke {later = later} {w = c} w le r e) = wake-Inv c later e le (Waits-Inv w)

  module _ {t : CompletionTimer} {now : ℕ} {last : ℕ} {checked stopped : Bool}
      (w : Waits t0 start t now last checked stopped) where
    -- While a timer that was fresh waits, Notify and Cancel never panic.
    pub notify-ne-none :
        (later : ℕ) (check : Bool) → (notify t later check ≢ none) × (cancel t ≢ none)
    unfolding notify cancel
    notify-ne-none later check = ground (arith, Waits-Inv w)

    -- A wait that ends with IdleTimeout has lasted longer than the idle time since it began and since
    -- the latest notification, and the check had not passed.
    pub wake_idle :
        (u : CompletionTimer) (later : ℕ) (check : Bool)
        → wake t (idle_timer_fired later check) ≡ (u, returned (some idle_timeout))
        → (start + t0.max_idle_time < later) × (last + t0.max_idle_time < later) × (check ≡ false)
    unfolding wake
    wake_idle u later check e = ground (arith, Waits-Inv w)

    -- A wait ends with ExceededMaxTime only once the total time has passed since it began, and from
    -- that time on the loop can always end: the timer is ready, and its round returns, with nil if
    -- the check passes and with ExceededMaxTime if not.
    pub wake_total :
        (later : ℕ) (check : Bool)
        → (IsReady t later (wait_timer_fired check) → start + t0.max_total_time ≤ later)
          × (start + t0.max_total_time ≤ later → IsReady t later (wait_timer_fired check))
          × ((wake t (wait_timer_fired check)).1
              ≡ returned (if check then none else some exceeded_max_time))
    unfolding wake
    wake_total later check = (
      λ r. ground (arith, Waits-Inv w, wait_of_ready r),
      λ h. wait_elapsed (start + t0.max_total_time) check (Waits-Inv w).total h,
      refl,
    )

    -- The closed channel ends a wait with nil only if a notification found the check passed, and
    -- with Cancelled only if Cancel was called; it ends every wait in one of these ways.
    pub wake_done :
        (later : ℕ)
        → IsReady t later done_chan_closed
        → (((wake t done_chan_closed).1 ≡ returned none) × (checked ≡ true))
          ⊎ (((wake t done_chan_closed).1 ≡ returned (some cancelled)) × (stopped ≡ true))
    unfolding wake
    wake_done later (closed e) = ground (arith, Waits-Inv w)
