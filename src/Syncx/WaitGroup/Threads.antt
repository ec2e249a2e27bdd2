-- ===== src/Syncx/WaitGroup/Threads.antt =====
-- The goroutines of syncx/waitgroup.go as interleavings of their atomic actions. Goroutines at the
-- same place behave alike, so a state counts how many stand at each place.
use veidemann_browser_contro.Prelude.{ℕ, suc, ◌≡◌, ◌≢◌, Bool, true, false, none, some}
use veidemann_browser_contro.Syncx.WaitGroup.{
  WaitGroup, WaitError, new_wait_group, add_counter, compare_and_swap_state, close_done,
  cancel_wait, Selects,
}

pub record Threads : Type 0 where
  pub wg : WaitGroup
  -- in Add, between AddInt32 with the result 0 and the swap of the state
  pub swapping : ℕ
  -- in Add, between a successful swap and the close of the channel
  pub closing : ℕ
  -- in Wait, between the swap of the state and the load of the counter
  pub loading : ℕ
  -- in the select of Wait
  pub blocked : ℕ
  -- left Wait by its first return, or by the closed channel
  pub returned : ℕ

unfoldable pub start : Threads
unfolding new_wait_group
start = record {
  wg = new_wait_group;
  swapping = 0;
  closing = 0;
  loading = 0;
  blocked = 0;
  returned = 0;
}

-- One atomic action of one goroutine.
pub data Step (s : Threads) : Threads → Type 0 where
  -- Add: AddInt32
  adds :
      (delta : ℕ)
      → (add_counter s.wg delta).counter ≢ 0
      → Step s (record s { wg = add_counter s.wg delta })
  adds_to_zero :
      (delta : ℕ)
      → (add_counter s.wg delta).counter ≡ 0
      → Step s (record s { wg = add_counter s.wg delta; swapping = suc s.swapping })
  -- Add: CompareAndSwapInt32(&wg.state, 1, 2)
  swaps :
      (n : ℕ)
      → s.swapping ≡ suc n
      → (compare_and_swap_state s.wg 1 2).1 ≡ true
      → Step s (record s {
        wg = (compare_and_swap_state s.wg 1 2).0;
        swapping = n;
        closing = suc s.closing;
      })
  swap_fails :
      (n : ℕ)
      → s.swapping ≡ suc n
      → (compare_and_swap_state s.wg 1 2).1 ≡ false
      → Step s (record s { swapping = n })
  -- Add: close(wg.done)
  closes :
      (n : ℕ) (w : WaitGroup)
      → s.closing ≡ suc n
      → close_done s.wg ≡ some w
      → Step s (record s { wg = w; closing = n })
  -- Wait: CompareAndSwapInt32(&wg.state, 0, 1)
  begins : Step s (record s { wg = (compare_and_swap_state s.wg 0 1).0; loading = suc s.loading })
  -- Wait: LoadInt32(&wg.counter)
  finds_zero :
      (n : ℕ)
      → s.loading ≡ suc n
      → s.wg.counter ≡ 0
      → Step s (record s { loading = n; returned = suc s.returned })
  blocks :
      (n : ℕ)
      → s.loading ≡ suc n
      → s.wg.counter ≢ 0
      → Step s (record s { loading = n; blocked = suc s.blocked })
  -- Wait: the select, for any state of the context
  wakes :
      (n : ℕ) (context_done : Bool)
      → s.blocked ≡ suc n
      → Selects s.wg context_done none
      → Step s (record s { blocked = n; returned = suc s.returned })
  gives_up :
      (n : ℕ) (context_done : Bool) (e : WaitError)
      → s.blocked ≡ suc n
      → Selects s.wg context_done (some e)
      → Step s (record s { blocked = n })
  -- Cancel
  cancels : (w : WaitGroup) → cancel_wait s.wg ≡ some w → Step s (record s { wg = w })

pub data Reach : Threads → Type 0 where
  here : Reach start
  next : {s t : Threads} → Reach s → Step s t → Reach t
