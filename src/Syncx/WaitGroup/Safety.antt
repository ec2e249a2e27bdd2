-- ===== src/Syncx/WaitGroup/Safety.antt =====
-- What holds of syncx/waitgroup.go under every interleaving of its goroutines.
use veidemann_browser_contro.Prelude.{
  ◌∙◌, ℕ, zero, suc, ◌+◌, ◌-◌, ◌^◌, ◌≤◌, ◌<◌, ◌≡◌, refl, ◌≢◌, ◌⊎◌, inl, inr, Bool, true, false,
  Bool-cases, none, some, arith,
}
use veidemann_browser_contro.Syncx.WaitGroup.{
  WaitGroup, add_counter, compare_and_swap_state, close_done, cancel_wait, done, done_times,
  Selects, completed,
}
use veidemann_browser_contro.Syncx.WaitGroup.Threads.{Threads, start, Step, Reach}

pub record Inv (s : Threads) : Type 0 where
  pub small : s.wg.state ≤ 2
  pub open_channel : s.wg.done ≡ false → (s.wg.state ≢ 2) ⊎ (s.closing ≡ 1)
  pub closed_channel : s.wg.done ≡ true → (s.wg.state ≡ 2) × (s.closing ≡ 0)
  pub closer : 0 < s.closing → (s.wg.state ≡ 2) × (s.closing ≡ 1)
  pub waiter : 0 < s.loading + s.blocked → s.wg.state ≢ 0
  pub handover : 0 < s.blocked → s.wg.counter ≡ 0 → s.wg.state ≡ 1 → 0 < s.swapping

start-Inv : Inv start
unfolding start
start-Inv = ground arith

Step-Inv : {s t : Threads} → Step s t → Inv s → Inv t
unfolding add_counter compare_and_swap_state close_done cancel_wait
Step-Inv (Step.adds delta e) v = ground arith
Step-Inv (Step.adds_to_zero delta e) v = ground arith
Step-Inv (Step.swaps n e f) v = ground arith
Step-Inv (Step.swap_fails n e f) v = ground arith
Step-Inv (Step.closes n w e f) v = ground arith
Step-Inv Step.begins v = ground arith
Step-Inv (Step.finds_zero n e f) v = ground arith
Step-Inv (Step.blocks n e f) v = ground arith
Step-Inv (Step.wakes n c e f) v = ground arith
Step-Inv (Step.gives_up n c x e f) v = ground arith
Step-Inv (Step.cancels w e) v = ground arith

Reach-Inv : {s : Threads} → Reach s → Inv s
Reach-Inv Reach.here = start-Inv
Reach-Inv (Reach.next r st) = Step-Inv st (Reach-Inv r)

-- Under every interleaving of calls of Add, Done, Wait and Cancel, a goroutine that is about to
-- close the channel `done` finds it open, and no other goroutine is about to close it: the close
-- never panics.
pub close_done-ne-none :
    {s : Threads} → Reach s → 0 < s.closing → (close_done s.wg ≢ none) × (s.closing ≡ 1)
unfolding close_done
close_done-ne-none {s} r h = ground (arith, Reach-Inv r)

-- No wakeup is lost: whenever a goroutine is blocked in Wait while the counter is 0, and no Add is
-- still between its actions, the select of Wait can return nil, whatever the context.
pub no_lost_wakeup :
    {s : Threads}
    → Reach s
    → 0 < s.blocked
    → s.wg.counter ≡ 0
    → s.swapping ≡ 0
    → s.closing ≡ 0
    → (context_done : Bool) → Selects s.wg context_done none
no_lost_wakeup {s} r b c p q context_done = elim (Bool-cases s.wg.done) [
  | inl e ↦ completed e
  | inr e ↦ absurd (ground (arith, Reach-Inv r))
]

done_counter :
    (wg : WaitGroup) (n : ℕ)
    → wg.counter ≡ suc (suc n)
    → n + 2 < 2 ^ 32
    → done wg ≡ some (record wg { counter = suc n })
unfolding done
done_counter wg n e h = ground arith

done_last :
    (wg : WaitGroup)
    → wg.counter ≡ 1
    → wg.state ≡ 1
    → wg.done ≡ false
    → done wg ≡ some (record wg { counter = 0; done = true; state = 2 })
unfolding done
done_last wg e h d = ground arith

done_times-open :
    (k n : ℕ) (wg : WaitGroup)
    → wg.counter ≡ suc n
    → n + 1 < 2 ^ 32
    → k ≤ n
    → done_times k wg ≡ some (record wg { counter = suc n - k })
unfolding done_times
done_times-open zero n wg c h le = ground arith
done_times-open (suc k) zero wg c h le = absurd (omega arith)
done_times-open (suc k) (suc n) wg c h le =
    rw (done_counter wg n c (omega arith), done_times)
      (done_times-open k n (record wg { counter = suc n }) refl (omega arith) (omega arith)
        ∙ ground arith)

done_times-last :
    (n : ℕ) (wg : WaitGroup)
    → wg.counter ≡ suc n
    → wg.state ≡ 1
    → wg.done ≡ false
    → n + 1 < 2 ^ 32
    → done_times (suc n) wg ≡ some (record wg { counter = 0; done = true; state = 2 })
unfolding done_times
done_times-last zero wg c s d h = rw (done_last wg c s d, done_times)
done_times-last (suc n) wg c s d h =
    rw (done_counter wg n c (omega arith), done_times)
      (done_times-last n (record wg { counter = suc n }) refl s d (omega arith))

-- When a goroutine waits (state 1) for a counter of n + 1 below 2^32, k ≤ n calls of Done only lower
-- the counter by k and leave the channel open, and n + 1 calls close it, with the counter at 0; none
-- of them panics.
pub done_times-closes :
    (n k : ℕ) (wg : WaitGroup)
    → wg.counter ≡ suc n
    → wg.state ≡ 1
    → wg.done ≡ false
    → n + 1 < 2 ^ 32
    → k ≤ n
    → (done_times k wg ≡ some (record wg { counter = suc n - k }))
      × (done_times (suc n) wg ≡ some (record wg { counter = 0; done = true; state = 2 }))
done_times-closes n k wg c s d h le = (done_times-open k n wg c h le, done_times-last n wg c s d h)
