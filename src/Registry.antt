-- ===== src/Registry.antt =====
-- session/registry.go: the sessions of the controller and the pool of their ids. The pool is a
-- buffered channel, first in first out; what a session is, and how one is made, are parameters here,
-- which Session instantiates.
mod Tests
pub mod Slots
pub mod Take
pub mod Release
pub mod Holding
use veidemann_browser_contro.Prelude.{
  Bool, true, ℕ, zero, suc, ◌+◌, ◌-◌, ◌≡◌, Bool, Option, none, some, List, [], ◌∷◌, ◌++◌, ◌==◌, ltb,
  length, get_elem?, set, replicate, if◌then◌else◌,
}
use veidemann_browser_contro.Errors.{Go, ok, fail, panic, GoError}

-- What a blocking call comes to.
pub data Call (A : Type 0) : Type 0 where
  returns : A → Call A
  blocks : Call A
  panics : Call A

pub record Registry (S : Type 0) : Type 0 where
  pub sessions : List (Option S)
  -- the buffer of the channel, and its size
  pub pool : List ℕ
  pub capacity : ℕ
  -- the counter of the sync.WaitGroup
  pub wg : ℕ

-- i, i + 1, …, n of them.
unfoldable pub upwards : ℕ → ℕ → List ℕ
upwards i zero = []
upwards i (suc n) = i ∷ upwards (suc i) n

-- The sessions of the slice that are not nil.
unfoldable pub count_sessions {ℓ} : {S : Type ℓ} → List (Option S) → ℕ
count_sessions [] = 0
count_sessions (none ∷ xs) = count_sessions xs
count_sessions (some s ∷ xs) = suc (count_sessions xs)

module _ {S : Type 0} where
  -- NewRegistry; a channel of negative size panics.
  unfoldable pub new_registry : ℕ → Option (Registry S)
  unfolding upwards
  new_registry zero = none
  new_registry (suc n) =
      some (record { sessions = replicate (suc n) none; pool = upwards 1 n; capacity = n; wg = 0 })

  -- MaxSessions and CurrentSessions
  unfoldable pub max_sessions : Registry S → ℕ
  max_sessions r = length r.sessions

  unfoldable pub current_sessions : Registry S → ℕ
  unfolding count_sessions
  current_sessions r = count_sessions r.sessions

  -- Get; an index out of range panics.
  unfoldable pub get : Registry S → ℕ → Go (Option S)
  get r i = elim (get_elem? r.sessions i) [ none ↦ panic | some s ↦ ok s ]

module _ {S : Type 0} (new : ℕ → Go S) where
  -- GetNextAvailable once an id is received, below the lock.
  unfoldable pub take_slot : Registry S → ℕ → List ℕ → Call (Go S × Registry S)
  take_slot r i rest = elim (new i) [
    | ok s ↦
        if ltb i (length r.sessions)
        then returns
            (ok s, record r { pool = rest; wg = r.wg + 1; sessions = set r.sessions i (some s) })
        else panics
    | fail e ↦ returns (fail e, record r { pool = rest })
    | panic ↦ panics
  ]

  unfoldable pub next_slot : Registry S → List ℕ → Call (Go S × Registry S)
  unfolding take_slot
  next_slot r [] = blocks
  next_slot r (i ∷ rest) = take_slot r i rest

  -- GetNextAvailable when its select does not take the context's end.
  unfoldable pub get_next_available : Registry S → Call (Go S × Registry S)
  unfolding next_slot
  get_next_available r = next_slot r r.pool

-- GetNextAvailable when its select takes the context's end.
unfoldable pub get_cancelled : {S : Type 0} → GoError → Registry S → Go S × Registry S
get_cancelled e r = (fail e, r)

-- That CloseWait can return: the counter of the wait group is 0, or its time-out has elapsed.
pub data CloseWait {S : Type 0} (r : Registry S) (elapsed : Bool) : Type 0 where
  all_finished : r.wg ≡ 0 → CloseWait r elapsed
  timed_out : elapsed ≡ true → CloseWait r elapsed

module _ {S : Type 0} (id_of : S → ℕ) where
  -- Release; a negative counter of the wait group panics, and a send to a full channel blocks.
  unfoldable pub release : Registry S → S → Call (Registry S)
  release r s =
      if ltb (id_of s) (length r.sessions)
      then if r.wg == 0
        then panics
        else if ltb (length r.pool) r.capacity
        then returns (record r {
          sessions = set r.sessions (id_of s) none;
          wg = r.wg - 1;
          pool = r.pool ++ id_of s ∷ [];
        })
        else blocks
      else panics
