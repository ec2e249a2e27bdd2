-- ===== src/Registry/Tests.antt =====
-- A registry with two places for sessions that are numbers, and stand for themselves.
use veidemann_browser_contro.Prelude.{
  ℕ, ◌+◌, ◌≡◌, refl, zero, suc, none, some, [], ◌∷◌, get_elem?, arith,
}
use veidemann_browser_contro.Errors.{Go, ok}
use veidemann_browser_contro.Registry.{
  Registry, returns, new_registry, count_sessions, upwards, get_next_available, release,
}
use veidemann_browser_contro.Registry.Slots.{count, occupied, is_id, Inv, new_registry-Inv}
use veidemann_browser_contro.Registry.Take.{Taken, get_next_available-Taken}
use veidemann_browser_contro.Registry.Release.{release-Inv}

abbrev itself : ℕ → ℕ
itself i = i

abbrev new : ℕ → Go ℕ
new i = ok i

new-id : (i s : ℕ) → new i ≡ ok s → itself s ≡ i
new-id i s e = cc

abbrev fresh : Registry ℕ
fresh = record { sessions = none ∷ none ∷ none ∷ []; pool = 1 ∷ 2 ∷ []; capacity = 2; wg = 0 }

fresh_lem : new_registry 3 ≡ some fresh
unfolding new_registry upwards
fresh_lem = refl

fresh-Inv : Inv itself fresh []
fresh-Inv = new_registry-Inv itself 3 fresh fresh_lem

get_next_available-Taken_example : Taken itself new new-id fresh [] (get_next_available new fresh)
get_next_available-Taken_example = get_next_available-Taken itself new new-id fresh [] fresh-Inv

abbrev taken : Registry ℕ
taken = record { sessions = none ∷ some 1 ∷ none ∷ []; pool = 2 ∷ []; capacity = 2; wg = 1 }

taken_slots : (i : ℕ) → count i taken.pool + occupied taken.sessions i + count i [] ≡ is_id 2 i
taken_slots zero = refl
taken_slots (suc zero) = refl
taken_slots (suc (suc zero)) = refl
taken_slots (suc (suc (suc i))) = ground arith

taken_ids : (i s : ℕ) → get_elem? taken.sessions i ≡ some (some s) → itself s ≡ i
taken_ids zero s e = cc
taken_ids (suc zero) s e = ground arith
taken_ids (suc (suc zero)) s e = cc
taken_ids (suc (suc (suc i))) s e = cc

taken-Inv : Inv itself taken []
unfolding count_sessions
taken-Inv = record {
  size = refl;
  slots = taken_slots;
  total = refl;
  waiting = refl;
  ids = taken_ids;
}

released-Inv :
    (r' : Registry ℕ) × (release itself taken 1 ≡ returns r')
    × Inv itself r' []
    × (r'.pool ≡ 2 ∷ 1 ∷ [])
    × (get_elem? r'.sessions 1 ≡ some none)
released-Inv = release-Inv itself taken [] 1 taken-Inv refl
