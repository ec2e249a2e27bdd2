-- ===== src/Registry/Take.antt =====
-- GetNextAvailable of session/registry.go.
use veidemann_browser_contro.Prelude.{
  ℕ, ◌+◌, ◌<◌, ◌≡◌, refl, inl, inr, true, none, some, List, [], ◌∷◌, ltb, length, length-set,
  get_elem?, get_elem?-set_self, set, arith, some_inj, subst,
}
use veidemann_browser_contro.Errors.{Go, ok, fail, panic, GoError, Go-cases}
use veidemann_browser_contro.Registry.Slots.{
  occupied-set, free_of_occupied, count_sessions-set, ids-set, Inv,
}
use veidemann_browser_contro.Registry.{
  next_slot, Registry, Call, returns, blocks, panics, take_slot, get_next_available,
}

module _ {S : Type 0} (id_of : S → ℕ) (new : ℕ → Go S)
    (new-id : (i : ℕ) (s : S) → new i ≡ ok s → id_of s ≡ i) where
  -- What a call of GetNextAvailable leaves behind.
  pub data Taken (r : Registry S) (lost : List ℕ) : Call (Go S × Registry S) → Type 0 where
    took :
        (s : S) (r' : Registry S)
        → Inv id_of r' lost
        → get_elem? r.sessions (id_of s) ≡ some none
        → get_elem? r'.sessions (id_of s) ≡ some (some s)
        → Taken r lost (returns (ok s, r'))
    lost_slot :
        (e : GoError) (i : ℕ) (r' : Registry S)
        → Inv id_of r' (i ∷ lost)
        → Taken r lost (returns (fail e, r'))
    waits : r.pool ≡ [] → Taken r lost blocks
    broken : (i : ℕ) → new i ≡ panic → Taken r lost panics

  pub took_slot-Inv :
      (r : Registry S) (lost : List ℕ) (i : ℕ) (rest : List ℕ) (s : S)
      → Inv id_of r lost
      → r.pool ≡ i ∷ rest
      → id_of s ≡ i
      → i < length r.sessions
      → Inv id_of
          (record r { pool = rest; wg = r.wg + 1; sessions = set r.sessions i (some s) })
          lost
  took_slot-Inv r lost i rest s v e q lt = record {
    size = omega (arith, length-set r.sessions i (some s), v.size);
    slots = λ j. ground (arith, v.slots j, v.slots i, occupied-set r.sessions i j (some s) lt);
    total = ground (arith, v.total, v.slots i, count_sessions-set r.sessions i (some s) lt);
    waiting = ground (arith, v.slots i, v.waiting, count_sessions-set r.sessions i (some s) lt);
    ids =
        ids-set id_of r.sessions i (some s) lt (λ s' e'. subst (λ x. id_of x ≡ i) (some_inj e') q)
          v.ids;
  }

  pub lost_slot-Inv :
      (r : Registry S) (lost : List ℕ) (i : ℕ) (rest : List ℕ)
      → Inv id_of r lost
      → r.pool ≡ i ∷ rest
      → Inv id_of (record r { pool = rest }) (i ∷ lost)
  lost_slot-Inv r lost i rest v e = record {
    size = v.size;
    slots = λ j. ground (arith, v.slots j);
    total = ground (arith, v.total);
    waiting = v.waiting;
    ids = v.ids;
  }

  pub slot_is_free :
      (r : Registry S) (lost : List ℕ) (i : ℕ) (rest : List ℕ)
      → Inv id_of r lost
      → r.pool ≡ i ∷ rest
      → (i < length r.sessions) × (get_elem? r.sessions i ≡ some none)
  slot_is_free r lost i rest v e =
      let lt : i < length r.sessions = ground (arith, v.slots i, v.size) in
      (lt, free_of_occupied r.sessions i lt (ground (arith, v.slots i)))

  -- GetNextAvailable on a well-formed registry blocks only on an empty pool and panics only if the
  -- making of the session does. It hands out a session whose place was free and is now its own,
  -- and keeps the registry well-formed; if the session cannot be made, its id is lost for good.
  pub get_next_available-Taken :
      (r : Registry S) (lost : List ℕ) → Inv id_of r lost → Taken r lost (get_next_available new r)
  unfolding get_next_available
  get_next_available-Taken r lost v = go r.pool refl
    where
      taken :
          (i : ℕ) (rest : List ℕ) (s : S)
          → r.pool ≡ i ∷ rest
          → new i ≡ ok s
          → Taken r lost (take_slot new r i rest)
      taken i rest s e made =
          let (lt, free) = slot_is_free r lost i rest v e in
          let q = new-id i s made in
          let inside : ltb i (length r.sessions) ≡ true = ground arith in
          rw (made, take_slot)
            (rw inside (
              took s _ (took_slot-Inv r lost i rest s v e q lt) (rw q free)
                (rw q (get_elem?-set_self r.sessions i (some s) lt))))

      go : (p : List ℕ) → r.pool ≡ p → Taken r lost (next_slot new r p)
      go [] e = waits e
      go (i ∷ rest) e = elim (Go-cases (new i)) [
        | inl (s, made) ↦ taken i rest s e made
        | inr (inl (x, made)) ↦
            rw (made, take_slot) (lost_slot x i _ (lost_slot-Inv r lost i rest v e))
        | inr (inr made) ↦ rw (made, take_slot) (broken i made)
      ]
