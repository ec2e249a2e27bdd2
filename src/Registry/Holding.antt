-- ===== src/Registry/Holding.antt =====
-- The sessions that were taken from session/registry.go and not released yet.
use veidemann_browser_contro.Prelude.{
  ℕ, zero, suc, ◌+◌, ◌-◌, ◌<◌, ◌≡◌, refl, sym, ap, ◌∙◌, subst, inl, inr, true, Option, none, some,
  List, [], ◌∷◌, ◌++◌, ◌==◌, ltb, length, length-append, get_elem?, get_elem?-set_self,
  get_elem?-set_ne, set, map, All, if◌then◌else◌, arith, some_inj,
}
use veidemann_browser_contro.Errors.{Go, ok, fail, panic, Go-cases}
use veidemann_browser_contro.Registry.{
  Registry, Call, returns, blocks, panics, new_registry, get_next_available, next_slot, take_slot,
  release, count_sessions,
}
use veidemann_browser_contro.Registry.Slots.{
  count, occupied, occupied_at, occupied-replicate, occupied-set, lt_of_occupied, Inv,
  new_registry-Inv,
}
use veidemann_browser_contro.Registry.Take.{took_slot-Inv, lost_slot-Inv, slot_is_free}
use veidemann_browser_contro.Registry.Release.{release-Inv}

module _ {S : Type 0} (id_of : S → ℕ) where
  abbrev pub ids_of : List S → List ℕ
  ids_of xs = map id_of xs

  abbrev Own : List (Option S) → S → Type 0
  Own sessions s = get_elem? sessions (id_of s) ≡ some (some s)

  -- Each of these sessions stands in the registry at its id, no other does, and the wait group counts
  -- them.
  pub record Holds (r : Registry S) (lost : List ℕ) (xs : List S) : Type 0 where
    pub inv : Inv id_of r lost
    pub own : All (λ s. get_elem? r.sessions (id_of s) ≡ some (some s)) xs
    pub exact : (i : ℕ) → count i (ids_of xs) ≡ occupied r.sessions i
    pub number : r.wg ≡ length xs

  Own-set :
      (sessions : List (Option S)) (i : ℕ) (o : Option S) (xs : List S)
      → count i (ids_of xs) ≡ 0
      → All (Own sessions) xs
      → All (Own (set sessions i o)) xs
  Own-set sessions i o [] e h = tt
  Own-set sessions i o (x ∷ xs) e h = (
    get_elem?-set_ne sessions i (id_of x) o (λ q. ground arith) ∙ h.0,
    Own-set sessions i o xs (ground arith) h.1,
  )

  -- A new registry holds nothing.
  pub new_registry-Holds :
      (max_sessions : ℕ) (r : Registry S) → new_registry max_sessions ≡ some r → Holds r [] []
  unfolding new_registry count_sessions
  new_registry-Holds zero r e = cc
  new_registry-Holds (suc n) r e =
      subst (λ r'. Holds r' [] []) (some_inj e)
        (record {
          inv = new_registry-Inv id_of (suc n) _ refl;
          own = tt;
          exact = λ i. sym (occupied-replicate S (suc n) i);
          number = refl;
        })

  All-middle :
      (P : S → Type 0) (before : List S) (s : S) (after : List S)
      → All P (before ++ s ∷ after)
      → P s × All P (before ++ after)
  All-middle P [] s after h = h
  All-middle P (x ∷ before) s after h =
      let (at, rest) = All-middle P before s after h.1 in (at, (h.0, rest))

  count-middle :
      (i : ℕ) (before : List S) (s : S) (after : List S)
      → count i (ids_of (before ++ s ∷ after))
        ≡ (if id_of s == i then 1 else 0) + count i (ids_of (before ++ after))
  count-middle i [] s after = refl
  count-middle i (x ∷ before) s after = omega (arith, count-middle i before s after)

  release_result :
      (r : Registry S) (s : S) (r' : Registry S)
      → release id_of r s ≡ returns r'
      → (r'.sessions ≡ set r.sessions (id_of s) none) × (r'.wg ≡ r.wg - 1) × (0 < r.wg)
  unfolding release
  release_result r s r' e = ground arith

  released-exact :
      (sessions : List (Option S)) (before : List S) (s : S) (after : List S)
      → id_of s < length sessions
      → occupied sessions (id_of s) ≡ 1
      → ((i : ℕ) → count i (ids_of (before ++ s ∷ after)) ≡ occupied sessions i)
      → (i : ℕ) → count i (ids_of (before ++ after)) ≡ occupied (set sessions (id_of s) none) i
  released-exact sessions before s after lt one h i =
      ground (arith, h i, count-middle i before s after, occupied-set sessions (id_of s) i none lt)

  released-number :
      (n : ℕ) (before : List S) (s : S) (after : List S)
      → n ≡ length (before ++ s ∷ after)
      → n - 1 ≡ length (before ++ after)
  released-number n before s after e =
      omega (arith, length-append before (s ∷ after), length-append before after)

  -- A session that is held can be released, whichever it is, and the others stay held.
  pub release-Holds :
      (r : Registry S) (lost : List ℕ) (before : List S) (s : S) (after : List S)
      → Holds r lost (before ++ s ∷ after)
      → (r' : Registry S) × (release id_of r s ≡ returns r') × Holds r' lost (before ++ after)
  release-Holds r lost before s after h =
      let (held, others) = All-middle (Own r.sessions) before s after h.own in
      let (r', e, v, pool, free) = release-Inv id_of r lost s h.inv held in
      let lt = lt_of_occupied r.sessions (id_of s) s held in
      let one : occupied r.sessions (id_of s) ≡ 1 = ap occupied_at held in
      let (sessions, wg, _) = release_result r s r' e in
      let exact = released-exact r.sessions before s after lt one h.exact in
      let gone : count (id_of s) (ids_of (before ++ after)) ≡ 0 =
        ground (arith, h.exact (id_of s), count-middle (id_of s) before s after) in
      (
        r',
        e,
        record {
          inv = v;
          own =
              subst (λ t. All (Own t) (before ++ after)) (sym sessions)
                (Own-set r.sessions (id_of s) none (before ++ after) gone others);
          exact = λ i. exact i ∙ ap (λ t. occupied t i) (sym sessions);
          number = wg ∙ released-number r.wg before s after h.number;
        },
      )

  returns_inj : {a b : Registry S} → returns a ≡ returns b → a ≡ b
  returns_inj e = cc

  pub released-Holds :
      (r : Registry S) (lost : List ℕ) (before : List S) (s : S) (after : List S) (r' : Registry S)
      → Holds r lost (before ++ s ∷ after)
      → release id_of r s ≡ returns r'
      → Holds r' lost (before ++ after)
  released-Holds r lost before s after r' h e =
      let (r'', e', h') = release-Holds r lost before s after h in
      subst (λ t. Holds t lost (before ++ after)) (returns_inj (sym e' ∙ e)) h'

  module _ (new : ℕ → Go S) (new-id : (i : ℕ) (s : S) → new i ≡ ok s → id_of s ≡ i) where
    -- What a call of GetNextAvailable that returns leaves held.
    abbrev pub HoldsAfter : List ℕ → List S → Go S → Registry S → Type 0
    HoldsAfter lost xs (ok s) r' = Holds r' lost (s ∷ xs)
    HoldsAfter lost xs (fail e) r' = (i : ℕ) × Holds r' (i ∷ lost) xs
    HoldsAfter lost xs panic r' = ⊥

    taken-Holds :
        (r : Registry S) (lost : List ℕ) (xs : List S) (i : ℕ) (rest : List ℕ) (s : S)
        → Holds r lost xs
        → r.pool ≡ i ∷ rest
        → id_of s ≡ i
        → Holds
            (record r { pool = rest; wg = r.wg + 1; sessions = set r.sessions i (some s) })
            lost
            (s ∷ xs)
    taken-Holds r lost xs i rest s h e q =
        let (lt, free) = slot_is_free id_of new new-id r lost i rest h.inv e in
        let none_held : count i (ids_of xs) ≡ 0 = h.exact i ∙ ap occupied_at free in
        record {
          inv = took_slot-Inv id_of new new-id r lost i rest s h.inv e q lt;
          own = (
            rw q (get_elem?-set_self r.sessions i (some s) lt),
            Own-set r.sessions i (some s) xs none_held h.own,
          );
          exact = λ j. ground (arith, h.exact j, occupied-set r.sessions i j (some s) lt);
          number = omega (arith, h.number);
        }

    abbrev Leaves : List ℕ → List S → Call (Go S × Registry S) → Type 0
    Leaves lost xs (returns (result, r')) = HoldsAfter lost xs result r'
    Leaves lost xs blocks = Unit
    Leaves lost xs panics = Unit

    failed-Holds :
        (r : Registry S) (lost : List ℕ) (xs : List S) (i : ℕ) (rest : List ℕ)
        → Holds r lost xs
        → r.pool ≡ i ∷ rest
        → Holds (record r { pool = rest }) (i ∷ lost) xs
    failed-Holds r lost xs i rest h e = record {
      inv = lost_slot-Inv id_of new new-id r lost i rest h.inv e;
      own = h.own;
      exact = h.exact;
      number = h.number;
    }

    take_slot-Leaves :
        (r : Registry S) (lost : List ℕ) (xs : List S) (i : ℕ) (rest : List ℕ)
        → Holds r lost xs
        → r.pool ≡ i ∷ rest
        → Leaves lost xs (take_slot new r i rest)
    unfolding take_slot
    take_slot-Leaves r lost xs i rest h e =
        let (lt, free) = slot_is_free id_of new new-id r lost i rest h.inv e in
        let inside : ltb i (length r.sessions) ≡ true = ground arith in
        elim (Go-cases (new i)) [
          | inl (s, made) ↦
              rw (made, take_slot)
                (rw inside (taken-Holds r lost xs i rest s h e (new-id i s made)))
          | inr (inl (x, made)) ↦ rw (made, take_slot) (i, failed-Holds r lost xs i rest h e)
          | inr (inr made) ↦ rw (made, take_slot) tt
        ]

    next_slot-Leaves :
        (r : Registry S) (lost : List ℕ) (xs : List S) (pool : List ℕ)
        → Holds r lost xs
        → r.pool ≡ pool
        → Leaves lost xs (next_slot new r pool)
    unfolding next_slot
    next_slot-Leaves r lost xs [] h e = tt
    next_slot-Leaves r lost xs (i ∷ rest) h e = take_slot-Leaves r lost xs i rest h e

    -- GetNextAvailable adds the session that it hands out to those that are held; if it gives an error,
    -- they stay the same and an id is lost.
    pub get_next_available-Holds :
        (r : Registry S) (lost : List ℕ) (xs : List S) (result : Go S) (r' : Registry S)
        → Holds r lost xs
        → get_next_available new r ≡ returns (result, r')
        → HoldsAfter lost xs result r'
    unfolding get_next_available
    get_next_available-Holds r lost xs result r' h e =
        subst (Leaves lost xs) e (next_slot-Leaves r lost xs r.pool h refl)
