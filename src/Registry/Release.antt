-- ===== src/Registry/Release.antt =====
-- Release of session/registry.go.
use veidemann_browser_contro.Prelude.{
  ℕ, ◌-◌, ◌<◌, ◌≡◌, refl, ap, none, some, List, [], ◌∷◌, ◌++◌, length, length-append, length-set,
  get_elem?, get_elem?-set_self, set, arith,
}
use veidemann_browser_contro.Registry.Slots.{
  occupied, occupied_at, occupied-set, lt_of_occupied, count-append, count_sessions-set, ids-set,
  Inv,
}
use veidemann_browser_contro.Registry.{Registry, returns, release}

module _ {S : Type 0} (id_of : S → ℕ) where
  -- Release of a session that stands in a well-formed registry neither panics nor blocks: it frees the
  -- place, puts the id at the end of the pool and keeps the registry well-formed.
  pub release-Inv :
      (r : Registry S) (lost : List ℕ) (s : S)
      → Inv id_of r lost
      → get_elem? r.sessions (id_of s) ≡ some (some s)
      → (r' : Registry S) × (release id_of r s ≡ returns r')
        × Inv id_of r' lost
        × (r'.pool ≡ r.pool ++ id_of s ∷ [])
        × (get_elem? r'.sessions (id_of s) ≡ some none)
  unfolding release
  release-Inv r lost s v held =
      let i = id_of s in
      let lt = lt_of_occupied r.sessions i s held in
      let one : occupied r.sessions i ≡ 1 = ap occupied_at held in
      let fewer = count_sessions-set r.sessions i none lt in
      let new : Registry S = record r {
        sessions = set r.sessions i none;
        wg = r.wg - 1;
        pool = r.pool ++ i ∷ [];
      } in
      let size' : length r.pool < r.capacity = omega (arith, one, fewer, v.total) in
      let positive : 0 < r.wg = omega (arith, one, fewer, v.waiting) in
      (
        new,
        ground arith,
        record {
          size = omega (arith, length-set r.sessions i none, v.size);
          slots = λ j. ground (
            arith,
            v.slots j,
            one,
            count-append j r.pool (i ∷ []),
            occupied-set r.sessions i j none lt,
          );
          total = ground (arith, v.total, one, fewer, length-append r.pool (i ∷ []));
          waiting = ground (arith, v.waiting, one, fewer);
          ids = ids-set id_of r.sessions i none lt (λ s' e. cc) v.ids;
        },
        refl,
        get_elem?-set_self r.sessions i none lt,
      )
