-- ===== src/Database/Cache/Laws.antt =====
-- What database/cache.go promises: values live for the time to live, and purging is invisible.
use veidemann_browser_contro.Prelude.{
  subst, ◌<◌, ◌⊎◌, inl, inr, Bool, Bool-cases, ℕ, ◌+◌, ◌≤◌, ◌≡◌, refl, String, none, some, Option,
  List, [], ◌∷◌, ◌==◌, ltb, str_eq, lookup, insert, lookup-insert, if◌then◌else◌, eq_iff, arith,
  filter, not,
}
use veidemann_browser_contro.Database.Cache.{Entry, Cache, purge, set_many, get_many}

module _ {ℓ} {A : Type ℓ} where
  -- A read after a write of the cache: of the key just written it finds the values until the time to
  -- live has passed, and nothing from then on; of another key it finds what it found before. With a
  -- time to live of 0 every read finds nothing.
  pub get_many-set_many :
      (c : Cache A) (now later : ℕ) (key other : String) (values : Option (List A))
      → get_many (set_many c now key values) later other ≡ (
          if c.ttl == 0
          then none
          else if str_eq key other
          then (if ltb later (now + c.ttl) then values else none)
          else get_many c later other)
  unfolding get_many set_many
  get_many-set_many c now later key other values = ground (
    arith,
    lookup-insert key other (record { expires = now + c.ttl; configs = values }) c.entries,
  )

  -- A Go map has an entry for a key once.
  abbrev pub IsMap : List (String × Entry A) → Type ℓ
  IsMap [] = Unit
  IsMap ((k, e) ∷ m) = (lookup k m ≡ none) × IsMap m

  insert-IsMap :
      (k : String) (e : Entry A) (m : List (String × Entry A)) → IsMap m → IsMap (insert k e m)
  unfolding lookup insert
  insert-IsMap k e [] h = (refl, tt)
  insert-IsMap k e ((j, v) ∷ m) h =
      ground (arith, eq_iff j k, eq_iff k j, lookup-insert k j e m, insert-IsMap k e m h.1)

  -- Writing keeps each key once.
  pub set_many-IsMap :
      (c : Cache A) (now : ℕ) (key : String) (values : Option (List A))
      → IsMap c.entries
      → IsMap (set_many c now key values).entries
  unfolding set_many
  set_many-IsMap c now key values h =
      ground
        (arith, insert-IsMap key (record { expires = now + c.ttl; configs = values }) c.entries h)

  abbrev kept : ℕ → String × Entry A → Bool
  kept now e = not (ltb (e.1).expires now)

  lookup-filter-none :
      (k : String) (now : ℕ) (m : List (String × Entry A))
      → lookup k m ≡ none
      → lookup k (filter (kept now) m) ≡ none
  unfolding lookup
  lookup-filter-none k now [] h = refl
  lookup-filter-none k now ((j, e) ∷ m) h = ground (arith, eq_iff j k, lookup-filter-none k now m)

  -- After a purge a key has the entry that it had, unless that has expired.
  lookup-filter :
      (k : String) (now : ℕ) (m : List (String × Entry A))
      → IsMap m
      → (lookup k (filter (kept now) m) ≡ lookup k m)
        ⊎ ((e : Entry A) × (lookup k m ≡ some e)
            × (e.expires < now)
            × (lookup k (filter (kept now) m) ≡ none))
  unfolding lookup
  lookup-filter k now [] h = inl refl
  lookup-filter k now ((j, e) ∷ m) h = elim (Bool-cases (str_eq j k)) [
    | inl same ↦
        let gone =
          lookup-filter-none k now m (subst (λ s. lookup s m ≡ none) ((eq_iff j k).0 same) h.0) in
        elim (Bool-cases (ltb e.expires now)) [
          | inl old ↦ inr (e, ground arith, ground arith, ground arith)
          | inr new ↦ inl (ground arith)
        ]
    | inr differ ↦ elim (lookup-filter k now m h.1) [
      | inl same ↦ inl (ground arith)
      | inr (x, found, old, gone) ↦ inr (x, ground arith, old, ground arith)
    ]
  ]

  -- A purge is invisible: whatever is read at its time or later, is read as if there had been none.
  pub get_many-purge :
      (c : Cache A) (now later : ℕ) (key : String)
      → IsMap c.entries
      → now ≤ later
      → get_many (purge c now) later key ≡ get_many c later key
  unfolding get_many purge
  get_many-purge c now later key h le = ground (arith, lookup-filter key now c.entries h)
