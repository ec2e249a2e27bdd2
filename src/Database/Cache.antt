-- ===== src/Database/Cache.antt =====
-- database/cache.go: slices of config objects by key, for a time to live. Times are nanoseconds. The
-- mutex makes every method one step; the loop of `newCache` calls `purge` at times of its choice.
-- A nil slice is `none`.
pub mod Laws
use veidemann_browser_contro.Prelude.{
  ℕ, ◌+◌, String, Bool, not, Option, none, some, List, [], ◌∷◌, ◌==◌, ltb, lookup, insert, filter,
  if◌then◌else◌,
}

module _ {ℓ} (A : Type ℓ) where
  pub record Entry : Type ℓ where
    pub expires : ℕ
    pub configs : Option (List A)

  pub record Cache : Type ℓ where
    pub entries : List (String × Entry)
    pub ttl : ℕ

module _ {ℓ} {A : Type ℓ} where
  unfoldable pub new_cache : ℕ → Cache A
  new_cache ttl = record { entries = []; ttl = ttl }

  unfoldable pub purge : Cache A → ℕ → Cache A
  purge c now = record c { entries = filter (λ e. not (ltb (e.1).expires now)) c.entries }

  -- SetMany
  unfoldable pub set_many : Cache A → ℕ → String → Option (List A) → Cache A
  set_many c now key values = if c.ttl == 0 then c else record c {
    entries = insert key (record { expires = now + c.ttl; configs = values }) c.entries;
  }

  -- Set
  unfoldable pub set_one : Cache A → ℕ → String → A → Cache A
  unfolding set_many
  set_one c now key value = set_many c now key (some (value ∷ []))

  unexpired : Option (Entry A) → ℕ → Option (List A)
  unexpired none now = none
  unexpired (some e) now = if ltb now e.expires then e.configs else none

  -- GetMany
  unfoldable pub get_many : Cache A → ℕ → String → Option (List A)
  unfolding unexpired
  get_many c now key = if c.ttl == 0 then none else unexpired (lookup key c.entries) now

  first : Option (List A) → Option A
  first none = none
  first (some []) = none
  first (some (x ∷ xs)) = some x

  -- Get
  unfoldable pub get_one : Cache A → ℕ → String → Option A
  unfolding first get_many
  get_one c now key = first (get_many c now key)
