-- ===== src/Database/ConfigCache/Reads.antt =====
-- database/dbadapter.go reads what the database holds: with the cache in between, every read has the
-- result that the same read has without it.
use Prim.Native.Char.{code}
use Prim.Native.String.{◌++◌ as append_text}
use veidemann_browser_contro.Prelude.{
  inl, inr, ℕ, ◌≡◌, refl, Bool, true, false, ◌||◌, String, Option, some, Option-cases, List, [],
  ◌∷◌, ◌++◌, All, ◌==◌, eq_iff, arith, sym, ap,
}
use veidemann_browser_contro.Errors
use veidemann_browser_contro.Errors.{Go, ok, fail, panic, wrapping, Go-cases}
use veidemann_browser_contro.Config.{ConfigRef, ConfigObject, BrowserConfig}
use veidemann_browser_contro.Database.Cache.{get_one, get_many, set_one, set_many}
use veidemann_browser_contro.Database.Cache.Laws.{get_many-set_many}
use veidemann_browser_contro.Database.ConfigCache.{
  DbAdapter, ConfigCache, M, then_run, split_colon, label_of, get_config_object,
  get_configs_for_selector, elements, gather, script_of_ref, scripts_of_selector, get_scripts,
}

-- Ids of config objects have no colon and selectors have one, so that the keys of the cache do not
-- collide.
unfoldable pub has_colon : String → Bool
has_colon String.[] = false
has_colon (String.◌∷◌ c s) = code c == b':' || has_colon s

-- What the database answers for a selector.
unfoldable pub fetch : DbAdapter → String → Go (Option (List ConfigObject))
fetch db selector = Errors.◌>>=◌ (label_of (split_colon selector)) db.get_configs_for_selector

-- The database answers with the object that was asked for.
pub record IsHonest (db : DbAdapter) : Type 0 where
  pub same_id :
      (ref : ConfigRef) (x : ConfigObject) → db.get_config_object ref ≡ ok x → x.id ≡ ref.id

-- What the cache holds agrees with the database.
pub record IsCoherent (db : DbAdapter) (c : ConfigCache) : Type 0 where
  pub objects :
      (now : ℕ) (ref : ConfigRef) (x : ConfigObject)
      → has_colon ref.id ≡ false
      → get_one c now ref.id ≡ some x
      → db.get_config_object ref ≡ ok x
  pub selections :
      (now : ℕ) (selector : String) (xs : List ConfigObject)
      → has_colon selector ≡ true
      → get_many c now selector ≡ some xs
      → fetch db selector ≡ ok (some xs)

abbrev Agrees : {A : Type 0} → DbAdapter → Go A × ConfigCache → Go A → Type 0
Agrees db r expected = (r.0 ≡ expected) × IsCoherent db r.1

same_ref : (a b : ConfigRef) → a.id ≡ b.id → a ≡ b
same_ref a b e = ground arith

set_one-IsCoherent :
    (db : DbAdapter) (c : ConfigCache) (now : ℕ) (ref : ConfigRef) (x : ConfigObject)
    → IsHonest db
    → IsCoherent db c
    → has_colon ref.id ≡ false
    → db.get_config_object ref ≡ ok x
    → IsCoherent db (set_one c now x.id x)
unfolding set_one get_one
set_one-IsCoherent db c now ref x honest h plain e = record {
  objects = λ later other y p q. ground (
    arith,
    get_many-set_many c now later x.id other.id (some (x ∷ [])),
    eq_iff x.id other.id,
    honest.same_id ref x e,
    h.objects later other y p,
    same_ref ref other,
  );
  selections = λ later selector ys p q. ground (
    arith,
    get_many-set_many c now later x.id selector (some (x ∷ [])),
    eq_iff x.id selector,
    honest.same_id ref x e,
    h.selections later selector ys p,
  );
}

set_many-IsCoherent :
    (db : DbAdapter) (c : ConfigCache) (now : ℕ) (selector : String)
    (res : Option (List ConfigObject))
    → IsCoherent db c
    → has_colon selector ≡ true
    → fetch db selector ≡ ok res
    → IsCoherent db (set_many c now selector res)
unfolding get_one
set_many-IsCoherent db c now selector res h colon e = record {
  objects = λ later other y p q. ground (
    arith,
    get_many-set_many c now later selector other.id res,
    eq_iff selector other.id,
    h.objects later other y p,
  );
  selections = λ later other ys p q. ground (
    arith,
    get_many-set_many c now later selector other res,
    eq_iff selector other,
    h.selections later other ys p,
  );
}

-- GetConfigObject through a cache that agrees with the database has the database's result, and
-- leaves a cache that agrees with it.
get_config_object-Agrees :
    (db : DbAdapter) (now : ℕ) (ref : ConfigRef) (c : ConfigCache)
    → IsHonest db
    → IsCoherent db c
    → has_colon ref.id ≡ false
    → Agrees db (get_config_object db now ref c) (db.get_config_object ref)
unfolding get_config_object
get_config_object-Agrees db now ref c honest h plain = elim (Option-cases (get_one c now ref.id)) [
  | inl miss ↦ elim (Go-cases (db.get_config_object ref)) [
    | inl (x, e) ↦
        rw (miss, get_config_object)
          (rw e (refl, set_one-IsCoherent db c now ref x honest h plain e))
    | inr (inl (x, e)) ↦ rw (miss, get_config_object) (rw e (refl, h))
    | inr (inr e) ↦ rw (miss, get_config_object) (rw e (refl, h))
  ]
  | inr (x, hit) ↦ rw (hit, get_config_object) (sym (h.objects now ref x plain hit), h)
]

get_configs_for_selector-Agrees :
    (db : DbAdapter) (now : ℕ) (selector : String) (c : ConfigCache)
    → IsCoherent db c
    → has_colon selector ≡ true
    → Agrees db (get_configs_for_selector db now selector c) (fetch db selector)
unfolding get_configs_for_selector fetch
get_configs_for_selector-Agrees db now selector c h colon =
    elim (Option-cases (get_many c now selector)) [
      | inl miss ↦ elim (Go-cases (label_of (split_colon selector))) [
        | inl (label, el) ↦ elim (Go-cases (db.get_configs_for_selector label)) [
          | inl (res, e) ↦
              rw (miss, get_configs_for_selector)
                (rw el (
                  rw e
                    (refl, set_many-IsCoherent db c now selector res h colon (rw (el, fetch) e))))
          | inr (inl (x, e)) ↦ rw (miss, get_configs_for_selector) (rw el (rw e (refl, h)))
          | inr (inr e) ↦ rw (miss, get_configs_for_selector) (rw el (rw e (refl, h)))
        ]
        | inr (inl (x, e)) ↦ rw (miss, get_configs_for_selector) (rw e (refl, h))
        | inr (inr e) ↦ rw (miss, get_configs_for_selector) (rw e (refl, h))
      ]
      | inr (xs, hit) ↦
          rw (hit, get_configs_for_selector) (sym (h.selections now selector xs colon hit), h)
    ]

-- GetScripts without a cache.
gather_direct : {K : Type 0} → (K → Go (List ConfigObject)) → List K → Go (List ConfigObject)
gather_direct get [] = ok []
gather_direct get (k ∷ ks) =
    Errors.◌>>=◌ (get k) λ xs. Errors.◌>>=◌ (gather_direct get ks) λ ys. ok (xs ++ ys)

ref_direct : DbAdapter → ConfigRef → Go (List ConfigObject)
ref_direct db ref =
    Errors.◌>>=◌
      (wrapping (append_text "failed to get script by reference " ref.id)
        (db.get_config_object ref))
      λ s. ok (s ∷ [])

selector_direct : DbAdapter → String → Go (List ConfigObject)
unfolding fetch
selector_direct db selector =
    Errors.◌>>=◌
      (wrapping (append_text "failed to get scripts by selector " selector) (fetch db selector))
      λ s. ok (elements s)

pub get_scripts_direct : DbAdapter → BrowserConfig → Go (List ConfigObject)
unfolding gather_direct ref_direct selector_direct
get_scripts_direct db config = Errors.◌>>=◌ (gather_direct (ref_direct db) config.script_ref) λ xs.
    Errors.◌>>=◌ (gather_direct (selector_direct db) config.script_selector) λ ys. ok (xs ++ ys)

-- A bind agrees where its parts do.
bind-Agrees :
    {A B : Type 0} (db : DbAdapter) (r d : Go A) (c : ConfigCache) (f : A → M B) (g : A → Go B)
    → r ≡ d
    → IsCoherent db c
    → ((a : A) (c' : ConfigCache) → IsCoherent db c' → Agrees db (f a c') (g a))
    → Agrees db (then_run f r c) (Errors.◌>>=◌ d g)
bind-Agrees db (ok a) d c f g e h step = rw (← e) (step a c h)
bind-Agrees db (fail x) d c f g e h step = rw (← e) (refl, h)
bind-Agrees db panic d c f g e h step = rw (← e) (refl, h)

gather-Agrees :
    {K : Type 0} (db : DbAdapter) (P : K → Type 0) (get : K → M (List ConfigObject))
    (direct : K → Go (List ConfigObject))
    → ((k : K) (c : ConfigCache) → P k → IsCoherent db c → Agrees db (get k c) (direct k))
    → (ks : List K) (c : ConfigCache) → All P ks
    → IsCoherent db c
    → Agrees db (gather get ks c) (gather_direct direct ks)
unfolding gather gather_direct
gather-Agrees db P get direct step [] c a h = (refl, h)
gather-Agrees db P get direct step (k ∷ ks) c a h =
    let (same, coherent) = step k c a.0 h in
    bind-Agrees db (get k c).0 (direct k) (get k c).1 _ _ same coherent λ xs c' h'.
      let (same', coherent') = gather-Agrees db P get direct step ks c' a.1 h' in
      bind-Agrees db (gather get ks c').0 (gather_direct direct ks) (gather get ks c').1 _ _ same'
        coherent' λ ys c'' h''. (refl, h'')

script_of_ref-Agrees :
    (db : DbAdapter) (now : ℕ)
    → IsHonest db
    → (ref : ConfigRef) (c : ConfigCache) → has_colon ref.id ≡ false
    → IsCoherent db c
    → Agrees db (script_of_ref db now ref c) (ref_direct db ref)
unfolding script_of_ref ref_direct
script_of_ref-Agrees db now honest ref c plain h =
    let (same, coherent) = get_config_object-Agrees db now ref c honest h plain in
    bind-Agrees db _ _ _ _ _ (ap (wrapping _) same) coherent λ x c' h'. (refl, h')

scripts_of_selector-Agrees :
    (db : DbAdapter) (now : ℕ) (selector : String) (c : ConfigCache)
    → has_colon selector ≡ true
    → IsCoherent db c
    → Agrees db (scripts_of_selector db now selector c) (selector_direct db selector)
unfolding scripts_of_selector selector_direct
scripts_of_selector-Agrees db now selector c colon h =
    let (same, coherent) = get_configs_for_selector-Agrees db now selector c h colon in
    bind-Agrees db _ _ _ _ _ (ap (wrapping _) same) coherent λ x c' h'. (refl, h')

-- GetScripts through a cache that agrees with an honest database gives what it would give without
-- the cache, the same error if there is one, and leaves a cache that agrees with the database, if the
-- ids of the script references have no colon and the selectors have one.
pub get_scripts-Agrees :
    (db : DbAdapter) (now : ℕ) (config : BrowserConfig) (c : ConfigCache)
    → IsHonest db
    → IsCoherent db c
    → All (λ ref. has_colon ref.id ≡ false) config.script_ref
    → All (λ selector. has_colon selector ≡ true) config.script_selector
    → ((get_scripts db now config c).0 ≡ get_scripts_direct db config)
      × IsCoherent db (get_scripts db now config c).1
unfolding get_scripts get_scripts_direct
get_scripts-Agrees db now config c honest h plain colon =
    let (same, coherent) =
      gather-Agrees db (λ ref. has_colon ref.id ≡ false) (script_of_ref db now) (ref_direct db)
        (script_of_ref-Agrees db now honest) config.script_ref c plain h in
    bind-Agrees db _ _ _ _ _ same coherent λ xs c' h'.
      let (same', coherent') =
        gather-Agrees db (λ s. has_colon s ≡ true) (scripts_of_selector db now) (selector_direct db)
          (scripts_of_selector-Agrees db now) config.script_selector c' colon h' in
      bind-Agrees db _ _ _ _ _ same' coherent' λ ys c'' h''. (refl, h'')
