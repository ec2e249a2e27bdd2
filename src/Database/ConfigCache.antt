-- ===== src/Database/ConfigCache.antt =====
-- database/dbadapter.go: config objects and scripts, read through the cache. The database is an
-- argument, since its answers may differ from call to call.
pub mod Reads
use Prim.Native.Char.{code}
use Prim.Native.String.{◌++◌ as append_text}
use veidemann_browser_contro.Prelude.{
  ℕ, String, Option, none, some, List, [], ◌∷◌, ◌++◌, get_elem?, ◌==◌, if◌then◌else◌,
}
use veidemann_browser_contro.Errors.{Go, ok, fail, panic, wrap, wrapping}
use veidemann_browser_contro.Config.{ConfigRef, ConfigObject, BrowserConfig}
use veidemann_browser_contro.Database.Cache.{Cache, get_one, get_many, set_one, set_many}

-- configV1.Label
pub record Label : Type 0 where
  pub key : String
  pub value : String

-- The interface DbAdapter; a nil slice is `none`.
pub record DbAdapter : Type 0 where
  pub get_config_object : ConfigRef → Go ConfigObject
  -- for the kind browserScript, the only one asked for
  pub get_configs_for_selector : Label → Go (Option (List ConfigObject))

abbrev pub ConfigCache : Type 0
ConfigCache = Cache ConfigObject

-- A call that reads and writes the cache; what it wrote stays when it fails.
abbrev pub M : Type 0 → Type 0
M A = ConfigCache → Go A × ConfigCache

abbrev pub then_run : {A B : Type 0} → (A → M B) → Go A → M B
then_run f (ok a) c = f a c
then_run f (fail e) c = (fail e, c)
then_run f panic c = (panic, c)

infixl 5 ◌>>=◌
abbrev pub ◌>>=◌ : {A B : Type 0} → M A → (A → M B) → M B
◌>>=◌ m f c = let (r, c') = m c in then_run f r c'

abbrev pub lift : {A : Type 0} → Go A → M A
lift r c = (r, c)

-- `if err != nil { return nil, fmt.Errorf("text: %w", err) }`
abbrev pub annotated : {A : Type 0} → String → M A → M A
annotated text m c = let (r, c') = m c in (wrapping text r, c')

-- GetConfigObject at time `now`.
unfoldable pub get_config_object : DbAdapter → ℕ → ConfigRef → M ConfigObject
get_config_object db now ref c = elim (get_one c now ref.id) [
  | some cached ↦ (ok cached, c)
  | none ↦
      (do
        result ← lift (db.get_config_object ref)
        λ c'. (ok result, set_one c' now result.id result))
        c
]

-- strings.Split(s, ":")
prepend : String → List String → List String
prepend s [] = s ∷ []
prepend s (t ∷ ts) = append_text s t ∷ ts

unfoldable pub split_colon : String → List String
unfolding prepend
split_colon String.[] = "" ∷ []
split_colon (String.◌∷◌ c s) =
    if code c == b':' then "" ∷ split_colon s else prepend (String.◌∷◌ c String.[]) (split_colon s)

-- t[0] and t[1]; an index out of range is a panic.
unfoldable pub label_of : List String → Go Label
label_of (key ∷ value ∷ rest) = ok (record { key = key; value = value })
label_of _ = panic

-- getConfigsForSelector
unfoldable pub get_configs_for_selector : DbAdapter → ℕ → String → M (Option (List ConfigObject))
get_configs_for_selector db now selector c = elim (get_many c now selector) [
  | some cached ↦ (ok (some cached), c)
  | none ↦
      (do
        label ← lift (label_of (split_colon selector))
        res ← lift (db.get_configs_for_selector label)
        λ c'. (ok res, set_many c' now selector res))
        c
]

abbrev pub elements : Option (List ConfigObject) → List ConfigObject
elements none = []
elements (some xs) = xs

-- The two loops of GetScripts append what each key gives, and stop at the first error.
unfoldable pub gather : {K : Type 0} → (K → M (List ConfigObject)) → List K → M (List ConfigObject)
gather get [] = lift (ok [])
gather get (k ∷ ks) = do xs ← get k; ys ← gather get ks; lift (ok (xs ++ ys))

-- The text of the error names the reference by its id alone.
unfoldable pub script_of_ref : DbAdapter → ℕ → ConfigRef → M (List ConfigObject)
unfolding get_config_object
script_of_ref db now ref = do
  s ←
      annotated (append_text "failed to get script by reference " ref.id)
        (get_config_object db now ref)
  lift (ok (s ∷ []))

unfoldable pub scripts_of_selector : DbAdapter → ℕ → String → M (List ConfigObject)
unfolding get_configs_for_selector
scripts_of_selector db now selector = do
  s ←
      annotated (append_text "failed to get scripts by selector " selector)
        (get_configs_for_selector db now selector)
  lift (ok (elements s))

-- GetScripts
unfoldable pub get_scripts : DbAdapter → ℕ → BrowserConfig → M (List ConfigObject)
unfolding gather script_of_ref scripts_of_selector
get_scripts db now config = do
  by_ref ← gather (script_of_ref db now) config.script_ref
  by_selector ← gather (scripts_of_selector db now) config.script_selector
  lift (ok (by_ref ++ by_selector))
