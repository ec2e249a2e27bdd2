-- ===== src/Database/Tests.antt =====
-- The theorems on the database package at small inputs.
use veidemann_browser_contro.Prelude.{
  ℕ, ◌+◌, ◌≡◌, refl, none, some, [], ◌∷◌, lookup, ◌==◌, ltb, str_eq, if◌then◌else◌, arith,
}
use veidemann_browser_contro.Errors.{ok}
use veidemann_browser_contro.Config.{BrowserConfig, nil}
use veidemann_browser_contro.Database.Cache.{Cache, purge, set_many, get_many, get_one}
use veidemann_browser_contro.Database.Cache.Laws.{
  IsMap, get_many-set_many, set_many-IsMap, get_many-purge,
}
use veidemann_browser_contro.Database.ConfigCache.{DbAdapter, ConfigCache, get_scripts}
use veidemann_browser_contro.Database.ConfigCache.Reads.{
  IsHonest, IsCoherent, get_scripts_direct, has_colon, get_scripts-Agrees,
}
use veidemann_browser_contro.Database.Retry.{
  ExecResult, success, query_timeout, Retried, exec_with_retry,
}
use veidemann_browser_contro.Database.Retry.Bounds.{Ends, exec_with_retry-Ends}

-- One entry, which expires at 10.
abbrev one_entry : Cache ℕ
one_entry = record {
  ttl = 5;
  entries = ("a", record { expires = 10; configs = some (1 ∷ []) }) ∷ [];
}

one_entry-IsMap : IsMap one_entry.entries
unfolding lookup
one_entry-IsMap = (refl, tt)

set_then_got : get_many (set_many one_entry 7 "b" (some (2 ∷ []))) 11 "b" ≡ (
    if 5 == 0
    then none
    else if str_eq "b" "b"
    then (if ltb 11 (7 + 5) then some (2 ∷ []) else none)
    else get_many one_entry 11 "b")
set_then_got = get_many-set_many one_entry 7 11 "b" "b" (some (2 ∷ []))

one_entry_kept : IsMap (set_many one_entry 7 "a" (some (2 ∷ []))).entries
one_entry_kept = set_many-IsMap one_entry 7 "a" (some (2 ∷ [])) one_entry-IsMap

purged_lem : get_many (purge one_entry 11) 12 "a" ≡ get_many one_entry 12 "a"
purged_lem = get_many-purge one_entry 11 12 "a" one_entry-IsMap (omega arith)

-- A database that has every object, and no selection.
abbrev db : DbAdapter
db = record {
  get_config_object = λ ref. ok (record { id = ref.id; name = ""; annotation = []; spec = nil });
  get_configs_for_selector = λ label. ok none;
}

db-IsHonest : IsHonest db
db-IsHonest = record { same_id = λ ref x e. ground arith }

abbrev empty : ConfigCache
empty = record { ttl = 5; entries = [] }

empty-IsCoherent : IsCoherent db empty
unfolding get_one get_many lookup
empty-IsCoherent = record { objects = λ now ref x p e. cc; selections = λ now s xs p e. cc }

abbrev config : BrowserConfig
config = record {
  user_agent = "";
  window_width = 1;
  window_height = 1;
  page_load_timeout_ms = 1;
  max_inactivity_time_ms = 1;
  script_ref = record { id = "x" } ∷ record { id = "x" } ∷ [];
  script_selector = "scope:default" ∷ [];
}

get_scripts-Agrees_example :
    ((get_scripts db 3 config empty).0 ≡ get_scripts_direct db config)
    × IsCoherent db (get_scripts db 3 config empty).1
unfolding has_colon
get_scripts-Agrees_example =
    get_scripts-Agrees db 3 config empty db-IsHonest empty-IsCoherent (refl, (refl, tt)) (refl, tt)

-- The first attempt times out.
abbrev second_time : ℕ → ExecResult ℕ
second_time n = if n == 1 then query_timeout else success n

second_time-Ends :
    (r : Retried ℕ) × (exec_with_retry 3 second_time ≡ some r) × Ends 3 second_time 0 r
second_time-Ends = exec_with_retry-Ends 3 second_time
