-- ===== src/Session/Scripts.antt =====
-- session/script.go: the scripts of a session by type, and the replacement for a script of a page.
-- URL normalisation and regular expressions are parameters.
pub mod Loading
pub mod Replacement
use veidemann_browser_contro.Prelude.{
  ℕ, Bool, true, false, ◌&&◌, String, Option, none, some, List, [], ◌∷◌, ◌++◌, ltb, if◌then◌else◌,
}
use veidemann_browser_contro.Config.{
  ConfigObject, BrowserScript, ScriptType, undefined, extract_outlinks, replacement, on_load,
  on_new_document, scope_check, get_browser_script, or_zero,
}

unfoldable pub type_eq : ScriptType → ScriptType → Bool
type_eq undefined undefined = true
type_eq extract_outlinks extract_outlinks = true
type_eq replacement replacement = true
type_eq on_load on_load = true
type_eq on_new_document on_new_document = true
type_eq scope_check scope_check = true
type_eq _ _ = false

-- sessionScripts; the map as a function, nil where nothing was added.
pub record SessionScripts : Type 0 where
  pub scripts : ScriptType → List ConfigObject
  pub blacklist : List ScriptType

unfoldable pub new_session_scripts : SessionScripts
new_session_scripts = record { scripts = λ t. []; blacklist = scope_check ∷ [] }

is_listed : ScriptType → List ScriptType → Bool
unfolding type_eq
is_listed t [] = false
is_listed t (b ∷ bs) = if type_eq t b then true else is_listed t bs

unfoldable pub is_blacklisted : SessionScripts → ScriptType → Bool
unfolding is_listed
is_blacklisted s t = is_listed t s.blacklist

-- Get
unfoldable pub get : SessionScripts → ScriptType → List ConfigObject
get s t = s.scripts t

-- url.Normalize and regexp: the length of the leftmost-longest match of a pattern in a text, none for
-- a pattern that does not compile; and whether it matches.
pub record Matching : Type 0 where
  pub normalize : String → String
  pub longest_match : String → Option (String → ℕ)
  pub match_string : String → Option (String → Bool)

any_match : Matching → List String → String → Bool
any_match m [] uri = false
any_match m (url_regexp ∷ rest) uri = elim (m.match_string url_regexp) [
  | none ↦ any_match m rest uri
  | some matches ↦ if matches uri then true else any_match m rest uri
]

-- match
unfoldable pub match : Matching → List String → String → Bool
unfolding any_match
match m [] uri = true
match m (r ∷ rs) uri = any_match m (r ∷ rs) (m.normalize uri)

script_type : ConfigObject → ScriptType
script_type s = (or_zero (get_browser_script s)).browser_script_type

unfoldable pub add_script : SessionScripts → ConfigObject → SessionScripts
unfolding type_eq script_type
add_script bs s = record bs {
  scripts = λ t. if type_eq (script_type s) t then bs.scripts t ++ s ∷ [] else bs.scripts t;
}

-- The loop of loadScripts over what GetScripts gave.
unfoldable pub load_scripts :
    Matching → String → List ConfigObject → SessionScripts → SessionScripts
unfolding add_script
load_scripts m uri [] bs = bs
load_scripts m uri (s ∷ rest) bs = load_scripts m uri rest (
    if is_blacklisted bs (script_type s)
    then bs
    else if match m (or_zero (get_browser_script s)).url_regexp uri
    then add_script bs s
    else bs)

-- The variables of the loops of GetReplacementScript.
pub record Best : Type 0 where
  pub longest : ℕ
  pub script : Option BrowserScript

unfoldable pub try_pattern : Matching → String → Option BrowserScript → String → Best → Best
try_pattern m uri script pattern' best = elim (m.longest_match pattern') [
  | none ↦ best
  | some find ↦
      if ltb 0 (find uri) && ltb best.longest (find uri)
      then record { longest = find uri; script = script }
      else best
]

unfoldable pub try_patterns : Matching → String → Option BrowserScript → List String → Best → Best
unfolding try_pattern
try_patterns m uri script [] best = best
try_patterns m uri script (p ∷ ps) best =
    try_patterns m uri script ps (try_pattern m uri script p best)

-- A script of type REPLACEMENT has a message, so that its patterns are read without a panic.
unfoldable pub try_scripts : Matching → String → List ConfigObject → Best → Best
unfolding try_patterns
try_scripts m uri [] best = best
try_scripts m uri (bc ∷ rest) best =
    try_scripts m uri rest
      (try_patterns m uri (get_browser_script bc) (or_zero (get_browser_script bc)).url_regexp best)

-- GetReplacementScript. With no candidates the loops do nothing.
unfoldable pub get_replacement_script : Matching → SessionScripts → String → Option BrowserScript
unfolding try_scripts
get_replacement_script m s uri =
    (try_scripts m (m.normalize uri) (get s replacement)
      (record { longest = 0; script = none })).script
