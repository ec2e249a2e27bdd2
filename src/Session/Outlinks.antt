-- ===== src/Session/Outlinks.antt =====
-- extractOutlinks of session/session.go. The browser, which evaluates a script, is a parameter; its
-- state is handed on.
mod Tests
pub mod Cleaning
use Prim.Native.Char.{Char, code}
use veidemann_browser_contro.Prelude.{
  ℕ, Bool, true, false, ◌&&◌, ◌||◌, not, String, Option, none, some, List, [], ◌∷◌, ◌++◌, ◌==◌,
  str_eq, if◌then◌else◌, is_space, trim,
}
use package.text.Mathlib.Text.{starts_with}
use veidemann_browser_contro.Errors.{Go, ok, fail, panic, GoError, other, ◌>>=◌}
use veidemann_browser_contro.Config.{
  ConfigObject, BrowserScript, extract_outlinks, get_browser_script, or_zero,
}
use veidemann_browser_contro.Requests.{Request}
use veidemann_browser_contro.Script.Decode.{
  Json, null, text, array, Items, nil, cons, Raw, nil_raw, malformed, parsed,
}
use veidemann_browser_contro.Session.Scripts.{SessionScripts, get}

-- The outcome of runtime.Evaluate: an error of the call, an exception of the script, or its value.
pub data Evaluated : Type 0 where
  failed exception : Evaluated
  value : Raw → Evaluated

-- json.Unmarshal into a []string: a null among the elements is the empty string, a null is a nil
-- slice; none is an error.
cons_text : Option String → Option (List String) → Option (List String)
cons_text none rest = none
cons_text (some s) none = none
cons_text (some s) (some rest) = some (s ∷ rest)

item_text : Json → Option String
item_text (text s) = some s
item_text null = some ""
item_text _ = none

unfoldable pub items_texts : Items → Option (List String)
unfolding cons_text item_text
items_texts nil = some []
items_texts (cons j rest) = cons_text (item_text j) (items_texts rest)

unmarshal_links : Raw → Option (List String)
unfolding items_texts
unmarshal_links (parsed (array items)) = items_texts items
unmarshal_links (parsed null) = some []
unmarshal_links _ = none

-- The links that an evaluation gives; whatever fails is skipped.
unfoldable pub links_of : Evaluated → List String
unfolding unmarshal_links
links_of (value nil_raw) = []
links_of (value raw) = elim (unmarshal_links raw) [ none ↦ [] | some links ↦ links ]
links_of _ = []

abbrev pub is_quote : Char → Bool
is_quote c = code c == b'"' || code c == b'\\'

-- strings.TrimSpace, and strings.Trim(link, "\"\\")
unfoldable pub clean : String → String
clean link = trim is_quote (trim is_space link)

-- The URL of the root request; a nil request panics when it is read.
root_url : Option Request → Go String
root_url none = panic
root_url (some r) = ok r.url

-- The `if` around append, whose second operand is only read for a link that is not empty.
unfoldable pub add_link : Option Request → String → List String → Go (List String)
unfolding root_url
add_link root link urls =
    if str_eq link ""
    then ok urls
    else root_url root >>= λ url. ok (if str_eq link url then urls else urls ++ link ∷ [])

unfoldable pub add_links : Option Request → List String → List String → Go (List String)
unfolding add_link clean
add_links root [] urls = ok urls
add_links root (link ∷ rest) urls = add_link root (clean link) urls >>= add_links root rest

script_text : ConfigObject → String
script_text s = (or_zero (get_browser_script s)).script

module _ {S : Type 0} (evaluate : String → Bool → S → Evaluated × S) where
  -- The evaluation of one script, which awaits a promise if the script is asynchronous.
  unfoldable pub evaluated : ConfigObject → S → Evaluated × S
  unfolding script_text
  evaluated script s = evaluate (script_text script) (starts_with (script_text script) "(async ") s

  unfoldable pub extract_from :
      Option Request → List ConfigObject → List String → S → Go (List String) × S
  unfolding evaluated links_of add_links
  extract_from root [] urls s = (ok urls, s)
  extract_from root (script ∷ rest) urls s =
      let (result, s') = evaluated script s in
      elim (add_links root (links_of result) urls) [
        | ok urls' ↦ extract_from root rest urls' s'
        | fail e ↦ (fail e, s')
        | panic ↦ (panic, s')
      ]

  -- extractOutlinks
  unfoldable pub extract_outlinks_of : Option Request → SessionScripts → S → Go (List String) × S
  unfolding extract_from
  extract_outlinks_of root scripts s = extract_from root (get scripts extract_outlinks) [] s
