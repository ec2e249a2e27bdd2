-- ===== src/Session/Outlinks/Tests.antt =====
-- The outlinks of a page with three scripts, of which one fails.
use veidemann_browser_contro.Prelude.{
  ℕ, suc, Bool, ◌≡◌, refl, String, some, List, [], ◌∷◌, All, str_eq, if◌then◌else◌, is_space, trim,
}
use veidemann_browser_contro.Errors.{ok}
use veidemann_browser_contro.Config.{
  ConfigObject, browser_script, extract_outlinks, get_browser_script,
}
use veidemann_browser_contro.Requests.Samples.{first}
use veidemann_browser_contro.Script.Decode.{null, text, array, nil, cons, parsed}
use veidemann_browser_contro.Session.Scripts.{SessionScripts, get}
use veidemann_browser_contro.Session.Outlinks.{
  Evaluated, failed, value, clean, extract_outlinks_of, links_of,
}
use veidemann_browser_contro.Session.Outlinks.Cleaning.{
  IsOutlink, Covered, returned, extract_outlinks-Covered,
}

abbrev script_of : String → ConfigObject
script_of s = record {
  id = s;
  name = "";
  annotation = [];
  spec =
      browser_script
        (record { script = s; url_regexp = []; browser_script_type = extract_outlinks });
}

abbrev scripts : SessionScripts
scripts = record {
  scripts = λ t. script_of "links" ∷ script_of "broken" ∷ script_of "(async () => {})" ∷ [];
  blacklist = [];
}

-- The state counts the evaluations.
abbrev evaluate : String → Bool → ℕ → Evaluated × ℕ
evaluate script await_promise n =
    if str_eq script "links"
    then (
      value (
          parsed (
            array
              (cons (text " \"http://a.no/b\\\" ") (cons (text "http://a.no/") (cons null nil))))),
      suc n,
    )
    else if str_eq script "broken"
    then (failed, suc n)
    else (value (parsed (array (cons (text "http://a.no/c") nil))), suc n)

clean_example : clean " \"http://a.no/b\\\" " ≡ "http://a.no/b"
unfolding clean trim is_space
clean_example = refl

two_links :
    extract_outlinks_of evaluate (some first) scripts 0
    ≡ (ok ("http://a.no/b" ∷ "http://a.no/c" ∷ []), 3)
unfolding extract_outlinks_of get get_browser_script clean trim is_space links_of
two_links = refl

extract_outlinks-Covered_example :
    (result : List String) × ((extract_outlinks_of evaluate (some first) scripts 0).0 ≡ ok result)
    × All (IsOutlink first) result
    × All (Covered first result) (returned evaluate (get scripts extract_outlinks) 0)
extract_outlinks-Covered_example = extract_outlinks-Covered evaluate first scripts 0
