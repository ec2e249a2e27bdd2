-- ===== src/Script/Tests.antt =====
-- The theorems on script/script.go at small inputs.
use veidemann_browser_contro.Prelude.{
  ℕ, ◌+◌, ◌<◌, ◌≡◌, ◌≢◌, refl, String, none, some, List, [], ◌∷◌, lookup, if◌then◌else◌, arith,
}
use veidemann_browser_contro.Errors.{Go, ok}
use veidemann_browser_contro.Config.{Annotation, ConfigObject, nil}
use veidemann_browser_contro.Script.Decode.{
  Raw, nil_raw, parsed, object, text, Members, end, member, ReturnValue, decode_return_value,
}
use veidemann_browser_contro.Script.{
  Dict, script_params, unmarshal_data, merge, next_id, next_data, turn, continue, executed, run,
}
use veidemann_browser_contro.Script.Params.{or_else, names_key, seed_value, lookup-script_params}
use veidemann_browser_contro.Script.Data.{Follows, turn-Follows}
use veidemann_browser_contro.Script.Chain.{run_total}

abbrev scroll : ConfigObject
scroll = record {
  id = "s1";
  name = "scroll";
  annotation = record { key = "depth"; value = "3" } ∷ [];
  spec = nil;
}

abbrev seed : List Annotation
seed = record { key = "depth"; value = "5" } ∷ []

lookup-script_params_example :
    lookup "depth" (script_params scroll seed [])
    ≡ or_else
        (lookup "depth" [])
        (if names_key "depth" scroll.annotation then seed_value "depth" seed else none)
lookup-script_params_example = lookup-script_params scroll seed [] "depth"

abbrev left : Dict
left = ("page", text "1") ∷ []

abbrev returned : Members
returned = member "url" (text "x") end

abbrev merged : Dict
unfolding merge
merged = merge returned left

-- Scripts that return nothing.
abbrev execute : ConfigObject → Dict → ℕ → Go Raw × ℕ
execute c m s = (ok nil_raw, s + 1)

abbrev wait : ℕ → ℕ
wait s = s

abbrev scripts : List (String × ConfigObject)
scripts = ("s1", scroll) ∷ []

-- A script that names itself as the next one and hands over data.
abbrev returning : ConfigObject → Dict → ℕ → Go Raw × ℕ
returning c m s = (
  ok (parsed (object (member "next" (text "self") (member "data" (object returned) end)))),
  s + 1,
)

goes_on : turn returning wait scripts seed "s1" left 7 ≡ continue "s1" merged 8
unfolding turn executed decode_return_value merge merged next_id next_data unmarshal_data lookup
goes_on = refl

turn-Follows_example :
    (script : ConfigObject) × (raw : Raw) × (rv : ReturnValue) × (lookup "s1" scripts ≡ some script)
    × ((returning script (script_params script seed left) 7).0 ≡ ok raw)
    × (decode_return_value raw ≡ ok rv)
    × Follows seed script rv left "s1" merged
turn-Follows_example = turn-Follows seed returning wait scripts "s1" left 7 "s1" merged 8 goes_on

never_continues :
    (next next' : String) (m m' : Dict) (s s' : ℕ)
    → turn execute wait scripts seed next m s ≡ continue next' m' s'
    → next' ≢ ""
    → 0 < 0
unfolding turn executed
never_continues next next' m m' s s' e named = ground arith

chain_total :
    (r : Go (Unit {0}) × ℕ) × (run execute wait 2 "s1" scripts seed 7 ≡ some r)
    × (run execute wait 5 "s1" scripts seed 7 ≡ some r)
chain_total = run_total execute wait scripts seed (λ s. 0) never_continues "s1" 7 5 (omega arith)
