-- ===== src/Session/Phases/Tests.antt =====
-- A phase whose script runs a second time.
use veidemann_browser_contro.Prelude.{ℕ, ◌≤◌, ◌<◌, ◌≡◌, ◌≢◌, String, some, List, [], ◌∷◌, arith}
use veidemann_browser_contro.Errors.{Go, ok}
use veidemann_browser_contro.Config.{ConfigObject, on_load, nil as no_spec}
use veidemann_browser_contro.Script.{Dict, continue, turn, executed}
use veidemann_browser_contro.Script.Decode.{
  object, text, member, end, nil_raw, parsed, decode_return_value,
}
use veidemann_browser_contro.Session.Scripts.{SessionScripts}
use veidemann_browser_contro.Session.Phases.{
  Browser, Called, value, Resolve, reuse, create, execute, execute_scripts,
}
use veidemann_browser_contro.Session.Phases.Runs.{Executed, execute_scripts-Executed}

-- How often a script still names itself.
data Left : Type 0 where
  once never : Left

abbrev measure : Left → ℕ
measure once = 1
measure never = 0

bounded : (s : Left) → measure s ≤ 1
bounded once = omega arith
bounded never = omega arith

abbrev called : Left → Called × Left
called once = (value (parsed (object (member "next" (text "self") end))), never)
called never = (value nil_raw, never)

abbrev browser : Browser Left
browser = record {
  get_frame_tree = λ s. (ok "frame", s);
  create_isolated_world = λ frame s. (ok 4, s);
  call_function_on = λ eci declaration arguments await_promise s. called s;
  wait = λ s. s;
}

abbrev scroll : ConfigObject
scroll = record { id = "s1"; name = "scroll"; annotation = []; spec = no_spec }

abbrev scripts : SessionScripts
scripts = record { scripts = λ t. scroll ∷ []; blacklist = [] }

falls :
    (how : Resolve) (all : List (String × ConfigObject)) (next next' : String) (m m' : Dict)
    (s s' : Left)
    → turn (execute browser how) browser.wait all [] next m s ≡ continue next' m' s'
    → next' ≢ ""
    → measure s' < measure s
unfolding turn executed execute decode_return_value
falls (reuse eci) all next next' m m' once s' e named = ground arith
falls create all next next' m m' once s' e named = ground arith
falls (reuse eci) all next next' m m' never s' e named = ground arith
falls create all next next' m m' never s' e named = ground arith

execute_scripts-Executed_example :
    (r : Go (Unit {0})) × (s' : Left) × (execute_scripts browser 3 scripts [] on_load once
      ≡ some (r, s'))
    × Executed browser [] scripts on_load once r s'
execute_scripts-Executed_example =
    execute_scripts-Executed browser [] measure 1 bounded falls 3 scripts on_load once (omega arith)
