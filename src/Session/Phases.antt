-- ===== src/Session/Phases.antt =====
-- executeScripts of session/script.go. The calls of the browser and the wait for its network are
-- parameters, over a state that they change.
mod Tests
pub mod Runs
use package.text.Mathlib.Text.{starts_with}
use veidemann_browser_contro.Prelude.{
  ℕ, Bool, String, append_text, Option, none, some, List, [], ◌∷◌, insert,
}
use veidemann_browser_contro.Errors.{Go, ok, fail, panic, GoError, other, wrapping}
use veidemann_browser_contro.Config.{
  Annotation, ConfigObject, ScriptType, undefined, extract_outlinks, replacement, on_load,
  on_new_document, scope_check, get_browser_script, or_zero,
}
use veidemann_browser_contro.Script.{Dict, run}
use veidemann_browser_contro.Script.Decode.{Raw}
use veidemann_browser_contro.Session.Scripts.{SessionScripts, get}

-- A call that changes the state.
abbrev pub Calls : Type 0 → Type 0 → Type 0
Calls S A = S → Go A × S

-- What runtime.CallFunctionOn gives: the error of the call, the details of an exception, which are an
-- error too, or the value of the result.
pub data Called : Type 0 where
  failed_call exception : GoError → Called
  value : Raw → Called

-- The part of the browser's protocol in use; frames and execution contexts by their ids.
pub record Browser (S : Type 0) : Type 0 where
  pub get_frame_tree : Calls S String
  pub create_isolated_world : String → Calls S ℕ
  pub call_function_on : ℕ → String → Dict → Bool → S → Called × S
  -- WaitForCompletion and Reset of the session's netActivityTimer
  pub wait : S → S

-- How executeScripts comes to an execution context: one for all scripts, or a new one for each.
pub data Resolve : Type 0 where
  reuse : ℕ → Resolve
  create : Resolve

type_text : ScriptType → String
type_text undefined = "UNDEFINED"
type_text extract_outlinks = "EXTRACT_OUTLINKS"
type_text replacement = "REPLACEMENT"
type_text on_load = "ON_LOAD"
type_text on_new_document = "ON_NEW_DOCUMENT"
type_text scope_check = "SCOPE_CHECK"

-- `%s (%s)` of a name and an id.
unfoldable pub named : String → ConfigObject → String
named what c = append_text what (append_text c.name (append_text " (" (append_text c.id ")")))

call_result : Called → Go Raw
call_result (failed_call e) = fail e
call_result (exception e) = fail e
call_result (value raw) = ok raw

unfoldable pub not_implemented : ScriptType → GoError
unfolding type_text
not_implemented t =
    other
      (append_text "script execution for type " (append_text (type_text t) " is not implemented"))

-- Adds scripts to the map from which a chain takes its scripts.
unfoldable pub add_all :
    List ConfigObject → List (String × ConfigObject) → List (String × ConfigObject)
add_all [] scripts = scripts
add_all (c ∷ rest) scripts = add_all rest (insert c.id c scripts)

module _ {S : Type 0} (b : Browser S) where
  isolated_world : Go String → Calls S ℕ
  isolated_world (fail e) s = (fail (GoError.wrap "failed to get frameTree" e), s)
  isolated_world panic s = (panic, s)
  isolated_world (ok frame) s =
      let (r, s') = b.create_isolated_world frame s in
      (wrapping "failed to create isolated world" r, s')

  -- getExecutionContextID
  unfoldable pub get_execution_context_id : Calls S ℕ
  unfolding isolated_world
  get_execution_context_id s = let (frame, s') = b.get_frame_tree s in isolated_world frame s'

  resolve_context : Resolve → Calls S ℕ
  unfolding get_execution_context_id
  resolve_context (reuse eci) s = (ok eci, s)
  resolve_context create s = get_execution_context_id s

  -- callScript
  unfoldable pub call_script : ℕ → String → Dict → Calls S Raw
  unfolding call_result
  call_script eci declaration arguments s =
      let (r, s') =
        b.call_function_on eci declaration arguments (starts_with declaration "async ") s in
      (call_result r, s')

  in_context : Go ℕ → ConfigObject → Dict → Calls S Raw
  unfolding call_script named
  in_context (ok eci) c arguments s =
      call_script eci (or_zero (get_browser_script c)).script arguments s
  in_context (fail e) c arguments s =
      (fail (GoError.wrap (named "failed to resolve execution context id for script " c) e), s)
  in_context panic c arguments s = (panic, s)

  -- The function `execute`.
  unfoldable pub execute : Resolve → ConfigObject → Dict → Calls S Raw
  unfolding in_context resolve_context
  execute how c arguments s = let (eci, s') = resolve_context how s in in_context eci c arguments s'

  -- The loop over the scripts of the phase; none means that a chain ran out of fuel.
  unfoldable pub run_scripts :
      ℕ
      → Resolve
      → List Annotation
      → List (String × ConfigObject)
      → List ConfigObject
      → S
      → Option (Go (Unit {0}) × S)
  unfolding named
  run_scripts fuel how annotations scripts [] s = some (ok tt, s)
  run_scripts fuel how annotations scripts (c ∷ rest) s =
      elim (run (execute how) b.wait fuel c.id (insert c.id c scripts) annotations s) [
        | none ↦ none
        | some (ok u, s') ↦ run_scripts fuel how annotations (insert c.id c scripts) rest s'
        | some (fail e, s') ↦ some (fail (GoError.wrap (named "failed to run script " c) e), s')
        | some (panic, s') ↦ some (panic, s')
      ]

  run_phase :
      ℕ → Resolve → SessionScripts → List Annotation → ScriptType → S → Option (Go (Unit {0}) × S)
  unfolding run_scripts add_all
  run_phase fuel how scripts annotations type' s =
      run_scripts fuel how annotations (add_all (get scripts undefined) []) (get scripts type') s

  on_load_phase : ℕ → Go ℕ → SessionScripts → List Annotation → S → Option (Go (Unit {0}) × S)
  unfolding run_phase
  on_load_phase fuel (ok eci) scripts annotations s =
      run_phase fuel (reuse eci) scripts annotations on_load s
  on_load_phase fuel (fail e) scripts annotations s =
      some (fail (GoError.wrap "failed to get isolated execution context id" e), s)
  on_load_phase fuel panic scripts annotations s = some (panic, s)

  -- executeScripts
  unfoldable pub execute_scripts :
      ℕ → SessionScripts → List Annotation → ScriptType → S → Option (Go (Unit {0}) × S)
  unfolding run_phase on_load_phase not_implemented
  execute_scripts fuel scripts annotations on_load s =
      let (eci, s') = get_execution_context_id s in on_load_phase fuel eci scripts annotations s'
  execute_scripts fuel scripts annotations on_new_document s =
      run_phase fuel create scripts annotations on_new_document s
  execute_scripts fuel scripts annotations t s = some (fail (not_implemented t), s)
