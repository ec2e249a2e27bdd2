-- ===== src/Session/Phases/Runs.antt =====
-- How executeScripts of session/script.go runs the scripts of a phase.
use mathlib.Core.List.{append-nil, append_assoc}
use veidemann_browser_contro.Prelude.{
  ℕ, ◌+◌, ◌≤◌, ◌<◌, ◌≡◌, ◌≢◌, refl, subst, sym, String, Option, none, some, List, [], ◌∷◌, ◌++◌,
  lookup, insert, lookup-insert, str_eq, if◌then◌else◌, arith,
}
use veidemann_browser_contro.Errors.{Go, ok, fail, panic, GoError, wrap}
use veidemann_browser_contro.Config.{
  Annotation, ConfigObject, ScriptType, undefined, extract_outlinks, replacement, on_load,
  on_new_document, scope_check,
}
use veidemann_browser_contro.Script.{Dict, continue, turn, run}
use veidemann_browser_contro.Script.Params.{or_else}
use veidemann_browser_contro.Script.Chain.{run_total}
use veidemann_browser_contro.Session.Scripts.{SessionScripts, get}
use veidemann_browser_contro.Session.Phases.{
  Browser, Resolve, reuse, create, named, not_implemented, add_all, get_execution_context_id,
  execute, run_scripts, run_phase, on_load_phase, execute_scripts,
}

-- The last of some scripts with an id.
abbrev pub latest : String → List ConfigObject → Option ConfigObject
latest id [] = none
latest id (c ∷ rest) = or_else (latest id rest) (if str_eq c.id id then some c else none)

-- The map has, under each id, the last of the scripts with this id.
abbrev pub IsMapOf : List ConfigObject → List (String × ConfigObject) → Type 0
IsMapOf seen scripts = (id : String) → lookup id scripts ≡ latest id seen

latest-append :
    (id : String) (xs : List ConfigObject) (c : ConfigObject)
    → latest id (xs ++ c ∷ []) ≡ (if str_eq c.id id then some c else latest id xs)
latest-append id [] c = ground arith
latest-append id (x ∷ xs) c = ground (arith, latest-append id xs c)

insert-IsMapOf :
    (seen : List ConfigObject) (scripts : List (String × ConfigObject)) (c : ConfigObject)
    → IsMapOf seen scripts
    → IsMapOf (seen ++ c ∷ []) (insert c.id c scripts)
insert-IsMapOf seen scripts c h id =
    ground (arith, lookup-insert c.id id c scripts, latest-append id seen c, h id)

add_all-IsMapOf :
    (cs seen : List ConfigObject) (scripts : List (String × ConfigObject))
    → IsMapOf seen scripts
    → IsMapOf (seen ++ cs) (add_all cs scripts)
unfolding add_all
add_all-IsMapOf [] seen scripts h = subst (λ xs. IsMapOf xs scripts) (sym (append-nil seen)) h
add_all-IsMapOf (c ∷ rest) seen scripts h =
    subst (λ xs. IsMapOf xs (add_all (c ∷ rest) scripts)) (append_assoc seen (c ∷ []) rest)
      (add_all-IsMapOf rest (seen ++ c ∷ []) (insert c.id c scripts)
        (insert-IsMapOf seen scripts c h))

module _ {S : Type 0} (b : Browser S) (annotations : List Annotation) where
  -- The scripts of a phase are run in order, each as the start of a chain that may name the scripts
  -- seen so far and itself, until one fails.
  pub data Runs (how : Resolve)
      : List ConfigObject → List ConfigObject → S → Go (Unit {0}) → S → Type 0 where
    finished : (seen : List ConfigObject) (s : S) → Runs how seen [] s (ok tt) s
    ran :
        (seen : List ConfigObject) (c : ConfigObject) (rest : List ConfigObject)
        (scripts : List (String × ConfigObject)) (fuel : ℕ) (s s' s'' : S) (r : Go (Unit {0}))
        → IsMapOf (seen ++ c ∷ []) scripts
        → run (execute b how) b.wait fuel c.id scripts annotations s ≡ some (ok tt, s')
        → Runs how (seen ++ c ∷ []) rest s' r s''
        → Runs how seen (c ∷ rest) s r s''
    failed :
        (seen : List ConfigObject) (c : ConfigObject) (rest : List ConfigObject)
        (scripts : List (String × ConfigObject)) (fuel : ℕ) (s s' : S) (e : GoError)
        → IsMapOf (seen ++ c ∷ []) scripts
        → run (execute b how) b.wait fuel c.id scripts annotations s ≡ some (fail e, s')
        → Runs how seen (c ∷ rest) s (fail (wrap (named "failed to run script " c) e)) s'
    panicked :
        (seen : List ConfigObject) (c : ConfigObject) (rest : List ConfigObject)
        (scripts : List (String × ConfigObject)) (fuel : ℕ) (s s' : S)
        → IsMapOf (seen ++ c ∷ []) scripts
        → run (execute b how) b.wait fuel c.id scripts annotations s ≡ some (panic, s')
        → Runs how seen (c ∷ rest) s panic s'

  abbrev Ends :
      Resolve → List ConfigObject → List ConfigObject → S → Option (Go (Unit {0}) × S) → Type 0
  Ends how seen cs s o =
      (r : Go (Unit {0})) × (s' : S) × (o ≡ some (r, s')) × Runs how seen cs s r s'

  module _ (measure : S → ℕ) (bound : ℕ) (bounded : (s : S) → measure s ≤ bound)
      (falls : (how : Resolve) (scripts : List (String × ConfigObject)) (next next' : String)
          (m m' : Dict) (s s' : S)
        → turn (execute b how) b.wait scripts annotations next m s ≡ continue next' m' s'
        → next' ≢ ""
        → measure s' < measure s) where
    run_ends :
        (fuel : ℕ) (how : Resolve) (scripts : List (String × ConfigObject)) (id : String) (s : S)
        → bound + 2 ≤ fuel
        → (r : Go (Unit {0}) × S) × (run (execute b how) b.wait fuel id scripts annotations s
            ≡ some r)
    run_ends fuel how scripts id s h =
        let (r, _, e) =
          run_total (execute b how) b.wait scripts annotations measure (falls how scripts) id s fuel
            (omega (arith, bounded s, h)) in
        (r, e)

    run_scripts-Ends :
        (fuel : ℕ) (how : Resolve) (scripts : List (String × ConfigObject))
        (seen cs : List ConfigObject) (s : S)
        → bound + 2 ≤ fuel
        → IsMapOf seen scripts
        → Ends how seen cs s (run_scripts b fuel how annotations scripts cs s)
    unfolding run_scripts
    run_scripts-Ends fuel how scripts seen [] s h v = (ok tt, s, refl, finished seen s)
    run_scripts-Ends fuel how scripts seen (c ∷ rest) s h v =
        let all = insert c.id c scripts in
        let v' = insert-IsMapOf seen scripts c v in
        let (r, e) = run_ends fuel how all c.id s h in
        go r e (λ (s' : S). run_scripts-Ends fuel how all (seen ++ c ∷ []) rest s' h v')
      where
        go :
            (r : Go (Unit {0}) × S)
            → run (execute b how) b.wait fuel c.id (insert c.id c scripts) annotations s ≡ some r
            → ((s' : S)
                → Ends how
                    (seen ++ c ∷ [])
                    rest
                    s'
                    (run_scripts b fuel how annotations (insert c.id c scripts) rest s'))
            → Ends how seen (c ∷ rest) s (run_scripts b fuel how annotations scripts (c ∷ rest) s)
        go (ok u, s') e ih =
            let (r', s'', e', runs) = ih s' in
            rw (e, run_scripts)
              (
                r',
                s'',
                e',
                ran seen c rest _ fuel s s' s'' r' (insert-IsMapOf seen scripts c v) e runs,
              )
        go (fail x, s') e ih =
            rw (e, run_scripts)
              (_, s', refl, failed seen c rest _ fuel s s' x (insert-IsMapOf seen scripts c v) e)
        go (panic, s') e ih =
            rw (e, run_scripts)
              (_, s', refl, panicked seen c rest _ fuel s s' (insert-IsMapOf seen scripts c v) e)

  -- What executeScripts comes to. An on-load phase asks for one execution context first, and none of
  -- its scripts is run if there is none; a phase that has no execution context leaves the state as it
  -- is.
  pub data Executed (scripts : SessionScripts) (t : ScriptType) (s : S)
      : Go (Unit {0}) → S → Type 0 where
    afresh :
        (r : Go (Unit {0})) (s' : S)
        → t ≡ on_new_document
        → Runs create (get scripts undefined) (get scripts on_new_document) s r s'
        → Executed scripts t s r s'
    in_one :
        (eci : ℕ) (s1 : S) (r : Go (Unit {0})) (s' : S)
        → t ≡ on_load
        → get_execution_context_id b s ≡ (ok eci, s1)
        → Runs (reuse eci) (get scripts undefined) (get scripts on_load) s1 r s'
        → Executed scripts t s r s'
    no_context :
        (e : GoError) (s' : S)
        → t ≡ on_load
        → get_execution_context_id b s ≡ (fail e, s')
        → Executed scripts t s (fail (wrap "failed to get isolated execution context id" e)) s'
    broken :
        (s' : S)
        → t ≡ on_load
        → get_execution_context_id b s ≡ (panic, s')
        → Executed scripts t s panic s'
    other_type :
        t ≢ on_new_document → t ≢ on_load → Executed scripts t s (fail (not_implemented t)) s

  module _ (measure : S → ℕ) (bound : ℕ) (bounded : (s : S) → measure s ≤ bound)
      (falls : (how : Resolve) (scripts : List (String × ConfigObject)) (next next' : String)
          (m m' : Dict) (s s' : S)
        → turn (execute b how) b.wait scripts annotations next m s ≡ continue next' m' s'
        → next' ≢ ""
        → measure s' < measure s) where
    run_phase-Ends :
        (fuel : ℕ) (how : Resolve) (scripts : SessionScripts) (t : ScriptType) (s : S)
        → bound + 2 ≤ fuel
        → Ends how
            (get scripts undefined)
            (get scripts t)
            s
            (run_phase b fuel how scripts annotations t s)
    unfolding run_phase lookup
    run_phase-Ends fuel how scripts t s h =
        run_scripts-Ends measure bound bounded falls fuel how (add_all (get scripts undefined) [])
          (get scripts undefined) (get scripts t) s h
          (add_all-IsMapOf (get scripts undefined) [] [] (λ id. refl))

    on_load-Executed :
        (fuel : ℕ) (scripts : SessionScripts) (s s1 : S) (eci : Go ℕ)
        → bound + 2 ≤ fuel
        → get_execution_context_id b s ≡ (eci, s1)
        → (r : Go (Unit {0})) × (s' : S) × (on_load_phase b fuel eci scripts annotations s1
            ≡ some (r, s'))
          × Executed scripts on_load s r s'
    unfolding on_load_phase
    on_load-Executed fuel scripts s s1 (ok eci) h e =
        let (r, s', e', runs) = run_phase-Ends fuel (reuse eci) scripts on_load s1 h in
        (r, s', e', in_one eci s1 r s' refl e runs)
    on_load-Executed fuel scripts s s1 (fail x) h e = (_, s1, refl, no_context x s1 refl e)
    on_load-Executed fuel scripts s s1 panic h e = (_, s1, refl, broken s1 refl e)

    -- If every turn of a chain that names a next script lowers a bounded measure of the state, then
    -- executeScripts ends, with fuel for two more turns than the bound. A phase for new documents, and
    -- an on-load phase once it has an execution context, runs its scripts in order until one fails,
    -- each as the start of a chain that finds exactly the scripts without a type, those of the phase
    -- before it and itself, the last one where several have the same id. Scripts of any other type
    -- are refused, and nothing is run.
    pub execute_scripts-Executed :
        (fuel : ℕ) (scripts : SessionScripts) (t : ScriptType) (s : S)
        → bound + 2 ≤ fuel
        → (r : Go (Unit {0})) × (s' : S) × (execute_scripts b fuel scripts annotations t s
            ≡ some (r, s'))
          × Executed scripts t s r s'
    unfolding execute_scripts
    execute_scripts-Executed fuel scripts on_load s h =
        on_load-Executed fuel scripts s (get_execution_context_id b s).1
          (get_execution_context_id b s).0 h refl
    execute_scripts-Executed fuel scripts on_new_document s h =
        let (r, s', e, runs) = run_phase-Ends fuel create scripts on_new_document s h in
        (r, s', e, afresh r s' refl runs)
    execute_scripts-Executed fuel scripts undefined s h =
        (_, s, refl, other_type (λ e. cc) (λ e. cc))
    execute_scripts-Executed fuel scripts extract_outlinks s h =
        (_, s, refl, other_type (λ e. cc) (λ e. cc))
    execute_scripts-Executed fuel scripts replacement s h =
        (_, s, refl, other_type (λ e. cc) (λ e. cc))
    execute_scripts-Executed fuel scripts scope_check s h =
        (_, s, refl, other_type (λ e. cc) (λ e. cc))
