-- ===== src/Script/Chain.antt =====
-- How long a chain of scripts of script/script.go runs, and how it ends.
use veidemann_browser_contro.Prelude.{
  ℕ, zero, suc, ◌+◌, ◌≤◌, ◌<◌, ◌≡◌, refl, ◌≢◌, ◌⊎◌, Bool-cases, inl, inr, String, some, List, [],
  str_eq, arith, eq_iff,
}
use veidemann_browser_contro.Errors.{Go, ok}
use veidemann_browser_contro.Config.{Annotation, ConfigObject}
use veidemann_browser_contro.Script.Decode.{Raw}
use veidemann_browser_contro.Script.{Dict, Turn, stop, continue, turn, run_from, run}

module _ {S : Type 0} (execute : ConfigObject → Dict → S → Go Raw × S) (wait : S → S)
    (scripts : List (String × ConfigObject)) (annotations : List Annotation) where
  Turn-cases :
      (t : Turn S)
      → ((r : Go (Unit {0})) × (s : S) × (t ≡ stop r s))
        ⊎ ((next : String) × (m : Dict) × (s : S) × (t ≡ continue next m s))
  Turn-cases (stop r s) = inl (r, s, refl)
  Turn-cases (continue next m s) = inr (next, m, s, refl)

  -- A result does not depend on the fuel.
  more_fuel :
      (fuel more : ℕ) (next : String) (m : Dict) (s : S) (r : Go (Unit {0}) × S)
      → fuel ≤ more
      → run_from execute wait scripts annotations fuel next m s ≡ some r
      → run_from execute wait scripts annotations more next m s ≡ some r
  unfolding run_from
  more_fuel zero more next m s r le e = cc
  more_fuel (suc fuel) zero next m s r le e = absurd (omega arith)
  more_fuel (suc fuel) (suc more) next m s r le e =
      elim (Turn-cases (turn execute wait scripts annotations next m s)) [
        | inl (x, s', t) ↦ ground arith
        | inr (n', m', s', t) ↦ ground (arith, more_fuel fuel more n' m' s' r)
      ]

  total :
      (measure : S → ℕ)
      → ((next next' : String) (m m' : Dict) (s s' : S)
          → turn execute wait scripts annotations next m s ≡ continue next' m' s'
          → next' ≢ ""
          → measure s' < measure s)
      → (fuel : ℕ) (next : String) (m : Dict) (s : S) → measure s + 1 < fuel
      → (r : Go (Unit {0}) × S) × (run_from execute wait scripts annotations fuel next m s ≡ some r)
  unfolding run_from
  total measure falls zero next m s h = absurd (omega arith)
  total measure falls (suc zero) next m s h = absurd (omega arith)
  total measure falls (suc (suc fuel)) next m s h = elim (Bool-cases (str_eq next "")) [
    | inl empty ↦ ((ok tt, s), rw empty)
    | inr more ↦ elim (Turn-cases (turn execute wait scripts annotations next m s)) [
      | inl (x, s', t) ↦ ((x, s'), rw more (rw t refl))
      | inr (n', m', s', t) ↦ elim (Bool-cases (str_eq n' "")) [
        | inl empty ↦ ((ok tt, s'), rw more (rw t (rw empty refl)))
        | inr named ↦
            let (r, e) =
              total measure falls (suc fuel) n' m' s'
                (omega (arith, falls next n' m m' s s' t (λ q. ground (arith, eq_iff n' "")))) in
            (r, rw more (rw t e))
      ]
    ]
  ]

  -- A chain of scripts in which every turn that names a next script lowers a measure of the state
  -- ends, if the fuel is at least the measure plus 2, with the result that this fuel gives.
  pub run_total :
      (measure : S → ℕ)
      → ((next next' : String) (m m' : Dict) (s s' : S)
          → turn execute wait scripts annotations next m s ≡ continue next' m' s'
          → next' ≢ ""
          → measure s' < measure s)
      → (next : String) (s : S) (fuel : ℕ) → measure s + 2 ≤ fuel
      → (r : Go (Unit {0}) × S) × (run execute wait (measure s + 2) next scripts annotations s
          ≡ some r)
        × (run execute wait fuel next scripts annotations s ≡ some r)
  unfolding run
  run_total measure falls next s fuel h =
      let (r, e) = total measure falls (measure s + 2) next [] s (omega arith) in
      (r, e, more_fuel (measure s + 2) fuel next [] s r h e)
