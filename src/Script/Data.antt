-- ===== src/Script/Data.antt =====
-- What a script of script/script.go hands to the script after it.
use veidemann_browser_contro.Prelude.{
  ◌≡◌, refl, sym, ap, ◌∙◌, subst, String, Option, none, some, List, [], str_eq, lookup, inl, inr,
  Option-cases, if◌then◌else◌, arith,
}
use veidemann_browser_contro.Errors.{Go, ok, fail, panic, ok_inj, Go-cases}
use veidemann_browser_contro.Config.{Annotation, ConfigObject}
use veidemann_browser_contro.Script.Decode.{
  Json, null, text, object, boolean, number, array, Members, Raw, nil_raw, parsed, malformed,
  ReturnValue, decode_return_value,
}
use veidemann_browser_contro.Script.{
  Dict, continue, script_params, unmarshal_data, merge, next_id, next_data, follow, decoded,
  executed, turn,
}
use veidemann_browser_contro.Script.Params.{
  or_else, member_value, lookup-script_params, lookup-merge,
}

module _ (annotations : List Annotation) where
  -- What the arguments of a script are with the one data, by those with the other.
  abbrev pub Arguments : Dict → Dict → (String → Option Json) → Type 0
  Arguments before after own =
      (script : ConfigObject) (k : String)
      → lookup k (script_params script annotations after)
        ≡ or_else (own k) (lookup k (script_params script annotations before))

  -- The arguments of every script that may follow. Members are handed over, the last one of a name, and
  -- under other names what was there before; with no data, or null, there are only the annotations.
  abbrev pub Hands : Option Json → Dict → Dict → Type 0
  Hands none before after = Arguments [] after (λ k. none)
  Hands (some null) before after = Arguments [] after (λ k. none)
  Hands (some (object ms)) before after = Arguments before after (λ k. member_value k ms)
  Hands (some _) before after = ⊥

  merge-Arguments :
      (ms : Members) (before : Dict) → Arguments before (merge ms before) (λ k. member_value k ms)
  merge-Arguments ms before script k = ground (
    arith,
    lookup-merge k ms before,
    lookup-script_params script annotations (merge ms before) k,
    lookup-script_params script annotations before k,
  )

  next_data-Hands :
      (value : Option Json) (before after : Dict)
      → next_data value before ≡ ok after
      → Hands value before after
  unfolding next_data unmarshal_data
  next_data-Hands none before after e =
      subst (λ d. Arguments [] d (λ k. none)) (ok_inj e) (λ script k. refl)
  next_data-Hands (some null) before after e =
      subst (λ d. Arguments [] d (λ k. none)) (ok_inj e) (λ script k. refl)
  next_data-Hands (some (object ms)) before after e =
      subst (λ d. Arguments before d (λ k. member_value k ms)) (ok_inj e)
        (merge-Arguments ms before)
  next_data-Hands (some (boolean b)) before after e = cc
  next_data-Hands (some (number n)) before after e = cc
  next_data-Hands (some (text t)) before after e = cc
  next_data-Hands (some (array xs)) before after e = cc

  -- The script goes on to the next one with what a return value says.
  abbrev pub Follows : ConfigObject → ReturnValue → Dict → String → Dict → Type 0
  Follows script rv before next after =
      (next ≡ (if str_eq rv.next "self" then script.id else rv.next)) × Hands rv.value before after

  module _ {S : Type 0} (execute : ConfigObject → Dict → S → Go Raw × S) (wait : S → S) where
    follow-Follows :
        (script : ConfigObject) (next : String) (before : Dict) (rv : ReturnValue) (s : S)
        (next' : String) (after : Dict) (s' : S)
        → follow execute wait script next before rv s ≡ continue next' after s'
        → Follows script rv before next' after
    unfolding follow next_id
    follow-Follows script next before rv s next' after s' e =
        elim (Go-cases (next_data rv.value before)) [
          | inl (d, q) ↦
              let own =
                continue (next_id script rv.next) d (if rv.wait_for_data then wait s else s) in
              let same : own ≡ continue next' after s' = sym (rw (q, follow) refl) ∙ e in
              (cc, next_data-Hands rv.value before after (q ∙ ap ok (cc)))
          | inr (inl (x, q)) ↦ ground arith
          | inr (inr q) ↦ ground arith
        ]

    decoded-Follows :
        (script : ConfigObject) (next : String) (before : Dict) (g : Go ReturnValue) (s : S)
        (next' : String) (after : Dict) (s' : S)
        → decoded execute wait script next before g s ≡ continue next' after s'
        → (rv : ReturnValue) × (g ≡ ok rv) × Follows script rv before next' after
    unfolding decoded
    decoded-Follows script next before (ok rv) s next' after s' e =
        (rv, refl, follow-Follows script next before rv s next' after s' e)
    decoded-Follows script next before (fail x) s next' after s' e = cc
    decoded-Follows script next before panic s next' after s' e = cc

    executed-Follows :
        (script : ConfigObject) (next : String) (before : Dict) (r : Go Raw) (s : S)
        (next' : String) (after : Dict) (s' : S)
        → executed execute wait script next before r s ≡ continue next' after s'
        → (raw : Raw) × (rv : ReturnValue) × (r ≡ ok raw)
          × (decode_return_value raw ≡ ok rv)
          × Follows script rv before next' after
    unfolding executed
    executed-Follows script next before (ok nil_raw) s next' after s' e = cc
    executed-Follows script next before (ok malformed) s next' after s' e =
        let (rv, q, f) = decoded-Follows script next before _ s next' after s' e in
        (malformed, rv, refl, q, f)
    executed-Follows script next before (ok (parsed j)) s next' after s' e =
        let (rv, q, f) = decoded-Follows script next before _ s next' after s' e in
        (parsed j, rv, refl, q, f)
    executed-Follows script next before (fail x) s next' after s' e = cc
    executed-Follows script next before panic s next' after s' e = cc

    -- Whenever Run goes on after a turn of its loop, the script of the turn was found, executed with the
    -- arguments made from the data so far, and returned a value with the id of the next script, or
    -- "self" for its own; and every next script is given, over its annotations, the members of the
    -- data returned, the last one of a name; under all other names it is still given what earlier
    -- scripts left there, but with no data, or null, nothing is left. Data of another kind stop Run.
    pub turn-Follows :
        (scripts : List (String × ConfigObject)) (next : String) (before : Dict) (s : S)
        (next' : String) (after : Dict) (s' : S)
        → turn execute wait scripts annotations next before s ≡ continue next' after s'
        → (script : ConfigObject) × (raw : Raw) × (rv : ReturnValue) × (lookup next scripts
            ≡ some script)
          × ((execute script (script_params script annotations before) s).0 ≡ ok raw)
          × (decode_return_value raw ≡ ok rv)
          × Follows script rv before next' after
    unfolding turn
    turn-Follows scripts next before s next' after s' e =
        elim (Option-cases (lookup next scripts)) [
          | inl q ↦ ground arith
          | inr (script, q) ↦
              let result = execute script (script_params script annotations before) s in
              let (raw, rv, ran, decoded_to, f) =
                executed-Follows script next before result.0 result.1 next' after s'
                  (sym (rw (q, turn) refl) ∙ e) in
              (script, raw, rv, q, ran, decoded_to, f)
        ]
