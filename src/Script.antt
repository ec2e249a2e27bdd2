-- ===== src/Script.antt =====
-- script/script.go: running a chain of scripts, each of which names the next one and hands data to it.
mod Tests
pub mod Decode
pub mod Params
pub mod Data
pub mod Chain
use veidemann_browser_contro.Prelude.{
  ℕ, zero, suc, Bool, true, false, String, append_text, Option, none, some, List, [], ◌∷◌, str_eq,
  lookup, insert, if◌then◌else◌,
}
use veidemann_browser_contro.Errors.{Go, ok, fail, panic, GoError, other, wrap}
use veidemann_browser_contro.Config.{Annotation, ConfigObject}
use Decode.{
  Json, null, text, object, Members, end, member, Raw, nil_raw, parsed, malformed, ReturnValue,
  decode_return_value,
}

abbrev pub Dict : Type 0
Dict = List (String × Json)

-- The inner loop: the seed's annotations with the key of one annotation of the script.
unfoldable pub seed_values : String → List Annotation → Dict → Dict
seed_values key [] params = params
seed_values key (a ∷ rest) params =
    seed_values key rest (if str_eq a.key key then insert a.key (text a.value) params else params)

unfoldable pub annotation_params : List Annotation → List Annotation → Dict → Dict
unfolding seed_values
annotation_params [] annotations params = params
annotation_params (blueprint ∷ rest) annotations params =
    annotation_params rest annotations (seed_values blueprint.key annotations params)

-- `for key, value := range data { params[key] = value }`; the order of a range does not show.
unfoldable pub add_data : Dict → Dict → Dict
add_data params [] = params
add_data params ((k, v) ∷ rest) = insert k v (add_data params rest)

-- The arguments of a script; marshalling them cannot fail.
unfoldable pub script_params : ConfigObject → List Annotation → Dict → Dict
unfolding annotation_params add_data
script_params script annotations data' =
    add_data (annotation_params script.annotation annotations []) data'

-- json.Unmarshal into a map: an object is merged into the map that is there, null makes it nil.
unfoldable pub merge : Members → Dict → Dict
merge end m = m
merge (member k v rest) m = merge rest (insert k v m)

unfoldable pub unmarshal_data : Json → Dict → Go Dict
unfolding merge
unmarshal_data null m = ok []
unmarshal_data (object ms) m = ok (merge ms m)
unmarshal_data _ m =
    fail (other "json: cannot unmarshal into Go value of type map[string]interface {}")

-- How a turn of the loop ends; S is what `execute` and `wait` act on.
pub data Turn (S : Type 0) : Type 0 where
  stop : Go (Unit {0}) → S → Turn S
  continue : String → Dict → S → Turn S

unfoldable pub next_id : ConfigObject → String → String
next_id script next = if str_eq next "self" then script.id else next

unfoldable pub next_data : Option Json → Dict → Go Dict
unfolding unmarshal_data
next_data none m = ok []
next_data (some v) m = unmarshal_data v m

-- `%s %s (%s)`, the beginning of an error's text.
failed_to : String → ConfigObject → String → String
failed_to what script next =
    append_text what (append_text script.name (append_text " (" (append_text next ")")))

module _ {S : Type 0} (execute : ConfigObject → Dict → S → Go Raw × S) (wait : S → S) where
  unfoldable pub follow : ConfigObject → String → Dict → ReturnValue → S → Turn S
  unfolding next_data next_id failed_to
  follow script next data' rv s = elim (next_data rv.value data') [
    | ok data'' ↦ continue (next_id script rv.next) data'' (if rv.wait_for_data then wait s else s)
    | fail e ↦
        stop
          (fail (
            wrap (failed_to "failed to unmarshal data from script " script (next_id script rv.next))
              e))
          s
    | panic ↦ stop panic s
  ]

  unfoldable pub decoded : ConfigObject → String → Dict → Go ReturnValue → S → Turn S
  unfolding follow failed_to
  decoded script next data' (ok rv) s = follow script next data' rv s
  decoded script next data' (fail e) s =
      stop (fail (wrap (failed_to "failed to unmarshal result from script " script next) e)) s
  decoded script next data' panic s = stop panic s

  unfoldable pub executed : ConfigObject → String → Dict → Go Raw → S → Turn S
  unfolding decoded failed_to
  executed script next data' (ok nil_raw) s = stop (ok tt) s
  executed script next data' (ok raw) s = decoded script next data' (decode_return_value raw) s
  executed script next data' (fail e) s =
      stop (fail (wrap (failed_to "failed to execute script " script next) e)) s
  executed script next data' panic s = stop panic s

  -- The body of the loop.
  unfoldable pub turn : List (String × ConfigObject) → List Annotation → String → Dict → S → Turn S
  unfolding executed
  turn scripts annotations next data' s = elim (lookup next scripts) [
    | none ↦ stop (fail (other (append_text "failed to find script with id: " next))) s
    | some script ↦
        (let (r, s') = execute script (script_params script annotations data') s in
          executed script next data' r s')
  ]

  -- The loop of Run; none means that the fuel ran out.
  unfoldable pub run_from :
      List (String × ConfigObject)
      → List Annotation
      → ℕ
      → String
      → Dict
      → S
      → Option (Go (Unit {0}) × S)
  run_from scripts annotations zero next data' s = none
  run_from scripts annotations (suc fuel) next data' s =
      if str_eq next "" then some (ok tt, s) else elim (turn scripts annotations next data' s) [
        | stop r s' ↦ some (r, s')
        | continue next' data'' s' ↦ run_from scripts annotations fuel next' data'' s'
      ]

  -- Run
  unfoldable pub run :
      ℕ → String → List (String × ConfigObject) → List Annotation → S → Option (Go (Unit {0}) × S)
  unfolding run_from
  run fuel next scripts annotations s = run_from scripts annotations fuel next [] s
