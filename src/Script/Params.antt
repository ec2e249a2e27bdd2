-- ===== src/Script/Params.antt =====
-- Which arguments a script of script/script.go is given.
use veidemann_browser_contro.Prelude.{
  ◌≡◌, refl, Bool, true, false, String, Option, none, some, List, [], ◌∷◌, str_eq, lookup, insert,
  lookup-insert, if◌then◌else◌, arith, eq_iff,
}
use veidemann_browser_contro.Config.{Annotation, ConfigObject}
use veidemann_browser_contro.Script.Decode.{Json, text, Members, end, member}
use veidemann_browser_contro.Script.{
  Dict, seed_values, annotation_params, add_data, script_params, merge,
}

abbrev pub or_else {ℓ} : {A : Type ℓ} → Option A → Option A → Option A
or_else (some a) o = some a
or_else none o = o

-- The value of the last seed annotation with a key.
pub seed_value : String → List Annotation → Option Json
seed_value k [] = none
seed_value k (a ∷ rest) =
    or_else (seed_value k rest) (if str_eq a.key k then some (text a.value) else none)

pub names_key : String → List Annotation → Bool
names_key k [] = false
names_key k (b ∷ rest) = if str_eq b.key k then true else names_key k rest

-- The value of the last member with a name.
pub member_value : String → Members → Option Json
member_value k end = none
member_value k (member j v rest) =
    or_else (member_value k rest) (if str_eq j k then some v else none)

lookup-seed_values :
    (key k : String) (annotations : List Annotation) (m : Dict)
    → lookup k (seed_values key annotations m)
      ≡ (if str_eq key k then or_else (seed_value k annotations) (lookup k m) else lookup k m)
unfolding seed_values seed_value
lookup-seed_values key k [] m = ground arith
lookup-seed_values key k (a ∷ rest) m = ground (
  arith,
  eq_iff key k,
  eq_iff a.key k,
  eq_iff a.key key,
  lookup-insert a.key k (text a.value) m,
  lookup-seed_values key k rest (if str_eq a.key key then insert a.key (text a.value) m else m),
)

lookup-annotation_params :
    (k : String) (blueprints annotations : List Annotation) (m : Dict)
    → lookup k (annotation_params blueprints annotations m) ≡ (
        if names_key k blueprints
        then or_else (seed_value k annotations) (lookup k m)
        else lookup k m)
unfolding annotation_params names_key
lookup-annotation_params k [] annotations m = refl
lookup-annotation_params k (b ∷ rest) annotations m = ground (
  arith,
  lookup-seed_values b.key k annotations m,
  lookup-annotation_params k rest annotations (seed_values b.key annotations m),
)

lookup-add_data :
    (k : String) (params data' : Dict)
    → lookup k (add_data params data') ≡ or_else (lookup k data') (lookup k params)
unfolding add_data lookup
lookup-add_data k params [] = refl
lookup-add_data k params ((j, v) ∷ rest) =
    ground (arith, lookup-insert j k v (add_data params rest), lookup-add_data k params rest)

-- The argument of a script under a key is the value that the previous scripts left under it; failing
-- that, if the script has an annotation with the key, the value of the seed's last annotation with the
-- key; and otherwise there is none: a value in the script's own annotations never is an argument.
pub lookup-script_params :
    (script : ConfigObject) (annotations : List Annotation) (data' : Dict) (k : String)
    → lookup k (script_params script annotations data')
      ≡ or_else
          (lookup k data')
          (if names_key k script.annotation then seed_value k annotations else none)
unfolding script_params lookup
lookup-script_params script annotations data' k = ground (
  arith,
  lookup-add_data k (annotation_params script.annotation annotations []) data',
  lookup-annotation_params k script.annotation annotations [],
)

pub lookup-merge :
    (k : String) (ms : Members) (m : Dict)
    → lookup k (merge ms m) ≡ or_else (member_value k ms) (lookup k m)
unfolding merge member_value
lookup-merge k end m = refl
lookup-merge k (member j v rest) m =
    ground (arith, lookup-insert j k v m, lookup-merge k rest (insert j v m))
