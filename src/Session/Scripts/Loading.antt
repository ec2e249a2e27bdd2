-- ===== src/Session/Scripts/Loading.antt =====
-- Which scripts loadScripts of session/script.go keeps.
use veidemann_browser_contro.Prelude.{
  ◌≡◌, refl, ◌∙◌, ap, sym, Bool, Bool-cases, true, false, not, ◌&&◌, String, List, [], ◌∷◌, ◌++◌,
  filter, inl, inr, arith, if◌then◌else◌,
}
use mathlib.Core.List.{append-nil, append_assoc}
use veidemann_browser_contro.Config.{
  ConfigObject, ScriptType, scope_check, get_browser_script, or_zero,
}
use veidemann_browser_contro.Session.Scripts.{
  SessionScripts, new_session_scripts, is_blacklisted, is_listed, get, Matching, match, script_type,
  type_eq, add_script, load_scripts,
}

-- The scripts of a type that match a URI; none of the type SCOPE_CHECK.
pub is_wanted : Matching → String → ScriptType → ConfigObject → Bool
is_wanted m uri t s =
    type_eq (script_type s) t
    && (not (type_eq t scope_check) && match m (or_zero (get_browser_script s)).url_regexp uri)

-- The blacklist stays, and is that of a new object.
abbrev IsStandard : SessionScripts → Type 0
IsStandard bs = bs.blacklist ≡ scope_check ∷ []

type_eq_subst : (a b : ScriptType) → type_eq a b ≡ true → a ≡ b
unfolding type_eq
type_eq_subst a b e = ground arith

append_filter :
    (before : List ConfigObject) (p : ConfigObject → Bool) (s : ConfigObject)
    (rest : List ConfigObject)
    → (before ++ (if p s then s ∷ [] else [])) ++ filter p rest ≡ before ++ filter p (s ∷ rest)
append_filter before p s rest = elim (Bool-cases (p s)) [
  | inl e ↦ rw e (append_assoc before (s ∷ []) (filter p rest))
  | inr e ↦ rw e (append_assoc before [] (filter p rest))
]

load_one : (m : Matching) (uri : String) (s : ConfigObject) (bs : SessionScripts) → SessionScripts
load_one m uri s bs =
    if is_blacklisted bs (script_type s)
    then bs
    else if match m (or_zero (get_browser_script s)).url_regexp uri
    then add_script bs s
    else bs

load_one_lem :
    (m : Matching) (uri : String) (s : ConfigObject) (bs : SessionScripts) (t : ScriptType)
    → IsStandard bs
    → ((load_one m uri s bs).scripts t
        ≡ bs.scripts t ++ (if is_wanted m uri t s then s ∷ [] else []))
      × IsStandard (load_one m uri s bs)
unfolding load_one is_wanted is_blacklisted is_listed add_script
load_one_lem m uri s bs t h =
    let listed : is_listed (script_type s) bs.blacklist
        ≡ (if type_eq (script_type s) scope_check then true else false) =
      rw (h, is_listed) in
    (
      ground (arith, listed, type_eq_subst (script_type s) t, append-nil (bs.scripts t)),
      ground (arith, h),
    )

load_scripts_lem :
    (m : Matching) (uri : String) (xs : List ConfigObject) (bs : SessionScripts) (t : ScriptType)
    → IsStandard bs
    → (load_scripts m uri xs bs).scripts t ≡ bs.scripts t ++ filter (is_wanted m uri t) xs
unfolding load_scripts load_one
load_scripts_lem m uri [] bs t h = sym (append-nil (bs.scripts t))
load_scripts_lem m uri (s ∷ rest) bs t h =
    let (one, standard) = load_one_lem m uri s bs t h in
    load_scripts_lem m uri rest (load_one m uri s bs) t standard
    ∙ (ap (λ l. l ++ filter (is_wanted m uri t) rest) one
        ∙ append_filter (bs.scripts t) (is_wanted m uri t) s rest)

-- loadScripts keeps under each type, in the order in which the database has them, exactly the scripts
-- of the type whose patterns match the URI, or that have no patterns; and under SCOPE_CHECK none.
pub load_scripts-filter :
    (m : Matching) (uri : String) (xs : List ConfigObject) (t : ScriptType)
    → get (load_scripts m uri xs new_session_scripts) t ≡ filter (is_wanted m uri t) xs
unfolding get new_session_scripts
load_scripts-filter m uri xs t = load_scripts_lem m uri xs new_session_scripts t refl
