-- ===== src/Session/Scripts/Replacement.antt =====
-- Which script GetReplacementScript of session/script.go picks.
use veidemann_browser_contro.Prelude.{
  ℕ, ◌≤◌, ◌<◌, ◌≡◌, ◌∙◌, ap, sym, subst, ◌⊎◌, inl, inr, refl, String, Option, none, some, List, [],
  ◌∷◌, ltb, Bool-cases, ◌&&◌, if◌then◌else◌, arith, All,
}
use veidemann_browser_contro.Config.{
  ConfigObject, BrowserScript, replacement, get_browser_script, or_zero,
}
use veidemann_browser_contro.Session.Scripts.{
  SessionScripts, get, Matching, Best, try_pattern, try_patterns, try_scripts,
  get_replacement_script,
}

-- The match of a pattern that compiles has at most a length, or exactly a length.
abbrev pub AtMost : String → ℕ → Option (String → ℕ) → Type 0
AtMost uri n none = Unit
AtMost uri n (some find) = find uri ≤ n

abbrev pub Exactly : String → ℕ → Option (String → ℕ) → Type 0
Exactly uri n none = ⊥
Exactly uri n (some find) = find uri ≡ n

abbrev pub patterns : ConfigObject → List String
patterns bc = (or_zero (get_browser_script bc)).url_regexp

module _ (m : Matching) (uri : String) where
  abbrev pub Reaches : ℕ → List String → Type 0
  Reaches n [] = ⊥
  Reaches n (p ∷ ps) = Exactly uri n (m.longest_match p) ⊎ Reaches n ps

  -- A script of the list has a pattern whose match has the length.
  abbrev pub Picked : ℕ → Option BrowserScript → List ConfigObject → Type 0
  Picked n script [] = ⊥
  Picked n script (bc ∷ rest) =
      ((script ≡ get_browser_script bc) × Reaches n (patterns bc)) ⊎ Picked n script rest

  abbrev pub Bounded : ℕ → List String → Type 0
  Bounded n = All λ p. AtMost uri n (m.longest_match p)

  AtMost-mono : (a b : ℕ) (o : Option (String → ℕ)) → AtMost uri a o → a ≤ b → AtMost uri b o
  AtMost-mono a b none h le = tt
  AtMost-mono a b (some find) h le = omega arith

  Bounded-mono : (a b : ℕ) (ps : List String) → Bounded a ps → a ≤ b → Bounded b ps
  Bounded-mono a b [] h le = tt
  Bounded-mono a b (p ∷ ps) h le =
      (AtMost-mono a b (m.longest_match p) h.0 le, Bounded-mono a b ps h.1 le)

  -- What trying a pattern makes of the best so far.
  abbrev Tried : Option BrowserScript → Option (String → ℕ) → Best → Best → Type 0
  Tried script o b b' =
      (b.longest ≤ b'.longest)
      × AtMost uri b'.longest o
      × ((b' ≡ b) ⊎ ((b'.script ≡ script) × Exactly uri b'.longest o × (b.longest < b'.longest)))

  tried :
      (script : Option BrowserScript) (o : Option (String → ℕ)) (b : Best)
      → Tried script o b (elim o [
        | none ↦ b
        | some find ↦
            if ltb 0 (find uri) && ltb b.longest (find uri)
            then record { longest = find uri; script = script }
            else b
      ])
  tried script none b = (omega arith, tt, inl refl)
  tried script (some find) b = elim (Bool-cases (ltb 0 (find uri) && ltb b.longest (find uri))) [
    | inl e ↦
        let longer : b.longest < find uri = ground arith in
        rw e (omega arith, omega arith, inr (refl, refl, longer))
    | inr e ↦ let short : find uri ≤ b.longest = ground arith in rw e (omega arith, short, inl refl)
  ]

  -- What trying the patterns of a script, and all scripts, makes of it.
  abbrev TriedAll : Option BrowserScript → List String → Best → Best → Type 0
  TriedAll script ps b b' =
      (b.longest ≤ b'.longest)
      × Bounded b'.longest ps
      × ((b' ≡ b) ⊎ ((b'.script ≡ script) × Reaches b'.longest ps × (b.longest < b'.longest)))

  try_patterns_lem :
      (script : Option BrowserScript) (ps : List String) (b : Best)
      → TriedAll script ps b (try_patterns m uri script ps b)
  unfolding try_patterns try_pattern
  try_patterns_lem script [] b = (omega arith, tt, inl refl)
  try_patterns_lem script (p ∷ ps) b =
      let b1 = try_pattern m uri script p b in
      let (le, fits, how) = tried script (m.longest_match p) b in
      let (le', fits', how') = try_patterns_lem script ps b1 in
      (
        omega arith,
        (AtMost-mono _ _ (m.longest_match p) fits le', fits'),
        elim how' [
          | inl same ↦ elim how [
            | inl same' ↦ inl (same ∙ same')
            | inr (script_is, exact, longer) ↦
                subst
                  (λ x.
                    (x ≡ b)
                    ⊎ ((x.script ≡ script) × Reaches x.longest (p ∷ ps) × (b.longest < x.longest)))
                  (sym same) (inr (script_is, inl exact, longer))
          ]
          | inr (script_is, reach, longer) ↦ inr (script_is, inr reach, omega arith)
        ],
      )

  abbrev TriedScripts : List ConfigObject → Best → Best → Type 0
  TriedScripts scripts b b' =
      (b.longest ≤ b'.longest)
      × All (λ bc. Bounded b'.longest (patterns bc)) scripts
      × ((b' ≡ b) ⊎ (Picked b'.longest b'.script scripts × (b.longest < b'.longest)))

  try_scripts_lem :
      (scripts : List ConfigObject) (b : Best)
      → TriedScripts scripts b (try_scripts m uri scripts b)
  unfolding try_scripts
  try_scripts_lem [] b = (omega arith, tt, inl refl)
  try_scripts_lem (bc ∷ rest) b =
      let b1 = try_patterns m uri (get_browser_script bc) (patterns bc) b in
      let (le, fits, how) = try_patterns_lem (get_browser_script bc) (patterns bc) b in
      let (le', fits', how') = try_scripts_lem rest b1 in
      (
        omega arith,
        (Bounded-mono _ _ (patterns bc) fits le', fits'),
        elim how' [
          | inl same ↦ elim how [
            | inl same' ↦ inl (same ∙ same')
            | inr (script_is, reach, longer) ↦
                subst
                  (λ x. (x ≡ b) ⊎ (Picked x.longest x.script (bc ∷ rest) × (b.longest < x.longest)))
                  (sym same) (inr (inl (script_is, reach), longer))
          ]
          | inr (picked, longer) ↦ inr (inr picked, omega arith)
        ],
      )

-- GetReplacementScript returns nil if no pattern of a replacement script matches any of the normalized
-- URI; otherwise it returns a replacement script with a pattern whose match in the normalized URI is as
-- long as the longest of any pattern of any replacement script. Patterns that do not compile count as
-- not there.
pub get_replacement_script-IsLongest :
    (m : Matching) (s : SessionScripts) (uri : String)
    → (n : ℕ) × All (λ bc. Bounded m (m.normalize uri) n (patterns bc)) (get s replacement)
      × (((n ≡ 0) × (get_replacement_script m s uri ≡ none))
          ⊎ ((0 < n)
              × Picked m (m.normalize uri) n (get_replacement_script m s uri) (get s replacement)))
unfolding get_replacement_script
get_replacement_script-IsLongest m s uri =
    let start : Best = record { longest = 0; script = none } in
    let best = try_scripts m (m.normalize uri) (get s replacement) start in
    let (le, fits, how) = try_scripts_lem m (m.normalize uri) (get s replacement) start in
    (
      best.longest,
      fits,
      elim how [
        | inl same ↦ inl (ap (λ (x : Best). x.longest) same, ap (λ (x : Best). x.script) same)
        | inr (picked, longer) ↦ inr (longer, picked)
      ],
    )
