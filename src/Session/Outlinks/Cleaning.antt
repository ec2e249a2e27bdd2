-- ===== src/Session/Outlinks/Cleaning.antt =====
-- Which outlinks session/session.go extracts from what the scripts return.
use mathlib.Core.List.{append-nil, append_assoc}
use veidemann_browser_contro.Prelude.{
  not, ◌&&◌, ℕ, suc, ◌≡◌, ◌≢◌, refl, sym, ap, ◌∙◌, subst, ◌⊎◌, inl, inr, Bool, true, false, String,
  some, Bool-cases, List, [], ◌∷◌, ◌++◌, All, get_elem?, str_eq, if◌then◌else◌, eq_iff, arith,
  is_space, trim, Stays, first_char, last_char, trim-Stays,
}
use veidemann_browser_contro.Errors.{ok}
use veidemann_browser_contro.Config.{ConfigObject, extract_outlinks}
use veidemann_browser_contro.Requests.{Request}
use veidemann_browser_contro.Session.Scripts.{SessionScripts, get}
use veidemann_browser_contro.Session.Outlinks.{
  Evaluated, links_of, is_quote, clean, root_url, add_link, add_links, evaluated, extract_from,
  extract_outlinks_of,
}

-- What the code promises of each outlink of a page with this root request.
abbrev pub IsOutlink : Request → String → Type 0
IsOutlink root u =
    (u ≢ "") × (u ≢ root.url) × Stays is_quote (first_char u) × Stays is_quote (last_char u)

-- A link that a script returned is among the outlinks, unless nothing is left of it or it leads to
-- the page itself.
abbrev pub Covered : Request → List String → String → Type 0
Covered root result link =
    (clean link ≡ "")
    ⊎ ((clean link ≡ root.url) ⊎ ((i : ℕ) × (get_elem? result i ≡ some (clean link))))

abbrev is_wanted : Request → String → Bool
is_wanted root u = not (str_eq u "") && not (str_eq u root.url)

abbrev wanted : Request → List String → List String
wanted root [] = []
wanted root (link ∷ rest) =
    let more = wanted root rest in if is_wanted root (clean link) then clean link ∷ more else more

add_link-wanted :
    (root : Request) (u : String) (urls : List String)
    → add_link (some root) u urls ≡ ok (if is_wanted root u then urls ++ u ∷ [] else urls)
unfolding add_link root_url
add_link-wanted root u urls = elim (Bool-cases (str_eq u "")) [
  | inl e ↦ rw e refl
  | inr e ↦ elim (Bool-cases (str_eq u root.url)) [
    | inl f ↦ rw (e, f) refl
    | inr f ↦ rw (e, f) refl
  ]
]

add_links-wanted :
    (root : Request) (links urls : List String)
    → add_links (some root) links urls ≡ ok (urls ++ wanted root links)
unfolding add_links
add_links-wanted root [] urls = ap ok (sym (append-nil urls))
add_links-wanted root (link ∷ rest) urls =
    rw (add_link-wanted root (clean link) urls) (elim (Bool-cases (is_wanted root (clean link))) [
      | inl e ↦
          rw e
            (add_links-wanted root rest (urls ++ clean link ∷ []) ∙ ap ok (append_assoc urls _ _))
      | inr e ↦ rw e (add_links-wanted root rest urls)
    ])

wanted-IsOutlink : (root : Request) (links : List String) → All (IsOutlink root) (wanted root links)
unfolding clean
wanted-IsOutlink root [] = tt
wanted-IsOutlink root (link ∷ rest) = elim (Bool-cases (is_wanted root (clean link))) [
  | inl e ↦ rw e (
    (
      λ p. ground (arith, e, p, eq_iff (clean link) ""),
      λ p. ground (arith, e, p, eq_iff (clean link) root.url),
      (trim-Stays is_quote (trim is_space link)).0,
      (trim-Stays is_quote (trim is_space link)).1,
    ),
    wanted-IsOutlink root rest,
  )
  | inr e ↦ rw e (wanted-IsOutlink root rest)
]

Covered-cons :
    (root : Request) (u : String) (result links : List String)
    → All (Covered root result) links
    → All (Covered root (u ∷ result)) links
Covered-cons root u result [] h = tt
Covered-cons root u result (link ∷ rest) (inl e, h) = (inl e, Covered-cons root u result rest h)
Covered-cons root u result (link ∷ rest) (inr (inl e), h) =
    (inr (inl e), Covered-cons root u result rest h)
Covered-cons root u result (link ∷ rest) (inr (inr (i, e)), h) =
    (inr (inr (suc i, e)), Covered-cons root u result rest h)

skips :
    (root : Request) (link : String) (rest : List String)
    → is_wanted root (clean link) ≡ false
    → wanted root rest ≡ wanted root (link ∷ rest)
skips root link rest e = rw e refl

adds :
    (root : Request) (link : String) (rest : List String)
    → is_wanted root (clean link) ≡ true
    → clean link ∷ wanted root rest ≡ wanted root (link ∷ rest)
adds root link rest e = rw e refl

wanted-Covered :
    (root : Request) (links : List String) → All (Covered root (wanted root links)) links
wanted-Covered root [] = tt
wanted-Covered root (link ∷ rest) =
    let ih = wanted-Covered root rest in
    let covered = λ (w : List String). All (Covered root w) (link ∷ rest) in
    elim (Bool-cases (str_eq (clean link) "")) [
      | inl e ↦
          subst covered (skips root link rest (rw e refl)) (inl ((eq_iff (clean link) "").0 e), ih)
      | inr e ↦ elim (Bool-cases (str_eq (clean link) root.url)) [
        | inl f ↦
            subst covered (skips root link rest (rw (e, f) refl))
              (inr (inl ((eq_iff (clean link) root.url).0 f)), ih)
        | inr f ↦
            subst covered (adds root link rest (rw (e, f) refl))
              (inr (inr (0, refl)), Covered-cons root (clean link) (wanted root rest) rest ih)
      ]
    ]

module _ {S : Type 0} (evaluate : String → Bool → S → Evaluated × S) where
  -- The links of all scripts, each evaluated in the state that the one before left.
  abbrev pub returned : List ConfigObject → S → List String
  returned [] s = []
  returned (script ∷ rest) s =
      let (result, s') = evaluated evaluate script s in links_of result ++ returned rest s'

  wanted-append :
      (root : Request) (xs ys : List String)
      → wanted root (xs ++ ys) ≡ wanted root xs ++ wanted root ys
  wanted-append root [] ys = refl
  wanted-append root (x ∷ xs) ys = elim (Bool-cases (is_wanted root (clean x))) [
    | inl e ↦ rw e (ap (λ t. clean x ∷ t) (wanted-append root xs ys))
    | inr e ↦ rw e (wanted-append root xs ys)
  ]

  extract_from-wanted :
      (root : Request) (scripts : List ConfigObject) (urls : List String) (s : S)
      → (extract_from evaluate (some root) scripts urls s).0
        ≡ ok (urls ++ wanted root (returned scripts s))
  unfolding extract_from
  extract_from-wanted root [] urls s = ap ok (sym (append-nil urls))
  extract_from-wanted root (script ∷ rest) urls s =
      let (result, s') = evaluated evaluate script s in
      rw (add_links-wanted root (links_of result) urls, extract_from)
        (extract_from-wanted root rest (urls ++ wanted root (links_of result)) s'
          ∙ ap ok (
              append_assoc urls _ _
              ∙ ap (λ t. urls ++ t)
                  (sym (wanted-append root (links_of result) (returned rest s')))))

  -- On a page with a root request the extraction does not fail. Every outlink is a text that is not
  -- empty, is not the URL of the root request and neither begins nor ends with a quote or a
  -- backslash; and every link that a script returned is among the outlinks once it is cleaned of
  -- spaces, quotes and backslashes at its ends, unless it is then empty or the URL of the root request.
  pub extract_outlinks-Covered :
      (root : Request) (scripts : SessionScripts) (s : S)
      → (result : List String) × ((extract_outlinks_of evaluate (some root) scripts s).0
          ≡ ok result)
        × All (IsOutlink root) result
        × All (Covered root result) (returned (get scripts extract_outlinks) s)
  unfolding extract_outlinks_of
  extract_outlinks-Covered root scripts s =
      let links = returned (get scripts extract_outlinks) s in
      (
        wanted root links,
        extract_from-wanted root (get scripts extract_outlinks) [] s,
        wanted-IsOutlink root links,
        wanted-Covered root links,
      )
