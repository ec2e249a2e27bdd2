-- ===== src/Database/Codec/Order.antt =====
-- The map encoder of database/codec.go ranges over the entries of a map in no certain order.
use veidemann_browser_contro.Prelude.{
  ◌≡◌, refl, sym, ap, subst, ◌∙◌, inl, inr, String, Option, none, some, List, [], ◌∷◌, str_eq,
  eq_iff, lookup, insert, lookup-insert, Bool-cases, str_eq_refl, arith,
}
use veidemann_browser_contro.Errors.{ok, bind-ok, ok_inj, ◌>>=◌}
use veidemann_browser_contro.Database.Codec.{Coding, encoded, encode_entries}

-- No key occurs twice.
abbrev pub Distinct : {V : Type 0} → List (String × V) → Type 0
Distinct [] = Unit
Distinct ((k, v) ∷ rest) = (lookup k rest ≡ none) × Distinct rest

module _ (c : Coding) where
  open c use {Value}

  -- What stands at a key, if this stood there before.
  abbrev pub Becomes : Option Value → Option Value → Type 0
  Becomes none r = r ≡ none
  Becomes (some v) r = (value : Value) × (encoded c v ≡ ok value) × (r ≡ some value)

  -- The same with what stood in the map for the entries that were not visited.
  abbrev BecomesIn : Option Value → Option Value → Option Value → Type 0
  BecomesIn none d r = r ≡ d
  BecomesIn (some v) d r = (value : Value) × (encoded c v ≡ ok value) × (r ≡ some value)

  entries-Becomes :
      (entries m m' : List (String × Value)) (k : String)
      → Distinct entries
      → encode_entries c entries m ≡ ok m'
      → BecomesIn (lookup k entries) (lookup k m) (lookup k m')
  unfolding encode_entries lookup
  entries-Becomes [] m m' k d e = ground arith
  entries-Becomes ((j, v) ∷ rest) m m' k (fresh, d) e =
      let (value, coded, e') = bind-ok (encoded c v) _ m' e in
      let ih = entries-Becomes rest (insert j value m) m' k d e' in
      let written = lookup-insert j k value m in
      elim (Bool-cases (str_eq j k)) [
        | inl hit ↦
            let gone : lookup k rest ≡ none =
              subst (λ x. lookup x rest ≡ none) ((eq_iff j k).0 hit) fresh in
            let new : lookup k (insert j value m) ≡ some value = written ∙ rw hit refl in
            let last : lookup k m' ≡ lookup k (insert j value m) =
              subst (λ o. BecomesIn o (lookup k (insert j value m)) (lookup k m')) gone ih in
            rw hit (value, coded, last ∙ new)
        | inr miss ↦
            let old : lookup k (insert j value m) ≡ lookup k m = written ∙ rw miss refl in
            rw miss (subst (λ o. BecomesIn (lookup k rest) o (lookup k m')) old ih)
      ]

  -- Two ranges over a map have the same entries.
  abbrev pub Visits : List (String × Value) → List (String × Value) → Type 0
  Visits entries m = Distinct entries × ((k : String) → lookup k entries ≡ lookup k m)

  becomes : (a d r : Option Value) → a ≡ d → BecomesIn a d r → Becomes d r
  becomes none none r e h = h
  becomes none (some x) r e h = cc
  becomes (some v) none r e h = cc
  becomes (some v) (some x) r e h =
      let same : v ≡ x = ground arith in (h.0, ap (encoded c) (sym same) ∙ h.1, h.2)

  -- If the entries of a map can be encoded in some order of the range, then at every key stands the
  -- encoding of what stood there: a date for a string that is one, and the driver's encoding for all
  -- else; and there is no other key.
  pub encode_entries-Becomes :
      (order m m' : List (String × Value)) (k : String)
      → Visits order m
      → encode_entries c order m ≡ ok m'
      → Becomes (lookup k m) (lookup k m')
  encode_entries-Becomes order m m' k (distinct, same) e =
      becomes (lookup k order) (lookup k m) (lookup k m') (same k)
        (entries-Becomes order m m' k distinct e)

  same_created : (d r r' : Option Value) → Becomes d r → Becomes d r' → r ≡ r'
  same_created none r r' h h' = h ∙ sym h'
  same_created (some v) r r' (a, e, q) (b, e', q') =
      let same : a ≡ b = ok_inj (sym e ∙ e') in q ∙ ap some same ∙ sym q'

  -- Every value of the map can be encoded.
  AllEncode : List (String × Value) → Type 0
  AllEncode m = (k : String) (v : Value) → lookup k m ≡ some v → (x : Value) × (encoded c v ≡ ok x)

  lookup-rest :
      (j k : String) (v w : Value) (rest : List (String × Value))
      → lookup j rest ≡ none
      → lookup k rest ≡ some w
      → lookup k ((j, v) ∷ rest) ≡ some w
  unfolding lookup
  lookup-rest j k v w rest fresh e = elim (Bool-cases (str_eq j k)) [
    | inl hit ↦
        let gone : lookup k rest ≡ none =
          subst (λ x. lookup x rest ≡ none) ((eq_iff j k).0 hit) fresh in
        cc
    | inr miss ↦ rw miss e
  ]

  lookup-head :
      (j : String) (v : Value) (rest : List (String × Value)) → lookup j ((j, v) ∷ rest) ≡ some v
  unfolding lookup
  lookup-head j v rest = rw (str_eq_refl j) refl

  succeeds :
      (entries m : List (String × Value))
      → Distinct entries
      → AllEncode entries
      → (r : List (String × Value)) × (encode_entries c entries m ≡ ok r)
  unfolding encode_entries AllEncode
  succeeds [] m d h = (m, refl)
  succeeds ((j, v) ∷ rest) m (fresh, d) h =
      let (x, e) = h j v (lookup-head j v rest) in
      let (r, e') =
        succeeds rest (insert j x m) d (λ k w q. h k w (lookup-rest j k v w rest fresh q)) in
      (r, ap (λ g. g >>= λ value. encode_entries c rest (insert j value m)) e ∙ e')

  encodes_all :
      (order m r : List (String × Value))
      → Visits order m
      → encode_entries c order m ≡ ok r
      → AllEncode m
  unfolding AllEncode
  encodes_all order m r v e k w q =
      let h : Becomes (some w) (lookup k r) =
        subst (λ o. Becomes o (lookup k r)) q (encode_entries-Becomes order m r k v e) in
      (h.0, h.1)

  -- Go's range visits the entries of a map in no certain order. If the map can be encoded in one order,
  -- then it can be in every other, and at each key the result is the same: a date for a string that is
  -- one, the driver's encoding for all else, and nothing where nothing was.
  pub encode_entries-order :
      (order order' m r : List (String × Value))
      → Visits order m
      → Visits order' m
      → encode_entries c order m ≡ ok r
      → (r' : List (String × Value)) × (encode_entries c order' m ≡ ok r')
        × ((k : String) → (lookup k r ≡ lookup k r') × Becomes (lookup k m) (lookup k r'))
  unfolding AllEncode
  encode_entries-order order order' m r v v' e =
      let all = encodes_all order m r v e in
      let (r', e') = succeeds order' m v'.0 (λ k w q. all k w (sym (v'.1 k) ∙ q)) in
      (
        r',
        e',
        λ k.
            let h = encode_entries-Becomes order' m r' k v' e' in
            (
              same_created (lookup k m) (lookup k r) (lookup k r')
                  (encode_entries-Becomes order m r k v e) h,
              h,
            ),
      )
