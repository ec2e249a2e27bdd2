-- ===== src/Url.antt =====
-- url/normalize.go. The parser of the URL library and its serializer are parameters.
mod Tests
use veidemann_browser_contro.Prelude.{
  ◌≡◌, refl, sym, ap, ◌∙◌, subst, ◌⊎◌, inl, inr, ⊎-cases, String,
}
use veidemann_browser_contro.Errors.{GoError}

module _ {Url : Type 0} (parse : String → GoError ⊎ Url) (print : Url → String) where
  -- Normalize
  unfoldable pub normalize : String → String
  normalize u = elim (parse u) [ inl e ↦ u | inr p ↦ print p ]

  -- If the parser reads each serialized URL as that URL, then a normalized text normalizes to itself.
  pub normalize-normalize :
      (u : String) → ((p : Url) → parse (print p) ≡ inr p) → normalize (normalize u) ≡ normalize u
  unfolding normalize
  normalize-normalize u read_back = elim (⊎-cases (parse u)) [
    | inl (e, failed) ↦
        let same : normalize u ≡ u = rw (failed, normalize) refl in ap normalize same
    | inr (p, parsed) ↦
        let same : normalize u ≡ print p = rw (parsed, normalize) refl in
        let again : normalize (print p) ≡ print p = rw (read_back p, normalize) refl in
        ap normalize same ∙ again ∙ sym same
  ]
