-- ===== src/Frontier/Metrics/Counts.antt =====
-- What the metrics of frontier/frontier.go count.
use mathlib.Core.List.{append-nil, append_assoc}
use veidemann_browser_contro.Prelude.{
  ℕ, suc, ◌+◌, ◌/◌, ◌≡◌, refl, ap, sym, ◌∙◌, String, Option, none, some, List, [], ◌∷◌, ◌++◌, ltb,
  str_eq, if◌then◌else◌, lookup-insert, insert, length, arith, Bool-cases, inl, inr, eq_iff,
}
use veidemann_browser_contro.Errors.{Code, GoError}
use veidemann_browser_contro.Frontier.{RenderResult}
use veidemann_browser_contro.Frontier.Metrics.{
  Metrics, Completion, value_of, with_label_values, inc_failed, observe, label_of, count_result,
  count_page, count_pages,
}

with_label_values-insert :
    (written label : String) (n : ℕ) (m : List (String × ℕ))
    → with_label_values label (insert written n m)
      ≡ (if str_eq written label then n else with_label_values label m)
unfolding with_label_values
with_label_values-insert written label n m =
    ap value_of (lookup-insert written label n m)
    ∙ elim (Bool-cases (str_eq written label)) [ inl e ↦ rw e refl | inr e ↦ rw e refl ]

inc_failed_lem :
    (written label : String) (m : Metrics)
    → with_label_values label (inc_failed written m).pages_failed_total
      ≡ (if str_eq written label then 1 else 0) + with_label_values label m.pages_failed_total
unfolding inc_failed
inc_failed_lem written label m =
    with_label_values-insert written label (suc (with_label_values written m.pages_failed_total))
      m.pages_failed_total
    ∙ elim (Bool-cases (str_eq written label)) [
      | inl e ↦ rw e (
          ap (λ l. suc (with_label_values l m.pages_failed_total)) ((eq_iff written label).0 e)
          ∙ omega arith)
      | inr e ↦ rw e (omega arith)
    ]

module _ (status_text : Code → String → String) where
  -- The stream was opened and the fetch had an error with this label: 1, else 0.
  abbrev pub failed_with : String → Option GoError → Option GoError → ℕ
  failed_with label (some e) fetch_err = 0
  failed_with label none none = 0
  failed_with label none (some e) = if str_eq (label_of status_text e) label then 1 else 0

  abbrev pub failures : String → List Completion → ℕ
  failures label [] = 0
  failures label (c ∷ rest) = failed_with label c.opening c.fetch_err + failures label rest

  -- The time above 0 ms of a page without an error whose stream was opened, in whole seconds.
  abbrev pub time_of : Option GoError → RenderResult → Option GoError → List ℕ
  time_of (some e) r fetch_err = []
  time_of none r (some e) = []
  time_of none r none = if ltb 0 r.page_fetch_time_ms then r.page_fetch_time_ms / 1000 ∷ [] else []

  abbrev pub times : List Completion → List ℕ
  times [] = []
  times (c ∷ rest) = time_of c.opening c.render_result c.fetch_err ++ times rest

  -- The metrics `after` count these pages more than those `before`.
  pub record Counts (cs : List Completion) (before after : Metrics) : Type 0 where
    pub total : after.pages_total ≡ before.pages_total + length cs
    pub failed :
        (label : String)
        → with_label_values label after.pages_failed_total
          ≡ with_label_values label before.pages_failed_total + failures label cs
    pub seconds : after.page_fetch_seconds ≡ before.page_fetch_seconds ++ times cs

  count_result_lem :
      (opening : Option GoError) (r : RenderResult) (fetch_err : Option GoError) (m : Metrics)
      → let after : Metrics = count_result status_text opening r fetch_err m in
        (after.pages_total ≡ m.pages_total)
        × ((label : String)
            → with_label_values label after.pages_failed_total
              ≡ failed_with label opening fetch_err + with_label_values label m.pages_failed_total)
        × (after.page_fetch_seconds ≡ m.page_fetch_seconds ++ time_of opening r fetch_err)
  unfolding count_result observe inc_failed
  count_result_lem (some e) r fetch_err m =
      (refl, λ label. omega arith, sym (append-nil m.page_fetch_seconds))
  count_result_lem none r (some e) m = (
    refl,
    λ label. inc_failed_lem (label_of status_text e) label m,
    sym (append-nil m.page_fetch_seconds),
  )
  count_result_lem none r none m = elim (Bool-cases (ltb 0 r.page_fetch_time_ms)) [
    | inl e ↦ rw e (refl, λ label. omega arith, refl)
    | inr e ↦ rw e (refl, λ label. omega arith, sym (append-nil m.page_fetch_seconds))
  ]

  -- However many calls of PageCompleted are made, whether the stream to the frontier opens or not:
  -- PagesTotal rises by the number of calls; the counter of every label rises by the calls with a fetch
  -- error of this label whose stream was opened; and PageFetchSeconds observes, in order and cut to whole
  -- seconds, the times above 0 ms of the calls without an error whose stream was opened, and no others.
  pub count_pages-Counts :
      (cs : List Completion) (m : Metrics) → Counts cs m (count_pages status_text cs m)
  unfolding count_pages count_page
  count_pages-Counts [] m = record {
    total = omega arith;
    failed = λ label. omega arith;
    seconds = sym (append-nil m.page_fetch_seconds);
  }
  count_pages-Counts (c ∷ rest) m =
      let (total, failed, seconds) = count_result_lem c.opening c.render_result c.fetch_err m in
      let later = count_pages-Counts rest (count_page status_text c m) in
      record {
        total = later.total ∙ omega (arith, total);
        failed = λ label. later.failed label ∙ omega (arith, failed label);
        seconds =
            later.seconds
            ∙ ap (λ t. t ++ times rest) seconds
            ∙ append_assoc m.page_fetch_seconds _ _;
      }
