-- ===== src/Frontier/Metrics.antt =====
-- The metrics of metrics/metrics.go that PageCompleted of frontier/frontier.go changes.
pub mod Counts
mod Tests
use veidemann_browser_contro.Prelude.{
  ℕ, zero, suc, ◌+◌, ◌/◌, String, Option, none, some, List, [], ◌∷◌, ◌++◌, ltb, if◌then◌else◌,
  lookup, insert, itoa_ℤ,
}
use veidemann_browser_contro.Errors.{Code, GoError, commons_error}
use veidemann_browser_contro.Frontier.{RenderResult}

-- PagesTotal, PagesFailedTotal by the label of its code, and the observations of PageFetchSeconds.
pub record Metrics : Type 0 where
  pub pages_total : ℕ
  pub pages_failed_total : List (String × ℕ)
  pub page_fetch_seconds : List ℕ

-- The value of a counter; one that no call has made is 0.
abbrev pub value_of : Option ℕ → ℕ
value_of none = 0
value_of (some n) = n

unfoldable pub with_label_values : String → List (String × ℕ) → ℕ
with_label_values label m = value_of (lookup label m)

unfoldable pub inc_failed : String → Metrics → Metrics
unfolding with_label_values
inc_failed label m = record m {
  pages_failed_total =
      insert label (suc (with_label_values label m.pages_failed_total)) m.pages_failed_total;
}

-- The time is divided as an integer before it is made a float64.
unfoldable pub observe : RenderResult → Metrics → Metrics
observe r m =
    if ltb 0 r.page_fetch_time_ms
    then record m { page_fetch_seconds = m.page_fetch_seconds ++ r.page_fetch_time_ms / 1000 ∷ [] }
    else m

-- A call of PageCompleted: what opening the stream gave, and its arguments.
pub record Completion : Type 0 where
  pub opening : Option GoError
  pub render_result : RenderResult
  pub fetch_err : Option GoError

module _ (status_text : Code → String → String) where
  -- The label of the counter that an error of a fetch raises.
  abbrev pub label_of : GoError → String
  label_of e = itoa_ℤ (commons_error status_text e).code

  -- What is counted once the stream is opened, or not; `return err` is before the other metrics.
  unfoldable pub count_result : Option GoError → RenderResult → Option GoError → Metrics → Metrics
  unfolding inc_failed observe
  count_result (some e) r fetch_err m = m
  count_result none r (some e) m = inc_failed (label_of e) m
  count_result none r none m = observe r m

  -- What PageCompleted counts; that of PagesTotal is deferred.
  unfoldable pub count_page : Completion → Metrics → Metrics
  unfolding count_result
  count_page c m =
      let counted = count_result c.opening c.render_result c.fetch_err m in
      record counted { pages_total = suc counted.pages_total }

  -- Calls one after the other.
  unfoldable pub count_pages : List Completion → Metrics → Metrics
  unfolding count_page
  count_pages [] m = m
  count_pages (c ∷ rest) m = count_pages rest (count_page c m)
