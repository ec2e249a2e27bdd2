-- ===== src/Frontier/Metrics/Tests.antt =====
-- Three pages: one fetched in less than two seconds, one that failed, and one whose stream did not open.
use veidemann_browser_contro.Prelude.{
  ℕ, ◌≡◌, refl, String, none, some, List, [], ◌∷◌, negsuc, lookup, insert, itoa_ℤ, itoa,
}
use veidemann_browser_contro.Errors.{Code, fetch_error, other, commons_error}
use veidemann_browser_contro.Frontier.{RenderResult}
use veidemann_browser_contro.Frontier.Metrics.{
  Metrics, Completion, count_pages, count_page, count_result, inc_failed, observe,
  with_label_values,
}
use veidemann_browser_contro.Frontier.Metrics.Counts.{Counts, count_pages-Counts}

abbrev no_status : Code → String → String
no_status c s = s

abbrev no_pages : Metrics
no_pages = record { pages_total = 0; pages_failed_total = []; page_fetch_seconds = [] }

abbrev result_in : ℕ → RenderResult
result_in ms = record {
  bytes_downloaded = 100;
  uri_count = 2;
  outlinks = [];
  page_fetch_time_ms = ms;
}

abbrev pages : List Completion
pages =
    record { opening = none; render_result = result_in 1999; fetch_err = none }
    ∷ record {
      opening = none;
      render_result = result_in 0;
      fetch_err = some (fetch_error (record { code = negsuc 5003; msg = "Timeout"; detail = "" }));
    }
    ∷ record {
      opening = some (other "unavailable");
      render_result = result_in 10;
      fetch_err = none;
    }
    ∷ []

counted_lem : count_pages no_status pages no_pages ≡ record {
  pages_total = 3;
  pages_failed_total = ("-5004", 1) ∷ [];
  page_fetch_seconds = 1 ∷ [];
}
unfolding count_pages count_page count_result inc_failed observe with_label_values lookup insert
    itoa_ℤ itoa commons_error
counted_lem = refl

count_pages-Counts_example : Counts no_status pages no_pages (count_pages no_status pages no_pages)
count_pages-Counts_example = count_pages-Counts no_status pages no_pages
