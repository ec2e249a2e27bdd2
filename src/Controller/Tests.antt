-- ===== src/Controller/Tests.antt =====
-- The branches of the controller.
use veidemann_browser_contro.Prelude.{◌≡◌, refl, none, []}
use veidemann_browser_contro.Errors.{status_error, not_found_code}
use veidemann_browser_contro.Controller.{started, no_page, fetch_page, fetched, is_not_found}

-- Session 1 fetches a page, session 2 finds none, and the fetch ends.
one_page :
    fetched [] [] (no_page (status_error not_found_code "") (fetch_page 1 started))
    ≡ record { backoff = 1; fetching = []; returned = none }
unfolding started no_page is_not_found fetch_page fetched
one_page = refl
