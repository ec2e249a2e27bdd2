-- ===== src/Controller.antt =====
-- What the branches of Run of controller/browsercontroller.go do with its variables: the loop that hands
-- sessions to pages, and the goroutines that fetch them. A session is its id; the steps are those of
-- Controller/Run.
mod Tests
pub mod Options
pub mod Run
use veidemann_browser_contro.Prelude.{
  ℕ, ◌+◌, ◌-◌, ◌≡◌, ◌<◌, Bool, true, false, Option, none, some, List, [], ◌∷◌, ◌++◌, if◌then◌else◌,
}
use veidemann_browser_contro.Errors.{GoError, canceled, status_error, not_found_code, wrap}

-- The elements in `backoff`, a channel for one; the sessions whose pages are being fetched; and what Run
-- returned.
pub record Loop : Type 0 where
  pub backoff : ℕ
  pub fetching : List ℕ
  pub returned : Option (Option GoError)

unfoldable pub started : Loop
started = record { backoff = 0; fetching = []; returned = none }

unfoldable pub is_canceled : GoError → Bool
is_canceled canceled = true
is_canceled _ = false

-- The status code NotFound of status.FromError
unfoldable pub is_not_found : GoError → Bool
is_not_found (status_error not_found_code s) = true
is_not_found _ = false

-- GetNextAvailable failed.
unfoldable pub no_session : GoError → Loop → Loop
unfolding is_canceled
no_session e l =
    if is_canceled e
    then l
    else record l { returned = some (some (wrap "failed to get next session" e)) }

-- GetNextPage failed.
unfoldable pub no_page : GoError → Loop → Loop
unfolding is_not_found
no_page e l =
    if is_not_found e
    then record l { backoff = l.backoff + 1 }
    else record l { returned = some (some (wrap "failed to get next page" e)) }

-- The goroutine starts.
unfoldable pub fetch_page : ℕ → Loop → Loop
fetch_page s l = record l { fetching = s ∷ l.fetching }

-- The goroutine ends.
unfoldable pub fetched : List ℕ → List ℕ → Loop → Loop
fetched before after l = record l { fetching = before ++ after }
