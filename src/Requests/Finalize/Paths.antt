-- ===== src/Requests/Finalize/Paths.antt =====
-- The discovery paths that requests/requests.go writes form a tree: what a request inherits is the
-- final path of its parent.
use veidemann_browser_contro.Prelude.{
  String, List, ◌∷◌, ◌++◌, str_eq, lookup, insert, length, if◌then◌else◌,
}
use veidemann_browser_contro.Config.{QueuedUri}
use veidemann_browser_contro.Requests.{Request}
use veidemann_browser_contro.Requests.Finalize.{
  Finalizing, with_parent, with_log, finalize_all, start,
}

-- The state in which the request behind `xs` is reached.
module _ (requested : QueuedUri) (xs ys : List Request) (rr : Request) where
  reached : Finalizing
  reached = finalize_all requested start xs

  result : Finalizing
  result = finalize_all requested start (xs ++ rr ∷ ys)

  written : Request
  unfolding reached
  written =
      with_log requested reached.before (insert rr.url (length reached.before) reached.urls)
        (with_parent (lookup rr.network_id reached.ids) rr)

  -- The letter for a request that is not the first and was redirected to.
  redirect_type : String
  redirect_type = if str_eq rr.initiator "script" then "X" else "R"
