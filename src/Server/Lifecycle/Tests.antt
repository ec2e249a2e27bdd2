-- ===== src/Server/Lifecycle/Tests.antt =====
-- A port that is taken, and a few calls.
use veidemann_browser_contro.Prelude.{
  ℕ, ◌≡◌, refl, ◌⊎◌, inl, String, Option, none, some, List, [], ◌∷◌,
}
use veidemann_browser_contro.Errors.{GoError, other, wrap}
use veidemann_browser_contro.Server.Lifecycle.{
  new_api_server, start, RpcStats, begin, end, other_stats,
}

abbrev taken : String → GoError ⊎ ℕ
taken addr = inl (other "address in use")

abbrev serve : ℕ → ℕ → Option GoError
serve g ln = none

not_started :
    start taken 1 serve (new_api_server "" 8080)
    ≡ (some (wrap "failed to start API server" (other "address in use")), new_api_server "" 8080)
unfolding start
not_started = refl

abbrev calls : List RpcStats
calls = begin ∷ other_stats ∷ begin ∷ end none ∷ []
