-- ===== src/Server/Lifecycle/Counting.antt =====
-- The counter of server/statshandler.go.
use veidemann_browser_contro.Prelude.{ℕ, ◌+◌, List, [], ◌∷◌}
use veidemann_browser_contro.Server.Lifecycle.{RpcStats, begin, end, other_stats}

-- The calls that have begun, and those that have ended.
abbrev pub begun : List RpcStats → ℕ
begun [] = 0
begun (begin ∷ rest) = 1 + begun rest
begun (end e ∷ rest) = begun rest
begun (other_stats ∷ rest) = begun rest

abbrev pub ended : List RpcStats → ℕ
ended [] = 0
ended (begin ∷ rest) = ended rest
ended (end e ∷ rest) = 1 + ended rest
ended (other_stats ∷ rest) = ended rest
