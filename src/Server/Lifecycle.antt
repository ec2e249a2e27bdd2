-- ===== src/Server/Lifecycle.antt =====
-- NewApiServer and Start of server/server.go, and the counter of server/statshandler.go. Listening,
-- and gRPC's server, are parameters.
mod Tests
pub mod Counting
use veidemann_browser_contro.Prelude.{
  ◌⊎◌, inl, inr, ℕ, ◌+◌, ◌-◌, ◌*◌, ◌%◌, ◌^◌, String, append_text, Option, none, some, List, [], ◌∷◌,
  itoa,
}
use veidemann_browser_contro.Errors.{GoError, wrap}

-- ApiServer, with its listener and its gRPC server once it has them.
pub record ApiServer (L G : Type 0) : Type 0 where
  pub addr : String
  pub ln : Option L
  pub grpc_server : Option G

module _ {L G : Type 0} where
  -- NewApiServer
  unfoldable pub new_api_server : String → ℕ → ApiServer L G
  new_api_server listen_interface listen_port = record {
    addr = append_text listen_interface (append_text ":" (itoa listen_port));
    ln = none;
    grpc_server = none;
  }

  -- Start: its error, and the server that it leaves behind.
  module _ (listen : String → GoError ⊎ L) (new_server : G) (serve : G → L → Option GoError) where
    unfoldable pub start : ApiServer L G → Option GoError × ApiServer L G
    start a = elim (listen a.addr) [
      | inl e ↦ (some (wrap "failed to start API server" e), a)
      | inr ln ↦ (serve new_server ln, record a { ln = some ln; grpc_server = some new_server })
    ]

-- stats.RPCStats, as far as HandleRPC tells them apart.
pub data RpcStats : Type 0 where
  begin other_stats : RpcStats
  end : Option GoError → RpcStats

-- HandleRPC: openRPCs, an int32, is kept by its 32 bits.
unfoldable pub handle_rpc : RpcStats → ℕ → ℕ
handle_rpc begin open_rpcs = (open_rpcs + 1) % 2 ^ 32
handle_rpc (end e) open_rpcs = (open_rpcs + 2 ^ 32 - 1) % 2 ^ 32
handle_rpc other_stats open_rpcs = open_rpcs

unfoldable pub handle_rpcs : List RpcStats → ℕ → ℕ
unfolding handle_rpc
handle_rpcs [] n = n
handle_rpcs (s ∷ rest) n = handle_rpcs rest (handle_rpc s n)
