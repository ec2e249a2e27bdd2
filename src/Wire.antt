-- ===== src/Wire.antt =====
-- A gRPC stream of a client, as frontier/frontier.go and screenshotwriter/screenshotwriter.go use it.
pub mod Delivery
use veidemann_browser_contro.Prelude.{Option, none, some, List, [], ◌∷◌, ◌++◌}
use veidemann_browser_contro.Errors.{GoError}

-- The result of opening the stream, of Send and of CloseAndRecv, the latter two after what was sent
-- before.
pub record Stream (Msg : Type 0) : Type 0 where
  pub opening : Option GoError
  pub send : List Msg → Msg → Option GoError
  pub close_and_recv : List Msg → Option GoError

-- What went out, and the error that is returned.
abbrev pub Sent : Type 0 → Type 0
Sent Msg = List Msg × Option GoError

module _ {Msg : Type 0} where
  -- One Send, what is returned if it fails, and what follows if it succeeds.
  abbrev pub sending :
      Stream Msg
      → (List Msg → GoError → GoError)
      → Msg
      → (List Msg → Sent Msg)
      → List Msg
      → Sent Msg
  sending stream failed m next sent = elim (stream.send sent m) [
    | none ↦ next (sent ++ m ∷ [])
    | some e ↦ (sent, some (failed sent e))
  ]

  unfoldable pub close_stream : Stream Msg → List Msg → Sent Msg
  close_stream stream sent = (sent, stream.close_and_recv sent)
