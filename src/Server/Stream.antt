-- ===== src/Server/Stream.antt =====
-- Do of server/server.go: the loop over the messages of the stream, and the recovery from panics.
pub mod Completion
pub mod Replies
use Prim.Native.String.{◌++◌}
use veidemann_browser_contro.Prelude.{
  ℕ, Bool, true, false, String, if◌then◌else◌, Option, none, some, List, [], ◌∷◌, negsuc, inl, inr,
  ◌⊎◌,
}
use veidemann_browser_contro.Errors.{
  wraps_deadline, GoError, eof, canceled, deadline_exceeded, fetch_error, status_error, other, wrap,
  deadline_exceeded_code, canceled_code, unknown_code, Code, error_text, new_fetch_error,
}
use veidemann_browser_contro.Server.World.{
  World, DoRequest, new, notify, completed, no_action, Services, Conn, Outcome, next, returns,
  panics,
}
use veidemann_browser_contro.Server.Handlers.{M, handle_new, handle_notify, handle_completed}

-- What Recv gives, and what other goroutines did to the world before it returned.
pub data Received : Type 0 where
  message : ℕ → (World → World) → DoRequest → Received
  receive_error : GoError → Received

-- errors.Is for the two errors of a context.
unfoldable pub wraps_canceled : GoError → Bool
wraps_canceled canceled = true
wraps_canceled (wrap s e) = wraps_canceled e
wraps_canceled _ = false

module _ (services : Services) (status_text : Code → String → String) where
  unfoldable pub dispatch : ℕ → DoRequest → M (Unit {0})
  unfolding handle_new handle_notify handle_completed
  dispatch now (new v) = handle_new services now v
  dispatch now notify = handle_notify services now
  dispatch now (completed v) = handle_completed services now v
  dispatch now no_action = λ c. inl (tt, c)

  unfoldable pub settle : (Unit {0} × Conn) ⊎ Outcome → Outcome
  settle (inl (_, c)) = next c
  settle (inr o) = o

  -- The switch over the action of a message.
  unfoldable pub handle : ℕ → DoRequest → Conn → Outcome
  unfolding dispatch settle
  handle now request c = settle (dispatch now request c)

  -- The status for an error of Recv.
  unfoldable pub receive_status : GoError → GoError
  unfolding wraps_deadline wraps_canceled
  receive_status e =
      if wraps_deadline e
      then status_error deadline_exceeded_code
          ("Deadline exceeded while waiting for proxy request: " ++ error_text status_text e)
      else if wraps_canceled e
      then status_error canceled_code
          ("Browser controller canceled request: " ++ error_text status_text e)
      else status_error unknown_code
          ("Unknown error while waiting for proxy request: " ++ error_text status_text e)

  -- The deferred recovery: a panic in here is a runtime error.
  recovered : GoError
  recovered =
      new_fetch_error (negsuc 4) "Runtime error" (services.panic_text ++ ("\n" ++ services.stack))

  -- Do; none at the end of the list means that the stream still waits.
  unfoldable pub do_stream : Conn → List Received → Option (Option GoError) × Conn
  unfolding recovered
  do_stream c [] = (none, c)
  do_stream c (receive_error eof ∷ rest) = (some none, c)
  do_stream c (receive_error e ∷ rest) = (some (some (receive_status e)), c)
  do_stream c (message now others request ∷ rest) =
      elim (handle now request (record c { world = others c.world })) [
        | next c' ↦ do_stream c' rest
        | returns e c' ↦ (some e, c')
        | panics c' ↦ (some (some recovered), c')
      ]
