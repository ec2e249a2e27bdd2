-- ===== src/Connections.antt =====
-- Close of serviceconnections/connect.go, and the question of robotsevaluator/robotsevaluator.go.
mod Tests
pub mod Robots
pub mod Options
pub mod Clients
use Prim.Native.String.{◌++◌ as append_text}
use veidemann_browser_contro.Prelude.{◌≡◌, ◌≢◌, ◌↔◌, refl, String, Option, none, some, arith}
use veidemann_browser_contro.Errors.{GoError, other}

-- Close of a client by the name of its service: of the connection, if there is one, the result of its
-- own Close. fmt.Errorf makes an error of nil too.
unfoldable pub close : String → Option (Option GoError) → Option GoError
close service_name none = none
close service_name (some none) = some (other (append_text service_name ": %!w(<nil>)"))
close service_name (some (some e)) = none

-- Close returns an error exactly if there is a connection and it was closed without one.
pub close_inverted :
    (service_name : String) (conn : Option (Option GoError))
    → (close service_name conn ≢ none) ↔ (conn ≡ some none)
unfolding close
close_inverted service_name none = (λ h. absurd (h refl), λ e. cc)
close_inverted service_name (some none) = (λ h. refl, λ e. λ f. cc)
close_inverted service_name (some (some e)) = (λ h. absurd (h refl), λ f. cc)
