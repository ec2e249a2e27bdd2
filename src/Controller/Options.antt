-- ===== src/Controller/Options.antt =====
-- controller/options.go: what a controller is made from, without the clients; and New of
-- controller/browsercontroller.go. Times in milliseconds.
use veidemann_browser_contro.Prelude.{ℕ, ◌*◌, String, List, [], ◌∷◌}
use veidemann_browser_contro.Session.{SessionOption}

-- browserControllerOptions
pub record ControllerOptions : Type 0 where
  pub listen_interface : String
  pub listen_port : ℕ
  pub session_opts : List SessionOption
  pub max_sessions : ℕ
  pub close_timeout : ℕ

-- BrowserControllerOption, in the form of the function that it wraps.
abbrev pub ControllerOption : Type 0
ControllerOption = ControllerOptions → ControllerOptions

unfoldable pub default_controller_options : ControllerOptions
default_controller_options = record {
  listen_interface = "";
  listen_port = 8080;
  session_opts = [];
  max_sessions = 2;
  close_timeout = 5 * 60 * 1000;
}

unfoldable pub with_listen_interface : String → ControllerOption
with_listen_interface listen_interface o = record o { listen_interface = listen_interface }

unfoldable pub with_listen_port : ℕ → ControllerOption
with_listen_port port o = record o { listen_port = port }

unfoldable pub with_session_options : List SessionOption → ControllerOption
with_session_options opts o = record o { session_opts = opts }

unfoldable pub with_max_concurrent_sessions : ℕ → ControllerOption
with_max_concurrent_sessions max_sessions o = record o { max_sessions = max_sessions }

unfoldable pub with_close_timeout : ℕ → ControllerOption
with_close_timeout d o = record o { close_timeout = d }

apply_options : List ControllerOption → ControllerOptions → ControllerOptions
apply_options [] o = o
apply_options (opt ∷ opts) o = apply_options opts (opt o)

-- New; the options of the controller that it makes.
unfoldable pub new_controller : List ControllerOption → ControllerOptions
unfolding default_controller_options apply_options
new_controller opts = apply_options opts default_controller_options
