-- ===== src/Logger/Tests.antt =====
-- The defaults of main.go, a level in capitals, and one that does not exist.
use veidemann_browser_contro.Prelude.{◌≡◌, refl, true, false, some, none}
use veidemann_browser_contro.Logger.{info_level, warn_level, init_log}

defaults :
    init_log "info" "logfmt" false
    ≡ record { level = some info_level; console = true; caller = false }
unfolding init_log
defaults = refl

capitals :
    init_log "WARN" "json" true ≡ record { level = some warn_level; console = false; caller = true }
unfolding init_log
capitals = refl

unknown : init_log "verbose" "json" false ≡ record { level = none; console = false; caller = false }
unfolding init_log
unknown = refl
