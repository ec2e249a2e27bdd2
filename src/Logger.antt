-- ===== src/Logger.antt =====
-- InitLog of logger/logger.go: what the flags of main.go make of the logger.
mod Tests
use Prim.Native.Char.{code, Char}
use Prim.Native.String
use veidemann_browser_contro.Prelude.{
  ℕ, ◌+◌, ◌-◌, ◌==◌, Bool, true, false, ◌&&◌, String, Option, none, some, str_eq, if◌then◌else◌,
  leb,
}

-- zerolog.Level, those that are set.
pub data Level : Type 0 where
  panic_level fatal_level error_level warn_level info_level debug_level trace_level : Level

-- The logger: its level, if one was set; output for a console; and whether it names the caller.
pub record Logger : Type 0 where
  pub level : Option Level
  pub console : Bool
  pub caller : Bool

-- The letter that strings.ToLower makes of a character, where this is one of ASCII; U+0130 and U+212A
-- are the characters outside of ASCII that it takes there.
unfoldable pub to_lower : ℕ → ℕ
to_lower c =
    if leb 65 c && leb c 90 then c + 32 else if c == 304 then 105 else if c == 8490 then 107 else c

-- strings.ToLower(level) == name, for a name in ASCII.
unfoldable pub lower_is : String → String → Bool
unfolding to_lower
lower_is String.[] String.[] = true
lower_is (String.◌∷◌ c s) (String.◌∷◌ d t) = to_lower (code c) == code d && lower_is s t
lower_is _ _ = false

unfoldable pub level_of : String → Option Level
unfolding lower_is
level_of level =
    if lower_is level "panic"
    then some panic_level
    else if lower_is level "fatal"
    then some fatal_level
    else if lower_is level "error"
    then some error_level
    else if lower_is level "warn"
    then some warn_level
    else if lower_is level "info"
    then some info_level
    else if lower_is level "debug"
    then some debug_level
    else if lower_is level "trace"
    then some trace_level
    else none

-- InitLog
unfoldable pub init_log : String → String → Bool → Logger
unfolding level_of
init_log level format log_caller = record {
  level = level_of level;
  console = str_eq format "logfmt";
  caller = log_caller;
}
