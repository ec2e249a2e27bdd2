-- ===== src/Database/Connection/Tests.antt =====
-- A database that times out at first and then holds one object.
use veidemann_browser_contro.Prelude.{◌≡◌, refl, none, some, [], ◌∷◌, ◌==◌, if◌then◌else◌, itoa}
use veidemann_browser_contro.Errors.{ok, fail, wrap, other}
use veidemann_browser_contro.Config.{ConfigRef, ConfigObject, nil}
use veidemann_browser_contro.Database.ConfigCache.{Label}
use veidemann_browser_contro.Database.Retry.{success, query_timeout, recovery, exec_with_retry}
use veidemann_browser_contro.Database.Connection.{
  get_by_id, get_all_by_label, Cursor, Driver, exec_error, failed_after, returned, exec_read,
  all_rows, read, get_config_object, get_configs_for_selector,
}
use veidemann_browser_contro.Database.Connection.Answers.{Answer, reads-Answer}

abbrev object : ConfigObject
object = record { id = "x"; name = "script"; annotation = []; spec = nil }

abbrev cursor : Cursor
cursor = record { one = ok object; rows = object ∷ []; err = none }

abbrev slow : Driver
slow = record {
  timeout_error = other "timeout";
  closed_error = other "closed";
  run = λ q n. if n == 1 then query_timeout else success cursor;
}

abbrev ref : ConfigRef
ref = record { id = "x" }

abbrev label : Label
label = record { key = "scope"; value = "default" }

found_at_last : get_config_object slow 1 ref ≡ some (ok object)
unfolding get_config_object exec_read read returned exec_with_retry recovery
found_at_last = refl

given_up :
    get_config_object slow 0 ref
    ≡ some (fail (wrap "failed to get-config-object after 1 of 1 attempts" (other "timeout")))
unfolding get_config_object exec_read read returned exec_with_retry recovery exec_error failed_after
    itoa
given_up = refl

reads-Answer_example :
    Answer slow 1 "get-config-object" (get_by_id "x") (λ c. c.one) (get_config_object slow 1 ref)
    × Answer slow 1 "get-configs-by-label"
        (get_all_by_label "scope" "default" "browserScript")
        all_rows
        (get_configs_for_selector slow 1 label)
reads-Answer_example = reads-Answer slow 1 ref label
