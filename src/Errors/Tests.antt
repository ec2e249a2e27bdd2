-- ===== src/Errors/Tests.antt =====
-- Tests of errors/error.go.
use veidemann_browser_contro.Prelude.{◌≡◌, refl, String, negsuc}
use veidemann_browser_contro.Errors.{Code, new_fetch_error, wrap, eof, commons_error, error_text}

abbrev no_status : Code → String → String
no_status c s = s

wrapped_text :
    error_text no_status (wrap "failed" (new_fetch_error (negsuc 4099) "a" "b"))
    ≡ "failed: -4100 a: b"
unfolding error_text new_fetch_error
wrapped_text = refl

wrapped_code : (commons_error no_status (wrap "failed" eof)).code ≡ negsuc 4
unfolding commons_error
wrapped_code = refl
