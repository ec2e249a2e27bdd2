-- ===== src/Url/Tests.antt =====
-- A URL library with one URL, which has a second spelling.
use veidemann_browser_contro.Prelude.{◌≡◌, refl, ◌⊎◌, inl, inr, String, str_eq, if◌then◌else◌}
use veidemann_browser_contro.Errors.{GoError, other}
use veidemann_browser_contro.Url.{normalize, normalize-normalize}

abbrev parse : String → GoError ⊎ Unit {0}
parse u =
    if str_eq u "HTTP://a.no"
    then inr tt
    else if str_eq u "http://a.no/"
    then inr tt
    else inl (other "invalid URL")

abbrev print : Unit {0} → String
print p = "http://a.no/"

normalized : normalize parse print "HTTP://a.no" ≡ "http://a.no/"
unfolding normalize
normalized = refl

not_a_url : normalize parse print "a" ≡ "a"
unfolding normalize
not_a_url = refl

normalized_twice :
    normalize parse print (normalize parse print "HTTP://a.no")
    ≡ normalize parse print "HTTP://a.no"
normalized_twice = normalize-normalize parse print "HTTP://a.no" (λ p. refl)
