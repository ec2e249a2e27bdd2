-- ===== src/Session/Cookies.antt =====
-- getCookieParams and extractCookies of session/session.go: the cookies that a page's browser ends with go
-- with its outlinks, and the browser of such a page starts with them.
mod Tests
pub mod Kept
use veidemann_browser_contro.Prelude.{
  ℕ, ◌+◌, ◌-◌, ◌%◌, ◌^◌, ℤ, pos, negsuc, Bool, String, List, [], map, ltb, if◌then◌else◌,
}
use veidemann_browser_contro.Errors.{Go, ok, fail, panic}
use veidemann_browser_contro.Config.{Cookie, QueuedUri}

-- network.Cookie; the time is a float64, by its bits.
pub record BrowserCookie : Type 0 where
  pub name : String
  pub value : String
  pub domain : String
  pub path : String
  pub expires : ℕ
  pub size : ℤ
  pub http_only : Bool
  pub secure : Bool
  pub session : Bool
  pub same_site : String

-- The last 32 bits, with their sign.
unfoldable pub signed32 : ℕ → ℤ
signed32 n = if ltb n (2 ^ 31) then pos n else negsuc (2 ^ 32 - n - 1)

-- int32(n) for an int64.
unfoldable pub int32 : ℤ → ℤ
unfolding signed32
int32 (pos n) = signed32 (n % 2 ^ 32)
int32 (negsuc n) = signed32 (2 ^ 32 - 1 - n % 2 ^ 32)

unfoldable pub cookie_of : BrowserCookie → Cookie
unfolding int32
cookie_of c = record {
  name = c.name;
  value = c.value;
  domain = c.domain;
  path = c.path;
  expires = c.expires;
  size = int32 c.size;
  http_only = c.http_only;
  secure = c.secure;
  session = c.session;
  same_site = c.same_site;
}

-- extractCookies, of what network.GetAllCookies gives; an error is only logged.
unfoldable pub extract_cookies : Go (List BrowserCookie) → Go (List Cookie)
unfolding cookie_of
extract_cookies (ok cookies) = ok (map cookie_of cookies)
extract_cookies (fail e) = ok []
extract_cookies panic = panic

-- network.CookieParam; the time in seconds and nanoseconds.
pub record CookieParam : Type 0 where
  pub name : String
  pub value : String
  pub url : String
  pub domain : String
  pub path : String
  pub secure : Bool
  pub http_only : Bool
  pub same_site : String
  pub expires : ℤ × ℤ

-- getCookieParams; what math.Modf and the conversions make of a time is a parameter.
module _ (unix_time : ℕ → ℤ × ℤ) where
  unfoldable pub cookie_param : String → Cookie → CookieParam
  cookie_param uri c = record {
    name = c.name;
    value = c.value;
    url = uri;
    domain = c.domain;
    path = c.path;
    secure = c.secure;
    http_only = c.http_only;
    same_site = c.same_site;
    expires = unix_time c.expires;
  }

  unfoldable pub get_cookie_params : QueuedUri → List CookieParam
  unfolding cookie_param
  get_cookie_params uri = map (cookie_param uri.uri) uri.cookies
