-- ===== src/Session/Cookies/Kept.antt =====
-- The cookies of session/session.go from one page to the pages that it links to.
use veidemann_browser_contro.Prelude.{ℕ, ◌≡◌, ℤ, pos, negsuc, ◌<◌, ◌^◌, String, arith}
use veidemann_browser_contro.Session.Cookies.{BrowserCookie, signed32, int32, CookieParam}

-- The size of a cookie that fits in an int32 is kept.
pub int32_lem : (n : ℕ) → n < 2 ^ 31 → (int32 (pos n) ≡ pos n) × (int32 (negsuc n) ≡ negsuc n)
unfolding int32 signed32
int32_lem n h = (ground arith, ground arith)

module _ (unix_time : ℕ → ℤ × ℤ) where
  -- The cookie of the browser, for the address of another page.
  abbrev pub restored : String → BrowserCookie → CookieParam
  restored uri c = record {
    name = c.name;
    value = c.value;
    url = uri;
    domain = c.domain;
    path = c.path;
    secure = c.secure;
    http_only = c.http_only;
    same_site = c.same_site;
    expires = unix_time c.expires;
  }
