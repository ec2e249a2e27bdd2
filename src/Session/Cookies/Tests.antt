-- ===== src/Session/Cookies/Tests.antt =====
-- A page whose browser ends with one cookie.
use veidemann_browser_contro.Prelude.{ℕ, ◌≡◌, refl, ℤ, pos, negsuc, true, false, some, [], ◌∷◌}
use veidemann_browser_contro.Config.{Cookie}
use veidemann_browser_contro.Requests.{RequestRegistry}
use veidemann_browser_contro.Requests.Samples.{registry}
use veidemann_browser_contro.Frontier.{RenderResult}
use veidemann_browser_contro.Session.Cookies.{BrowserCookie, int32}

abbrev login : BrowserCookie
login = record {
  name = "id";
  value = "7";
  domain = "a.no";
  path = "/";
  expires = 0;
  size = pos 3;
  http_only = true;
  secure = false;
  session = true;
  same_site = "Lax";
}

abbrev kept : Cookie
kept = record {
  name = "id";
  value = "7";
  domain = "a.no";
  path = "/";
  expires = 0;
  size = pos 3;
  http_only = true;
  secure = false;
  session = true;
  same_site = "Lax";
}

wraps : int32 (pos 4294967295) ≡ negsuc 0
unfolding int32
wraps = refl

abbrev settled : RequestRegistry
settled = record registry { root = some 1 }

abbrev reported : RenderResult
reported = record {
  bytes_downloaded = 30;
  uri_count = 2;
  outlinks =
      record {
        uri = "http://a.no/d";
        execution_id = "e";
        job_execution_id = "j";
        discovery_path = "L";
        referrer = "http://a.no/b";
        cookies = kept ∷ [];
        annotation = [];
      }
      ∷ [];
  page_fetch_time_ms = 1500;
}

abbrev unix_time : ℕ → ℤ × ℤ
unix_time bits = (pos bits, pos 0)
