-- ===== src/Session/Create/Tests.antt =====
-- A registry of session/registry.go that has handed out its first session.
use veidemann_browser_contro.Prelude.{
  append_text, itoa, ◌≡◌, refl, none, some, List, [], ◌∷◌, String, str_eq, if◌then◌else◌,
}
use veidemann_browser_contro.Errors.{Go, ok, fail, other}
use veidemann_browser_contro.Registry.{Registry, returns, new_registry, upwards, get_next_available}
use veidemann_browser_contro.Registry.Slots.{Inv}
use veidemann_browser_contro.Session.{
  Session, SessionOption, with_proxy_host, with_proxy_port, new_default_session,
}
use veidemann_browser_contro.Session.Create.{new_session}
use veidemann_browser_contro.Session.Create.Pool.{created, taken, Reach-Sound}

-- A URL as its text, to which parameters are appended.
abbrev param : String → String → String → String
param key value url = append_text url (append_text "&" (append_text key value))

abbrev url_text : String → String
url_text url = url

abbrev proxied : List SessionOption
proxied = with_proxy_host "proxy" ∷ with_proxy_port 9900 ∷ []

abbrev made : Session
unfolding new_default_session
made = record (new_default_session proxied) {
  id = 1;
  browser_ws_endpoint =
      "ws://localhost:3000&--proxy-serverhttp://proxy:9901&--ignore-certificate-errors&headlesstrue&timeout500000&trackingId1";
  workspace_endpoint = "http://localhost:3000/workspace";
}

made_lem : new_session (λ t. ok t) param param url_text proxied 1 ≡ ok made
unfolding new_session new_default_session itoa with_proxy_host with_proxy_port
made_lem = refl

abbrev fresh : Registry Session
fresh = record { sessions = none ∷ none ∷ none ∷ []; pool = 1 ∷ 2 ∷ []; capacity = 2; wg = 0 }

fresh_lem : new_registry 3 ≡ some fresh
unfolding new_registry upwards
fresh_lem = refl

abbrev in_use : Registry Session
in_use = record { sessions = none ∷ some made ∷ none ∷ []; pool = 2 ∷ []; capacity = 2; wg = 1 }

in_use_lem :
    get_next_available (new_session (λ t. ok t) param param url_text proxied) fresh
    ≡ returns (ok made, in_use)
unfolding get_next_available new_session made with_proxy_port with_proxy_host itoa
in_use_lem = refl

abbrev half_port : String → Go String
half_port url =
    if str_eq url "http://localhost:3000/workspace" then fail (other "no URL") else ok url

abbrev one_lost : Registry Session
one_lost = record { sessions = none ∷ none ∷ none ∷ []; pool = 2 ∷ []; capacity = 2; wg = 0 }

one_lost_lem :
    get_next_available (new_session half_port param param url_text proxied) fresh
    ≡ returns (fail (other "no URL"), one_lost)
unfolding get_next_available new_session with_proxy_port with_proxy_host itoa new_default_session
one_lost_lem = refl

Reach-Sound_example : Inv (λ s. s.id) one_lost (1 ∷ [])
Reach-Sound_example =
    Reach-Sound half_port param param url_text proxied 3 (1 ∷ []) one_lost
      (taken [] fresh (fail (other "no URL")) one_lost (created fresh fresh_lem) one_lost_lem)
