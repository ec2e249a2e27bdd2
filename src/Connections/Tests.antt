-- ===== src/Connections/Tests.antt =====
-- The theorems on connections at small inputs.
use veidemann_browser_contro.Prelude.{◌≡◌, ◌≢◌, ◌↔◌, refl, false, Bool, Option, none, some, []}
use veidemann_browser_contro.Errors.{Go, ok, GoError}
use veidemann_browser_contro.Config.{ConfigObject, politeness_config, obey_robots_classic}
use veidemann_browser_contro.Server.World.{IsAllowedRequest}
use veidemann_browser_contro.Connections.{close, close_inverted}
use veidemann_browser_contro.Connections.Robots.{is_allowed, Blocked, is_allowed_iff}

closed_without_error :
    (close "Frontier" (some none) ≢ none)
    ↔ (◌≡◌ {A = Option (Option GoError)} (some none) (some none))
closed_without_error = close_inverted "Frontier" (some none)

abbrev politeness : ConfigObject
politeness = record {
  id = "p";
  name = "";
  annotation = [];
  spec = politeness_config obey_robots_classic;
}

abbrev question : IsAllowedRequest
question = record {
  job_execution_id = "j";
  execution_id = "e";
  uri = "http://a.no/";
  user_agent = "";
  politeness = some politeness;
  collection_ref = record { id = "c" };
}

abbrev forbids : IsAllowedRequest → Go Bool
forbids q = ok false

asked_and_blocked : is_allowed forbids question ≡ ok false
unfolding is_allowed
asked_and_blocked = refl

is_allowed_iff_example :
    (is_allowed forbids question ≡ ok false)
    ↔ Blocked forbids question politeness obey_robots_classic
is_allowed_iff_example = is_allowed_iff forbids question politeness obey_robots_classic refl refl
