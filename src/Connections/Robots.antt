-- ===== src/Connections/Robots.antt =====
-- IsAllowed of robotsevaluator/robotsevaluator.go.
use veidemann_browser_contro.Prelude.{
  ◌≡◌, ◌↔◌, refl, Bool, true, false, Option, none, some, arith, if◌then◌else◌,
}
use veidemann_browser_contro.Errors.{Go, ok, fail, panic}
use veidemann_browser_contro.Config.{
  ConfigObject, politeness_config, RobotsPolicy, obey_robots, ignore_robots, custom_robots,
  custom_if_missing, obey_robots_classic, custom_robots_classic, custom_if_missing_classic,
}
use veidemann_browser_contro.Server.World.{IsAllowedRequest}

resolved : RobotsPolicy → RobotsPolicy
resolved obey_robots_classic = obey_robots
resolved custom_robots_classic = custom_robots
resolved custom_if_missing_classic = custom_if_missing
resolved _ = ignore_robots

ignores : RobotsPolicy → Bool
ignores ignore_robots = true
ignores _ = false

-- resolvePolicy; the write to the politeness of a config object without one panics.
unfoldable pub resolve_policy : Option ConfigObject → Go (ConfigObject × Bool)
unfolding resolved ignores
resolve_policy none = panic
resolve_policy (some o) = elim o.spec [
  | politeness_config p ↦
      ok (record o { spec = politeness_config (resolved p) }, ignores (resolved p))
  | _ ↦ panic
]

-- The answer of the service, or what stands for it if there is an error.
answer : Go Bool → Go Bool
answer (ok allowed) = ok allowed
answer (fail e) = ok true
answer panic = panic

-- IsAllowed
unfoldable pub is_allowed : (IsAllowedRequest → Go Bool) → IsAllowedRequest → Go Bool
unfolding resolve_policy answer
is_allowed client request = elim (resolve_policy request.politeness) [
  | ok (o, true) ↦ ok true
  | ok (o, false) ↦ answer (client (record request { politeness = some o }))
  | fail e ↦ fail e
  | panic ↦ panic
]

-- The policies about which the service is asked, and as which.
pub data Asks : RobotsPolicy → RobotsPolicy → Type 0 where
  obeys : Asks obey_robots_classic obey_robots
  custom : Asks custom_robots_classic custom_robots
  if_missing : Asks custom_if_missing_classic custom_if_missing

abbrev pub with_policy : IsAllowedRequest → ConfigObject → RobotsPolicy → IsAllowedRequest
with_policy request o p = record request {
  politeness = some (record o { spec = politeness_config p });
}

answer_lem : (g : Go Bool) → answer g ≡ ok false → g ≡ ok false
unfolding answer
answer_lem (ok allowed) e = e
answer_lem (fail x) e = cc
answer_lem panic e = cc

-- What IsAllowed does with a policy.
by_policy : (IsAllowedRequest → Go Bool) → IsAllowedRequest → ConfigObject → RobotsPolicy → Go Bool
unfolding answer resolved ignores
by_policy client request o p =
    if ignores (resolved p) then ok true else answer (client (with_policy request o (resolved p)))

is_allowed-by_policy :
    (client : IsAllowedRequest → Go Bool) (request : IsAllowedRequest) (o : ConfigObject)
    (p : RobotsPolicy)
    → request.politeness ≡ some o
    → o.spec ≡ politeness_config p
    → is_allowed client request ≡ by_policy client request o p
unfolding is_allowed resolve_policy by_policy
is_allowed-by_policy client request o p e f = ground arith

abbrev pub Blocked :
    (IsAllowedRequest → Go Bool) → IsAllowedRequest → ConfigObject → RobotsPolicy → Type 0
Blocked client request o p =
    (p' : RobotsPolicy) × Asks p p' × (client (with_policy request o p') ≡ ok false)

by_policy-Blocked :
    (client : IsAllowedRequest → Go Bool) (request : IsAllowedRequest) (o : ConfigObject)
    (p : RobotsPolicy)
    → (by_policy client request o p ≡ ok false) ↔ Blocked client request o p
unfolding by_policy answer resolved ignores
by_policy-Blocked client request o obey_robots_classic =
    (λ e. (_, Asks.obeys, answer_lem _ e), λ b. back b)
  where
    back :
        Blocked client request o obey_robots_classic
        → answer (client (with_policy request o obey_robots)) ≡ ok false
    back (p', Asks.obeys, q) = rw q refl
by_policy-Blocked client request o custom_robots_classic =
    (λ e. (_, Asks.custom, answer_lem _ e), λ b. back b)
  where
    back :
        Blocked client request o custom_robots_classic
        → answer (client (with_policy request o custom_robots)) ≡ ok false
    back (p', Asks.custom, q) = rw q refl
by_policy-Blocked client request o custom_if_missing_classic =
    (λ e. (_, Asks.if_missing, answer_lem _ e), λ b. back b)
  where
    back :
        Blocked client request o custom_if_missing_classic
        → answer (client (with_policy request o custom_if_missing)) ≡ ok false
    back (p', Asks.if_missing, q) = rw q refl
by_policy-Blocked client request o obey_robots = (λ e. cc, λ b. elim b.1 [ ])
by_policy-Blocked client request o ignore_robots = (λ e. cc, λ b. elim b.1 [ ])
by_policy-Blocked client request o custom_robots = (λ e. cc, λ b. elim b.1 [ ])
by_policy-Blocked client request o custom_if_missing = (λ e. cc, λ b. elim b.1 [ ])

-- For a request whose politeness is a politeness config, IsAllowed forbids the URI exactly if the
-- policy is one of the three classic ones and the evaluator, asked with the same request under the
-- corresponding other policy, forbids it: under any other policy, and if the evaluator fails, the URI
-- is allowed.
pub is_allowed_iff :
    (client : IsAllowedRequest → Go Bool) (request : IsAllowedRequest) (o : ConfigObject)
    (p : RobotsPolicy)
    → request.politeness ≡ some o
    → o.spec ≡ politeness_config p
    → (is_allowed client request ≡ ok false) ↔ Blocked client request o p
is_allowed_iff client request o p e f =
    rw (is_allowed-by_policy client request o p e f) (by_policy-Blocked client request o p)
