-- ===== src/Server/Timeouts/Tests.antt =====
-- A proxy that answers late, and a context that is done before a message comes.
use veidemann_browser_contro.Prelude.{ℕ, ◌≡◌, ◌≢◌, refl, ◌⊎◌, Option, none, some, [], ◌∷◌, All}
use veidemann_browser_contro.Errors.{GoError, canceled}
use veidemann_browser_contro.Server.Timeouts.{
  Happens, select, too_slow, do_with_timeout, taken_case, drain, send, recv,
}
use veidemann_browser_contro.Server.Timeouts.Bounds.{InTime, send-InTime, Prompt, recv-Prompt}

abbrev late : Happens (Option GoError)
late = some (6000, none)

late_is_too_slow : send late ≡ some (5000, some too_slow) ∷ []
unfolding send do_with_timeout select taken_case drain
late_is_too_slow = refl

just_in_time : send (some (5000, none)) ≡ some (5000, some too_slow) ∷ some (5000, none) ∷ []
unfolding send do_with_timeout select taken_case drain
just_in_time = refl

send-InTime_example : (send late ≢ []) × All (InTime 5000 late) (send late)
send-InTime_example = send-InTime late

abbrev disconnected : Happens GoError
disconnected = some (3, canceled)

abbrev seventh : Happens (Option ℕ × Option GoError)
seventh = some (7, (some 1, none))

disconnected-Prompt :
    ((recv disconnected seventh ≢ []) ⊎ ((disconnected ≡ none) × (seventh ≡ none)))
    × All (Prompt disconnected seventh) (recv disconnected seventh)
disconnected-Prompt = recv-Prompt disconnected seventh
