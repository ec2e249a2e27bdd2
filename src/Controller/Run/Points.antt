-- ===== src/Controller/Run/Points.antt =====
-- What the points of Run of controller/browsercontroller.go and the state of the server say.
use veidemann_browser_contro.Prelude.{
  ℕ, ◌≡◌, ◌≢◌, refl, ◌⊎◌, inl, inr, Option, none, some, List, [], ◌∷◌, arith,
}
use veidemann_browser_contro.Errors.{GoError}
use veidemann_browser_contro.Controller.Run.{
  Point, looping, taking, asking, closing, closed, ServerState, serving, announced, cancelled,
  failed, next_point,
}

module _ {S : Type 0} where
  -- The session for which Run asks the frontier for a page.
  abbrev pub hand : Point S → List S
  hand (asking s) = s ∷ []
  hand looping = []
  hand taking = []
  hand (closing e) = []
  hand (closed elapsed e) = []

  abbrev pub result : Point S → Option (Option GoError)
  result looping = none
  result taking = none
  result (asking s) = none
  result (closing e) = some e
  result (closed elapsed e) = some e

  -- Below the default case of the select the channel of the back-off is empty.
  abbrev pub Quiet : Point S → ℕ → Type 0
  Quiet taking b = b ≡ 0
  Quiet (asking s) b = b ≡ 0
  Quiet looping b = Unit
  Quiet (closing e) b = Unit
  Quiet (closed elapsed e) b = Unit

pub hand-next_point : (S : Type 0) (r : Option (Option GoError)) → hand (next_point {S = S} r) ≡ []
unfolding next_point
hand-next_point S none = refl
hand-next_point S (some e) = refl

pub result-next_point :
    (S : Type 0) (r : Option (Option GoError)) → result (next_point {S = S} r) ≡ r
unfolding next_point
result-next_point S none = refl
result-next_point S (some e) = refl

pub next_point-Quiet :
    (S : Type 0) (r : Option (Option GoError)) (b : ℕ) → Quiet (next_point {S = S} r) b
unfolding next_point
next_point-Quiet S none b = tt
next_point-Quiet S (some e) b = tt

-- Once the server has announced its end, a message waits in `done`, or Run has its result.
abbrev pub Told : ServerState → Option (Option GoError) → Option (Option GoError) → Type 0
Told serving m returned = Unit
Told (failed e) m returned = Unit
Told announced m returned = (m ≢ none) ⊎ (returned ≢ none)
Told cancelled m returned = (m ≢ none) ⊎ (returned ≢ none)

pub Told-running :
    (v : ServerState) (m returned : Option (Option GoError)) → Told v m none → Told v m returned
Told-running serving m returned h = tt
Told-running (failed e) m returned h = tt
Told-running announced m returned h = ground arith
Told-running cancelled m returned h = ground arith

pub Told-full :
    (v : ServerState) (e : Option GoError) (returned : Option (Option GoError))
    → Told v (some e) returned
Told-full serving e returned = tt
Told-full (failed x) e returned = tt
Told-full announced e returned = inl (λ q. cc)
Told-full cancelled e returned = inl (λ q. cc)

pub Told-stopped :
    (v : ServerState) (m : Option (Option GoError)) (e : Option GoError) → Told v m (some e)
Told-stopped serving m e = tt
Told-stopped (failed x) m e = tt
Told-stopped announced m e = inr (λ q. cc)
Told-stopped cancelled m e = inr (λ q. cc)
