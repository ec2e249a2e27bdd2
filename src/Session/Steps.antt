-- ===== src/Session/Steps.antt =====
-- Steps of session/session.go that change a state, may fail or panic, and may run out of fuel; and
-- what `defer` adds to them.
use veidemann_browser_contro.Prelude.{Option, none, some}
use veidemann_browser_contro.Errors.{Go, ok, fail, panic, GoError}

-- none means that the fuel ran out.
abbrev pub Steps : Type 0 → Type 0 → Type 0
Steps S A = S → Option (Go A × S)

-- The result of a function after a deferred call that may panic.
abbrev pub unless_panic : {A : Type 0} → Go (Unit {0}) → Go A → Go A
unless_panic panic r = panic
unless_panic (ok u) r = r
unless_panic (fail e) r = r

module _ {S : Type 0} where
  abbrev pub then_run : {A B : Type 0} → (A → Steps S B) → Option (Go A × S) → Option (Go B × S)
  then_run f none = none
  then_run f (some (ok a, s)) = f a s
  then_run f (some (fail e, s)) = some (fail e, s)
  then_run f (some (panic, s)) = some (panic, s)

  infixl 5 ◌>>=◌
  abbrev pub ◌>>=◌ : {A B : Type 0} → Steps S A → (A → Steps S B) → Steps S B
  ◌>>=◌ m f s = then_run f (m s)

  infixl 5 ◌>>◌
  abbrev pub ◌>>◌ : {A B : Type 0} → Steps S A → Steps S B → Steps S B
  ◌>>◌ m n s = then_run (λ a. n) (m s)

  -- A call that always returns, and its result as a value.
  abbrev pub call : {A : Type 0} → (S → Go A × S) → Steps S A
  call f s = some (f s)

  abbrev pub attempt : {A : Type 0} → (S → Go A × S) → Steps S (Go A)
  attempt f s = let (r, s') = f s in some (ok r, s')

  abbrev pub change : (S → S) → Steps S (Unit {0})
  change f s = some (ok tt, f s)

  abbrev pub lift : {A : Type 0} → Go A → Steps S A
  lift r s = some (r, s)

  -- A pointer that is read, which panics if it is nil.
  abbrev pub deref : {A : Type 0} → Option A → Steps S A
  deref none = lift panic
  deref (some a) = lift (ok a)

  abbrev pub finally : {A : Type 0} → (S → S) → Option (Go A × S) → Option (Go A × S)
  finally f none = none
  finally f (some (r, s)) = some (r, f s)

  -- `defer f()`, and what follows in the function.
  abbrev pub deferred : {A : Type 0} → (S → S) → Steps S A → Steps S A
  deferred f m s = finally f (m s)

  abbrev pub finally_call :
      {A : Type 0} → (S → Go (Unit {0}) × S) → Option (Go A × S) → Option (Go A × S)
  finally_call f none = none
  finally_call f (some (r, s)) = some (unless_panic (f s).0 r, (f s).1)

  -- `defer f()` for a function that may panic, and what follows.
  abbrev pub deferred_call : {A : Type 0} → (S → Go (Unit {0}) × S) → Steps S A → Steps S A
  deferred_call f m s = finally_call f (m s)

  abbrev pub recover : {A : Type 0} → GoError → Option (Go A × S) → Option (Go A × S)
  recover e none = none
  recover e (some (ok a, s)) = some (ok a, s)
  recover e (some (fail x, s)) = some (fail x, s)
  recover e (some (panic, s)) = some (fail e, s)

  -- A deferred function that recovers from a panic and makes it an error.
  abbrev pub recovering : {A : Type 0} → GoError → Steps S A → Steps S A
  recovering e m s = recover e (m s)

-- The fuel was enough.
pub data Ends {S A : Type 0} : Option (Go A × S) → Type 0 where
  ends : (r : Go A) (s : S) → Ends (some (r, s))

module _ {S : Type 0} where
  pub then_run-Ends :
      {A B : Type 0} (f : A → Steps S B) (o : Option (Go A × S))
      → Ends o
      → ((a : A) (s : S) → Ends (f a s))
      → Ends (then_run f o)
  then_run-Ends f o (ends (ok a) s) g = g a s
  then_run-Ends f o (ends (fail e) s) g = ends (fail e) s
  then_run-Ends f o (ends panic s) g = ends panic s

  pub call-Ends :
      {A B : Type 0} (f : A → Steps S B) (p : Go A × S)
      → ((a : A) (s' : S) → Ends (f a s'))
      → Ends (then_run f (some p))
  call-Ends f p = then_run-Ends f (some p) (ends p.0 p.1)

  pub lift-Ends :
      {A B : Type 0} (f : A → Steps S B) (r : Go A) (s : S)
      → ((a : A) (s' : S) → Ends (f a s'))
      → Ends (then_run f (some (r, s)))
  lift-Ends f r s = then_run-Ends f (some (r, s)) (ends r s)

  pub deref-Ends :
      {A B : Type 0} (f : A → Steps S B) (p : Option A) (s : S)
      → ((a : A) (s' : S) → Ends (f a s'))
      → Ends (then_run f (deref p s))
  deref-Ends f none s h = ends panic s
  deref-Ends f (some a) s h = h a s
