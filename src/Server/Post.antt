-- ===== src/Server/Post.antt =====
-- What holds when a row of calls of a handler of server/server.go comes to its end.
use veidemann_browser_contro.Prelude.{
  ◌≡◌, refl, ◌⊎◌, inl, inr, Bool, true, false, Option, none, some, List, if◌then◌else◌,
}
use veidemann_browser_contro.Server.World.{Conn, Outcome, next, returns, panics, DoReply}
use veidemann_browser_contro.Server.Handlers.{M, ◌>>=◌, deref}

-- A condition on the result, which holds of a return and of a panic. A row never ends Do's turn.
unfoldable pub Post : {A : Type 0} → (A → Conn → Type 0) → (A × Conn) ⊎ Outcome → Type 0
Post P (inl (a, c)) = P a c
Post P (inr (next c)) = ⊥
Post P (inr (returns e c)) = Unit
Post P (inr (panics c)) = Unit

module _ {A B : Type 0} (P : B → Conn → Type 0) (f : A → M B) (Q : A → Conn → Type 0) where
  after-Post :
      (r : (A × Conn) ⊎ Outcome)
      → Post Q r
      → ((a : A) (c : Conn) → Q a c → Post P (f a c))
      → Post P (elim r [ inl (a, c') ↦ f a c' | inr o ↦ inr o ])
  unfolding Post
  after-Post (inl (a, c)) q h = h a c q
  after-Post (inr (next c)) q h = absurd q
  after-Post (inr (returns e c)) q h = tt
  after-Post (inr (panics c)) q h = tt

  pub bind-Post :
      (m : M A) (c : Conn)
      → Post Q (m c)
      → ((a : A) (c' : Conn) → Q a c' → Post P (f a c'))
      → Post P ((m >>= f) c)
  bind-Post m c q h = after-Post (m c) q h

pub deref-Post :
    {A : Type 0} (o : Option A) (c : Conn) → Post (λ a c'. (o ≡ some a) × (c' ≡ c)) (deref o c)
unfolding Post
deref-Post none c = tt
deref-Post (some a) c = (refl, refl)

pub if-Post :
    {A : Type 0} (P : A → Conn → Type 0) (b : Bool) (m n : M A) (c : Conn)
    → (b ≡ true → Post P (m c))
    → (b ≡ false → Post P (n c))
    → Post P ((if b then m else n) c)
unfolding Post
if-Post P true m n c t f = t refl
if-Post P false m n c t f = f refl

-- A row that sends nothing.
abbrev pub Quiet : {A : Type 0} → List DoReply → (A × Conn) ⊎ Outcome → Type 0
Quiet {A} sent = Post {A = A} (λ _ c. c.sent ≡ sent)
