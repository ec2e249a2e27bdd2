-- ===== src/Server/Stream/Completion.antt =====
-- What a completion of server/server.go leaves in the request that it is about.
use veidemann_browser_contro.Prelude.{
  subst, ℕ, zero, suc, ℕ_discrete, ◌≡◌, refl, sym, ap, ◌∙◌, ◌⊎◌, inl, inr, Bool, true, false,
  Bool-cases, String, str_eq, Option, some, Option-cases, List, [], ◌∷◌, ◌<◌, get_elem?,
  get_elem?-set_self, get_elem?-set_ne, length, if◌then◌else◌, arith,
}
use veidemann_browser_contro.Errors.{Code, ok, Go-cases}
use veidemann_browser_contro.Session.{Session, notify_session}
use veidemann_browser_contro.Requests.{CrawlLog, Request, RequestRegistry, initial_request}
use veidemann_browser_contro.Syncx.WaitGroup.{cancel_wait}
use veidemann_browser_contro.Server.World.{
  Completed, completed, Services, Conn, Outcome, next, session_at, put_session, requests_of,
  request_at, write_request, put_request,
}
use veidemann_browser_contro.Server.Handlers.{
  deref, done, notify_at, mark_cached, notify_request, update_request, abort_fetch,
  abort_if_initial, complete_request, handle_completed,
}
use veidemann_browser_contro.Server.Post.{Post, bind-Post, deref-Post}
use veidemann_browser_contro.Server.Stream.{handle, dispatch}
use veidemann_browser_contro.Server.Stream.Replies.{settled}

-- The request at an address has a property.
abbrev At : ℕ × ℕ → (Request → Type 0) → Conn → Type 0
At p P c = (r : Request) × (request_at c.world p ≡ some r) × P r

lt_of_some : {A : Type 0} (xs : List A) (i : ℕ) (x : A) → get_elem? xs i ≡ some x → i < length xs
lt_of_some [] i x e = cc
lt_of_some (y ∷ xs) zero x e = omega arith
lt_of_some (y ∷ xs) (suc i) x e = omega (arith, lt_of_some xs i x e)

-- Writing a session with the same requests changes no request.
request_at-put_session :
    (c : Conn) (a : ℕ) (old s : Session) (p : ℕ × ℕ)
    → session_at c.world a ≡ some old
    → requests_of s.requests ≡ requests_of old.requests
    → request_at (put_session c a s).world p ≡ request_at c.world p
unfolding request_at put_session session_at
request_at-put_session c a old s (b, i) e same = elim (ℕ_discrete a b) [
  | yes q ↦ ground (arith, lt_of_some c.world.heap a old e, get_elem?-set_self c.world.heap a s)
  | no q ↦ ground (arith, get_elem?-set_ne c.world.heap a b s)
]

-- A written request is found again.
request_at-put_request :
    (c : Conn) (p : ℕ × ℕ) (old r : Request)
    → request_at c.world p ≡ some old
    → request_at (put_request c p r).world p ≡ some r
unfolding request_at put_request write_request put_session session_at requests_of
request_at-put_request c (a, i) old r e = elim (Option-cases (get_elem? c.world.heap a)) [
  | inl missing ↦ ground arith
  | inr (s, found) ↦ elim (Option-cases s.requests) [
    | inl nothing ↦ ground arith
    | inr (registry, has) ↦
        let there : get_elem? registry.requests i ≡ some old = ground arith in
        ground (
          arith,
          get_elem?-set_self c.world.heap a (write_request s i r)
              (lt_of_some c.world.heap a s found),
          get_elem?-set_self registry.requests i r (lt_of_some registry.requests i old there),
        )
  ]
]

module _ (services : Services) (p : ℕ × ℕ) where
  update_request-At :
      (f : Request → Request) (r : Request) (c : Conn)
      → request_at c.world p ≡ some r
      → Post (λ u c'. request_at c'.world p ≡ some (f r)) (update_request services p f c)
  unfolding Post update_request
  update_request-At f r c e = rw (e, update_request) (request_at-put_request c p r (f r) e)

  -- A row that leaves the request alone.
  abbrev Keeps : {A : Type 0} → Conn → (A × Conn) ⊎ Outcome → Type 0
  Keeps {A} c = Post {A = A} (λ u c'. request_at c'.world p ≡ request_at c.world p)

  notify_session-requests :
      (s s' : Session) (now : ℕ) → notify_session s now ≡ ok s' → s'.requests ≡ s.requests
  unfolding notify_session
  notify_session-requests s s' now e = ground arith

  notify_at-Keeps : (now a : ℕ) (c : Conn) → Keeps c (notify_at services now a c)
  unfolding Post notify_at
  notify_at-Keeps now a c = elim (Option-cases (session_at c.world a)) [
    | inl missing ↦ rw (missing, notify_at) tt
    | inr (s, found) ↦
        rw (found, notify_at)
          (elim (Go-cases (notify_session s now)) [
            | inl (s', e) ↦ rw e (
                request_at-put_session c a s s' p found
                  (ap requests_of (notify_session-requests s s' now e)))
            | inr (inl (x, e)) ↦ rw e tt
            | inr (inr e) ↦ rw e tt
          ])
  ]

  notify_request-Keeps :
      (now : ℕ) (sess : Option ℕ) (q : ℕ × ℕ) (c : Conn)
      → Keeps c (notify_request services now sess q c)
  unfolding notify_request
  notify_request-Keeps now sess q c =
      bind-Post _ _ _ (deref (request_at c.world q)) c (deref-Post _ c) λ r c1 q1.
        bind-Post _ _ _ (deref sess) c1 (deref-Post _ c1) λ a c2 q2.
          let same : c2 ≡ c = q2.1 ∙ q1.1 in
          subst (λ x. Keeps x (notify_at services now a c2)) same (notify_at-Keeps now a c2)

  abort_fetch-Keeps :
      (a : ℕ) (s : Session) (registry : RequestRegistry) (c : Conn)
      → session_at c.world a ≡ some s
      → s.requests ≡ some registry
      → Keeps c (abort_fetch services a s registry c)
  unfolding Post abort_fetch request_at
  abort_fetch-Keeps a s registry c found has = elim (Option-cases (cancel_wait registry.done)) [
    | inl twice ↦ rw (twice, abort_fetch) tt
    | inr (wg, e) ↦
        rw (e, abort_fetch) (request_at-put_session c a s _ p found (sym (ap requests_of has)))
  ]

  abort_if_initial-Keeps :
      (sess : Option ℕ) (req : Request) (c : Conn) → Keeps c (abort_if_initial services sess req c)
  unfolding abort_if_initial
  abort_if_initial-Keeps sess req c = bind-Post _ _ _ (deref sess) c (deref-Post _ c) λ a c1 q1.
      bind-Post _ _ _ (deref (session_at c.world a)) c1 (deref-Post _ c1) λ s c2 q2.
        bind-Post _ _ _ (deref s.requests) c2 (deref-Post _ c2) λ registry c3 q3.
          bind-Post _ _ _ (deref (initial_request registry)) c3 (deref-Post _ c3) λ i c4 q4.
            let back : c4 ≡ c = q4.1 ∙ (q3.1 ∙ (q2.1 ∙ q1.1)) in
            let found : session_at c4.world a ≡ some s =
              ap (λ (x : Conn). session_at x.world a) back ∙ q2.0 in
            subst
              (λ x. Keeps x (
                (if str_eq i.request_id req.request_id
                    then abort_fetch services a s registry
                    else done)
                  c4))
              back
              (elim (Bool-cases (str_eq i.request_id req.request_id)) [
                | inl first ↦ rw first (abort_fetch-Keeps a s registry c4 found q3.0)
                | inr other ↦ rw other (unfold Post in refl)
              ])

  -- What a completion makes of its request.
  abbrev pub completed_as : CrawlLog → Bool → Request → Request
  completed_as log cached r = record r {
    crawl_log = some log;
    from_cache = if cached then true else r.from_cache;
    got_complete = true;
  }

  -- Fetching it again, aborting the load, and the mark.
  from_cache-At :
      (cached : Bool) (sess : Option ℕ) (r : Request) (c : Conn)
      → request_at c.world p ≡ some r
      → Post
          (λ u c'.
            request_at c'.world p
            ≡ some (record r { from_cache = if cached then true else r.from_cache }))
          (mark_cached services cached sess p c)
  unfolding mark_cached
  from_cache-At false sess r c e = unfold Post in e
  from_cache-At true sess r c e =
      bind-Post _ _ _ (λ c. deref (request_at c.world p) c) c (deref-Post _ c)
        λ req c1 q1.
          bind-Post _ _ _ (abort_if_initial services sess req) c1
            (abort_if_initial-Keeps sess req c1)
            λ u c2 q2.
              update_request-At (λ x. record x { from_cache = true }) r c2
                (q2 ∙ (ap (λ (x : Conn). request_at x.world p) q1.1 ∙ e))

  complete_request-At :
      (now : ℕ) (log : CrawlLog) (cached : Bool) (sess : Option ℕ) (r : Request) (c : Conn)
      → request_at c.world p ≡ some r
      → Post
          (λ u c'. request_at c'.world p ≡ some (completed_as log cached r))
          (complete_request services now log cached sess p c)
  unfolding complete_request
  complete_request-At now log cached sess r c e =
      let logged : Request = record r { crawl_log = some log } in
      let marked : Request = record logged { from_cache = if cached then true else r.from_cache } in
      bind-Post _ _ _ (update_request services p (λ req. record req { crawl_log = some log })) c
        (update_request-At (λ req. record req { crawl_log = some log }) r c e)
        λ u c1 q1.
          bind-Post _ _ _ (mark_cached services cached sess p) c1
            (from_cache-At cached sess logged c1 q1)
            λ u c2 q2.
              bind-Post _ _ _ (update_request services p (λ x. record x { got_complete = true })) c2
                (update_request-At (λ x. record x { got_complete = true }) marked c2 q2)
                λ u c3 q3.
                  subst
                    (λ o.
                      Post (λ u c'. request_at c'.world p ≡ o)
                        (notify_request services now sess p c3))
                    q3 (notify_request-Keeps now sess p c3)

-- If Do goes on after a completion for the request that it has, then this request now has the crawl
-- log of the message and is marked as completed; it is marked as cached if the message says so, and is
-- otherwise as it was.
pub handle-completed_as :
    (services : Services) (status_text : Code → String → String) (now : ℕ) (v : Completed)
    (c c' : Conn) (p : ℕ × ℕ) (log : CrawlLog) (r : Request)
    → c.req ≡ some p
    → v.crawl_log ≡ some log
    → request_at c.world p ≡ some r
    → handle services status_text now (completed v) c ≡ next c'
    → request_at c'.world p ≡ some (completed_as services p log v.cached r)
unfolding handle dispatch handle_completed
handle-completed_as services status_text now v c c' p log r has logged found e =
    settled services (λ u x. request_at x.world p ≡ some (completed_as services p log v.cached r))
      status_text (handle_completed services now v c) c' result e
  where
    result :
        Post
          (λ u x. request_at x.world p ≡ some (completed_as services p log v.cached r))
          (handle_completed services now v c)
    result = rw logged (
        rw has (
          complete_request-At services p now log v.cached c.sess r (record c { req = some p })
            found))
