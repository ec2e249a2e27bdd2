-- ===== src/Server/Stream/Replies.antt =====
-- What the messages of a stream of server/server.go are answered.
use veidemann_browser_contro.Prelude.{
  subst, str_eq, ℕ, ◌≡◌, refl, ap, ◌∙◌, ◌≢◌, ◌⊎◌, inl, inr, Bool, true, false, not, Bool-cases,
  String, Option, none, some, List, [], ◌∷◌, ◌++◌, ◌==◌, get_elem?, if◌then◌else◌, arith,
}
use veidemann_browser_contro.Errors.{GoError}
use veidemann_browser_contro.Config.{CrawlConfig, QueuedUri}
use veidemann_browser_contro.Session.{Session}
use veidemann_browser_contro.Requests.{Request, get_by_request_id, get_by_url}
use veidemann_browser_contro.Server.World.{
  NewRequest, new, DoReply, new_reply, cancel, IsAllowedRequest, Services, Conn, Outcome, next,
  returns, panics, session_at, put_session, put_request,
}
use veidemann_browser_contro.Server.Handlers.{
  ◌>>◌, deref, send, notify_at, assign_request, notify_if_found, plain_reply, reply_new, without_id,
  robots_request, check_robots, find_by_id, new_for_session, handle_new,
}
use veidemann_browser_contro.Server.Post.{Post, bind-Post, deref-Post, Quiet}
use veidemann_browser_contro.Errors.{Code}
use veidemann_browser_contro.Server.Stream.{handle, dispatch, settle}

put_request-sent : (c : Conn) (p : ℕ × ℕ) (r : Request) → (put_request c p r).sent ≡ c.sent
unfolding put_request
put_request-sent c (a, i) r = ground arith

next_inj : {a b : Conn} → next a ≡ next b → a ≡ b
next_inj e = cc

module _ (services : Services) where
  notify_at-Quiet : (now a : ℕ) (c : Conn) → Quiet c.sent (notify_at services now a c)
  unfolding Post notify_at put_session
  notify_at-Quiet now a c = ground arith

  assign_request-Quiet :
      (a : ℕ) (o : Option ℕ) (c : Conn) → Quiet c.sent (assign_request services a o c)
  unfolding Post assign_request
  assign_request-Quiet a none c = refl
  assign_request-Quiet a (some i) c = ground arith

  notify_if_found-Quiet :
      (now a : ℕ) (o : Option ℕ) (c : Conn) → Quiet c.sent (notify_if_found services now a o c)
  unfolding Post notify_if_found
  notify_if_found-Quiet now a none c = refl
  notify_if_found-Quiet now a (some i) c = notify_at-Quiet now a c

  find_by_id-Quiet :
      (now a : ℕ) (s : Session) (id : String) (c : Conn)
      → Quiet c.sent (find_by_id services now a s id c)
  unfolding find_by_id
  find_by_id-Quiet now a s id c =
      bind-Post _ _ _ (deref s.requests) c (deref-Post s.requests c) λ registry c1 q1.
        let found = get_by_request_id registry id in
        bind-Post _ _ _ (assign_request services a found) c1 (assign_request-Quiet a found c1)
          λ u c2 q2.
            subst (λ l. Quiet l (notify_if_found services now a found c2))
              (q2 ∙ ap (λ (x : Conn). x.sent) q1.1) (notify_if_found-Quiet now a found c2)

  -- Exactly one reply goes out, and it is as wanted.
  abbrev OneReply : (DoReply → Type 0) → List DoReply → (Unit {0} × Conn) ⊎ Outcome → Type 0
  OneReply Wanted sent = Post λ _ c. (r : DoReply) × (c.sent ≡ sent ++ r ∷ []) × Wanted r

  send-OneReply :
      (Wanted : DoReply → Type 0) (r : DoReply) (sent : List DoReply) (c : Conn)
      → Wanted r
      → c.sent ≡ sent
      → OneReply Wanted sent (send services r c)
  unfolding Post send
  send-OneReply Wanted r sent c w e = go (services.send c.sent r)
    where
      go :
          (o : Option GoError)
          → OneReply Wanted sent (elim o [
            | none ↦ inl (tt, record c { sent = c.sent ++ r ∷ [] })
            | some x ↦ inr (Outcome.returns (some x) c)
          ])
      go none = (r, ap (λ l. l ++ r ∷ []) e, w)
      go (some x) = tt

  reply_new-OneReply :
      (Wanted : DoReply → Type 0) (s : Session) (url : QueuedUri) (config : CrawlConfig)
      (v : NewRequest) (sent : List DoReply) (c : Conn)
      → ((r : DoReply) → Wanted r)
      → c.sent ≡ sent
      → OneReply Wanted sent (reply_new services s url config v c)
  unfolding reply_new
  reply_new-OneReply Wanted s url config v sent c w e =
      bind-Post _ _ _ (deref s.scripts) c (deref-Post s.scripts c)
        λ scripts c1 q1. send-OneReply Wanted _ sent c1 (w _) (ap (λ (x : Conn). x.sent) q1.1 ∙ e)

  without_id-OneReply :
      (Wanted : DoReply → Type 0) (a : ℕ) (s : Session) (url : QueuedUri) (config : CrawlConfig)
      (v : NewRequest) (sent : List DoReply) (c : Conn)
      → ((r : DoReply) → Wanted r)
      → c.sent ≡ sent
      → OneReply Wanted sent (without_id services a s url config v c)
  unfolding without_id
  without_id-OneReply Wanted a s url config v sent c w e =
      elim (Bool-cases (str_eq v.method "CONNECT")) [
        | inl connect ↦
            rw connect (send-OneReply Wanted (plain_reply services url config none) sent c (w _) e)
        | inr n ↦ rw n elim (Bool-cases (str_eq v.method "OPTIONS")) [
          | inl options ↦ rw options (
              bind-Post _ _ _ (deref s.requests) c (deref-Post s.requests c) λ registry c1 q1.
                let found = get_by_url registry (services.matching.normalize v.uri) true in
                bind-Post _ _ _ (assign_request services a found) c1
                  (assign_request-Quiet a found c1)
                  λ u c2 q2.
                    reply_new-OneReply Wanted s url config v sent c2 w
                      (q2 ∙ (ap (λ (x : Conn). x.sent) q1.1 ∙ e)))
          | inr other ↦
              rw other
                (send-OneReply Wanted (cancel "Cancelled by browser controller") sent c (w _) e)
        ]
      ]

  -- A NewReply only where the robots evaluator has allowed the URI.
  abbrev pub Permitted : String → DoReply → Type 0
  Permitted uri (cancel text) = Unit
  Permitted uri (new_reply r) =
      (q : IsAllowedRequest) × (q.uri ≡ uri) × (services.is_allowed q ≡ some true)

  permitted :
      (q : IsAllowedRequest) → services.is_allowed q ≡ some true → (r : DoReply) → Permitted q.uri r
  permitted q e (cancel text) = tt
  permitted q e (new_reply r) = (q, refl, e)

  answered :
      (now a : ℕ) (s : Session) (url : QueuedUri) (config : CrawlConfig) (v : NewRequest)
      (sent : List DoReply) (c : Conn) (allowed : Bool)
      → c.sent ≡ sent
      → services.is_allowed (robots_request services s url config v) ≡ some allowed
      → OneReply (Permitted v.uri) sent (
          (if not allowed
              then (do
                find_by_id services now a s v.request_id
                send services (cancel "Blocked by robots.txt"))
              else if str_eq v.request_id ""
              then without_id services a s url config v
              else (do find_by_id services now a s v.request_id; reply_new services s url config v))
            c)
  unfolding robots_request
  answered now a s url config v sent c false e q =
      bind-Post _ _ _ (find_by_id services now a s v.request_id) c
        (find_by_id-Quiet now a s v.request_id c)
        λ u c' q'.
          send-OneReply (Permitted v.uri) (cancel "Blocked by robots.txt") sent c' tt (q' ∙ e)
  answered now a s url config v sent c true e q =
      let w = permitted (robots_request services s url config v) q in
      elim (Bool-cases (str_eq v.request_id "")) [
        | inl empty ↦ rw empty (without_id-OneReply (Permitted v.uri) a s url config v sent c w e)
        | inr given ↦ rw given (
            bind-Post _ _ _ (find_by_id services now a s v.request_id) c
              (find_by_id-Quiet now a s v.request_id c)
              λ u c' q'. reply_new-OneReply (Permitted v.uri) s url config v sent c' w (q' ∙ e))
      ]

  new_for_session-OneReply :
      (now a : ℕ) (v : NewRequest) (sent : List DoReply) (c : Conn)
      → c.sent ≡ sent
      → OneReply (Permitted v.uri) sent (new_for_session services now a v c)
  unfolding new_for_session
  new_for_session-OneReply now a v sent c e =
      let sent_of = λ (x : Conn). x.sent in
      bind-Post _ _ _ (deref (session_at c.world a)) c (deref-Post _ c) λ s c1 q1.
        bind-Post _ _ _ (deref s.ctx) c1 (deref-Post _ c1) λ x c2 q2.
          bind-Post _ _ _ (deref s.requested_url) c2 (deref-Post _ c2) λ url c3 q3.
            bind-Post _ _ _ (deref s.crawl_config) c3 (deref-Post _ c3) λ config c4 q4.
              let q = robots_request services s url config v in
              bind-Post _ _ _ (check_robots services q) c4
                (unfold check_robots in deref-Post (services.is_allowed q) c4)
                λ allowed c5 q5.
                  answered now a s url config v sent c5 allowed
                    (ap sent_of q5.1
                      ∙ (ap sent_of q4.1
                          ∙ (ap sent_of q3.1 ∙ (ap sent_of q2.1 ∙ (ap sent_of q1.1 ∙ e)))))
                    q5.0

  handle_new-OneReply :
      (now : ℕ) (v : NewRequest) (c : Conn)
      → v.proxy_id == 0 ≡ false
      → OneReply (Permitted v.uri) c.sent (handle_new services now v c)
  unfolding handle_new
  handle_new-OneReply now v c p = rw p (at_slot (get_elem? c.world.slots v.proxy_id))
    where
      at_slot :
          (slot : Option (Option ℕ))
          → OneReply (Permitted v.uri) c.sent (elim slot [
            | none ↦ inr (Outcome.panics c)
            | some none ↦
                send services (cancel "Cancelled by browser controller") (record c { sess = none })
            | some (some a) ↦ new_for_session services now a v (record c { sess = some a })
          ])
      at_slot none = unfold Post in tt
      at_slot (some none) =
          send-OneReply (Permitted v.uri) (cancel "Cancelled by browser controller") c.sent
            (record c { sess = none }) tt refl
      at_slot (some (some a)) =
          new_for_session-OneReply now a v c.sent (record c { sess = some a }) refl

  pub settled :
      (P : Unit {0} → Conn → Type 0) (status_text : Code → String → String)
      (r : (Unit {0} × Conn) ⊎ Outcome) (c : Conn)
      → Post P r
      → settle services status_text r ≡ next c
      → P tt c
  unfolding Post settle
  settled P status_text (inl (tt, c')) c p e = subst (P tt) (next_inj e) p
  settled P status_text (inr (next c')) c p e = absurd p
  settled P status_text (inr (returns x c')) c p e = cc
  settled P status_text (inr (panics c')) c p e = cc

  -- If Do goes on after a new request with a proxy id other than 0, exactly one reply went out for it,
  -- and one that lets the request through only if the robots evaluator has allowed its URI.
  pub handle-OneReply :
      (status_text : Code → String → String) (now : ℕ) (v : NewRequest) (c c' : Conn)
      → v.proxy_id ≢ 0
      → handle services status_text now (new v) c ≡ next c'
      → (r : DoReply) × (c'.sent ≡ c.sent ++ r ∷ []) × Permitted v.uri r
  unfolding handle dispatch
  handle-OneReply status_text now v c c' p e =
      settled (λ _ c. (r : DoReply) × (c.sent ≡ _ ++ r ∷ []) × Permitted v.uri r) status_text
        (handle_new services now v c) c' (handle_new-OneReply now v c (ground arith)) e
