-- ===== src/Server/Handlers.antt =====
-- The cases of the switch in Do of server/server.go.
use veidemann_browser_contro.Prelude.{
  ◌⊎◌, inl, inr, ℕ, Bool, true, false, not, ◌&&◌, String, Option, none, some, [], ◌∷◌, ◌++◌, ◌==◌,
  str_eq, length, get_elem?, if◌then◌else◌,
}
use veidemann_browser_contro.Errors.{ok, fail, panic, status_error, canceled_code}
use veidemann_browser_contro.Config.{CrawlConfig, BrowserScript, QueuedUri}
use veidemann_browser_contro.Requests.{
  CrawlLog, Request, RequestRegistry, get_by_request_id, get_by_url, initial_request,
}
use veidemann_browser_contro.Syncx.WaitGroup.{cancel_wait}
use veidemann_browser_contro.Session.{Session, new_direct_session, notify_session}
use veidemann_browser_contro.Session.Scripts.{get_replacement_script}
use veidemann_browser_contro.Server.World.{
  NewRequest, Completed, DoReply, new_reply, cancel, IsAllowedRequest, Services, Conn, Outcome,
  returns, panics, session_at, put_session, request_at, put_request,
}

-- Calls in a row on the variables of Do: what returns from Do or panics ends the row.
abbrev pub M : Type 0 → Type 0
M A = Conn → (A × Conn) ⊎ Outcome

infixl 5 ◌>>=◌ ◌>>◌
abbrev pub ◌>>=◌ : {A B : Type 0} → M A → (A → M B) → M B
◌>>=◌ m f c = elim (m c) [ inl (a, c') ↦ f a c' | inr o ↦ inr o ]

abbrev pub ◌>>◌ : {B : Type 0} → M (Unit {0}) → M B → M B
m >> k = m >>= λ _. k

abbrev pub done : M (Unit {0})
done c = inl (tt, c)

-- A nil pointer or an index out of range panics where it is used.
abbrev pub deref : {A : Type 0} → Option A → M A
deref none c = inr (panics c)
deref (some a) c = inl (a, c)

module _ (services : Services) where
  -- Send, and `return err` if it fails.
  unfoldable pub send : DoReply → M (Unit {0})
  send reply c = elim (services.send c.sent reply) [
    | none ↦ inl (tt, record c { sent = c.sent ++ reply ∷ [] })
    | some e ↦ inr (returns (some e) c)
  ]

  -- sess.Notify, and `return err` if it fails.
  unfoldable pub notify_at : ℕ → ℕ → M (Unit {0})
  unfolding session_at
  notify_at now a c = elim (session_at c.world a) [
    | none ↦ inr (panics c)
    | some s ↦ elim (notify_session s now) [
      | ok s' ↦ inl (tt, put_session c a s')
      | fail e ↦ inr (returns (some e) c)
      | panic ↦ inr (panics c)
    ]
  ]

  -- req = …; if it is not nil, req.GotNew = true
  unfoldable pub assign_request : ℕ → Option ℕ → M (Unit {0})
  unfolding request_at put_request
  assign_request a none c = inl (tt, record c { req = none })
  assign_request a (some i) c =
      let c' = record c { req = some (a, i) } in
      elim (request_at c.world (a, i)) [
        | none ↦ inr (panics c')
        | some req ↦ inl (tt, put_request c' (a, i) (record req { got_new = true }))
      ]

  unfoldable pub notify_if_found : ℕ → ℕ → Option ℕ → M (Unit {0})
  unfolding notify_at
  notify_if_found now a none = done
  notify_if_found now a (some i) = notify_at now a

  -- The request with the id of the message, marked and notified if it is there.
  unfoldable pub find_by_id : ℕ → ℕ → Session → String → M (Unit {0})
  unfolding assign_request notify_if_found
  find_by_id now a s id = do
    registry ← deref s.requests
    let found = get_by_request_id registry id
    assign_request a found
    notify_if_found now a found

  -- A message for proxy 0.
  unfoldable pub new_direct : NewRequest → M (Unit {0})
  unfolding send
  new_direct v c =
      let s =
        new_direct_session v.uri v.crawl_execution_id v.job_execution_id services.session_options in
      let c' = record c {
        world = record c.world { heap = c.world.heap ++ s ∷ [] };
        sess = some (length c.world.heap);
      } in
      send
        (new_reply (record {
          crawl_execution_id = v.crawl_execution_id;
          job_execution_id = v.job_execution_id;
          collection_ref = v.collection_ref;
          replacement_script = none;
        }))
        c'

  unfoldable pub plain_reply : QueuedUri → CrawlConfig → Option BrowserScript → DoReply
  plain_reply url config script = new_reply (record {
    crawl_execution_id = url.execution_id;
    job_execution_id = url.job_execution_id;
    collection_ref = config.collection_ref;
    replacement_script = script;
  })

  -- The end of the case: a reply with the replacement script.
  unfoldable pub reply_new : Session → QueuedUri → CrawlConfig → NewRequest → M (Unit {0})
  unfolding send plain_reply
  reply_new s url config v = do
    scripts ← deref s.scripts
    send (plain_reply url config (get_replacement_script services.matching scripts v.uri))

  -- A message without a request id.
  unfoldable pub without_id : ℕ → Session → QueuedUri → CrawlConfig → NewRequest → M (Unit {0})
  unfolding assign_request send plain_reply reply_new
  without_id a s url config v =
      if str_eq v.method "CONNECT"
      then send (plain_reply url config none)
      else if str_eq v.method "OPTIONS"
      then (do
        registry ← deref s.requests
        assign_request a (get_by_url registry (services.matching.normalize v.uri) true)
        reply_new s url config v)
      else send (cancel "Cancelled by browser controller")

  unfoldable pub robots_request : Session → QueuedUri → CrawlConfig → NewRequest → IsAllowedRequest
  robots_request s url config v = record {
    job_execution_id = url.job_execution_id;
    execution_id = url.execution_id;
    uri = v.uri;
    user_agent = s.user_agent;
    politeness = s.politeness_config;
    collection_ref = config.collection_ref;
  }

  unfoldable pub check_robots : IsAllowedRequest → M Bool
  check_robots r c = deref (services.is_allowed r) c

  -- A message for the session at an address.
  unfoldable pub new_for_session : ℕ → ℕ → NewRequest → M (Unit {0})
  unfolding check_robots robots_request find_by_id without_id reply_new
  new_for_session now a v c =
      (do
        s ← deref (session_at c.world a)
        _ ← deref s.ctx
        url ← deref s.requested_url
        config ← deref s.crawl_config
        allowed ← check_robots (robots_request s url config v)
        if not allowed
            then (do find_by_id now a s v.request_id; send (cancel "Blocked by robots.txt"))
            else if str_eq v.request_id ""
            then without_id a s url config v
            else (do find_by_id now a s v.request_id; reply_new s url config v))
        c

  -- DoRequest_New
  unfoldable pub handle_new : ℕ → NewRequest → M (Unit {0})
  unfolding new_direct new_for_session
  handle_new now v c =
      if v.proxy_id == 0 then new_direct v c else elim (get_elem? c.world.slots v.proxy_id) [
        | none ↦ inr (panics c)
        | some none ↦ send (cancel "Cancelled by browser controller") (record c { sess = none })
        | some (some a) ↦ new_for_session now a v (record c { sess = some a })
      ]

  -- sess.Notify(req.RequestId)
  unfoldable pub notify_request : ℕ → Option ℕ → ℕ × ℕ → M (Unit {0})
  unfolding request_at notify_at
  notify_request now sess req c =
      (do _ ← deref (request_at c.world req); a ← deref sess; notify_at now a) c

  -- DoRequest_Notify
  unfoldable pub handle_notify : ℕ → M (Unit {0})
  unfolding notify_request
  handle_notify now c = elim c.sess [
    | none ↦ inr (returns (some (status_error canceled_code "Session is cancelled")) c)
    | some a ↦ elim c.req [ none ↦ inl (tt, c) | some req ↦ notify_request now (some a) req c ]
  ]

  -- AbortFetch: the error of the browser is dropped; the deferred calls close the channel of the wait
  -- group, which panics the second time, and cancel the load, also after the panic.
  unfoldable pub abort_fetch : ℕ → Session → RequestRegistry → M (Unit {0})
  unfolding put_session
  abort_fetch a s registry c = elim (cancel_wait registry.done) [
    | none ↦ inr (panics (put_session c a (record s { load_cancelled = true })))
    | some wg ↦ inl (
      tt,
      put_session c a
          (record s { load_cancelled = true; requests = some (record registry { done = wg }) }),
    )
  ]

  -- A cached response to the initial request of the session aborts its fetch.
  unfoldable pub abort_if_initial : Option ℕ → Request → M (Unit {0})
  unfolding session_at abort_fetch
  abort_if_initial sess req c =
      (do
        a ← deref sess
        s ← deref (session_at c.world a)
        registry ← deref s.requests
        initial ← deref (initial_request registry)
        if str_eq initial.request_id req.request_id then abort_fetch a s registry else done)
        c

  unfoldable pub update_request : ℕ × ℕ → (Request → Request) → M (Unit {0})
  unfolding request_at put_request
  update_request p f c = elim (request_at c.world p) [
    | none ↦ inr (panics c)
    | some req ↦ inl (tt, put_request c p (f req))
  ]

  -- What a cached response adds.
  unfoldable pub mark_cached : Bool → Option ℕ → ℕ × ℕ → M (Unit {0})
  unfolding update_request abort_if_initial
  mark_cached false sess p = done
  mark_cached true sess p = do
    req ← λ c. deref (request_at c.world p) c
    abort_if_initial sess req
    update_request p (λ r. record r { from_cache = true })

  -- The case with a request.
  unfoldable pub complete_request : ℕ → CrawlLog → Bool → Option ℕ → ℕ × ℕ → M (Unit {0})
  unfolding update_request mark_cached notify_request
  complete_request now log cached sess p = do
    update_request p (λ req. record req { crawl_log = some log })
    mark_cached cached sess p
    update_request p (λ r. record r { got_complete = true })
    notify_request now sess p

  -- The case without a request: for a direct session the log is written.
  unfoldable pub complete_without_request : CrawlLog → Bool → Option ℕ → M (Unit {0})
  unfolding session_at
  complete_without_request log cached sess c =
      (do
        a ← deref sess
        s ← deref (session_at c.world a)
        if s.id == 0 && (not cached && not (str_eq log.warc_id ""))
            then (λ c'. inl (tt, record c' { written = c'.written ++ log ∷ [] }))
            else done)
        c

  -- DoRequest_Completed
  unfoldable pub handle_completed : ℕ → Completed → M (Unit {0})
  unfolding complete_request complete_without_request
  handle_completed now v c =
      (do
        log ← deref v.crawl_log
        elim c.req [
          | none ↦ complete_without_request log v.cached c.sess
          | some p ↦ complete_request now log v.cached c.sess p
        ])
        c
