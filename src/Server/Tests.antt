-- ===== src/Server/Tests.antt =====
-- The theorems on server/server.go at small conversations.
use Prim.Native.String.{◌++◌ as append_text}
use veidemann_browser_contro.Prelude.{
  ◌≡◌, refl, true, false, String, none, some, [], ◌∷◌, ◌++◌, negsuc, arith,
}
use veidemann_browser_contro.Errors.{Code, eof, status_error, canceled_code, new_fetch_error}
use veidemann_browser_contro.Requests.Samples.{registry, page, log_of, first, redirected, image}
use veidemann_browser_contro.Config.{CrawlConfig}
use veidemann_browser_contro.Session.{Session, new_default_session, notify_session}
use veidemann_browser_contro.Server.World.{
  NewRequest, Completed, new, notify, completed, DoReply, new_reply, Services, Conn, next,
  session_at, request_at, put_request,
}
use veidemann_browser_contro.Server.Stream.{handle, message, receive_error, do_stream}
use veidemann_browser_contro.Server.Stream.Completion.{completed_as, handle-completed_as}
use veidemann_browser_contro.Requests.{Request}
use veidemann_browser_contro.Server.Stream.Replies.{Permitted, handle-OneReply}

abbrev no_status : Code → String → String
no_status c s = s

-- Everything is sent and allowed.
abbrev services : Services
services = record {
  send = λ sent r. none;
  is_allowed = λ q. some true;
  matching = record { normalize = λ uri. uri; longest_match = λ p. none; match_string = λ p. none };
  session_options = [];
  panic_text = "nil";
  stack = "stack";
}

abbrev crawl_config : CrawlConfig
crawl_config = record {
  collection_ref = record { id = "c" };
  browser_config_ref = record { id = "b" };
  politeness_ref = record { id = "p" };
  create_screenshot = false;
}

abbrev session_one : Session
unfolding new_default_session
session_one = record (new_default_session []) {
  id = 1;
  ctx = some false;
  requests = some registry;
  requested_url = some page;
  crawl_config = some crawl_config;
}

abbrev conn : Conn
conn = record {
  world = record { heap = session_one ∷ []; slots = none ∷ some 0 ∷ [] };
  sess = none;
  req = none;
  sent = [];
  written = [];
}

abbrev connect : NewRequest
connect = record {
  proxy_id = 1;
  method = "CONNECT";
  uri = "a.no:443";
  request_id = "";
  crawl_execution_id = "";
  job_execution_id = "";
  collection_ref = record { id = "" };
}

abbrev reply : DoReply
reply = new_reply (record {
  crawl_execution_id = "e";
  job_execution_id = "j";
  collection_ref = record { id = "c" };
  replacement_script = none;
})

abbrev answered : Conn
answered = record conn { sess = some 0; sent = reply ∷ [] }

answered_lem : handle services no_status 5 (new connect) conn ≡ next answered
unfolding handle session_at session_one
answered_lem = refl

handle-OneReply_example :
    (r : DoReply) × (answered.sent ≡ conn.sent ++ r ∷ []) × Permitted services "a.no:443" r
handle-OneReply_example =
    handle-OneReply services no_status 5 connect conn answered (λ e. omega arith) answered_lem

abbrev completion : Completed
completion = record { crawl_log = some (log_of "w1" 10); cached = false }

no_session_lem :
    do_stream services no_status conn (message 5 (λ w. w) notify ∷ receive_error eof ∷ [])
    ≡ (some (some (status_error canceled_code "Session is cancelled")), conn)
unfolding do_stream handle
no_session_lem = refl

no_session_panics :
    do_stream services no_status conn
      (message 5 (λ w. w) (completed completion) ∷ receive_error eof ∷ [])
    ≡ (some (some (new_fetch_error (negsuc 4) "Runtime error" (append_text "nil" "\nstack"))), conn)
unfolding do_stream handle
no_session_panics = refl

-- The request at the address (0, 0) is the first of the session's registry.
abbrev with_request : Conn
with_request = record conn { sess = some 0; req = some (0, 0) }

abbrev completed_first : Request
completed_first = record first { crawl_log = some (log_of "w1" 10); got_complete = true }

abbrev after_completion : Conn
after_completion = record with_request {
  world = record conn.world {
    heap =
        record session_one {
          requests =
              some (record registry { requests = completed_first ∷ redirected ∷ image ∷ [] });
        }
        ∷ [];
  };
}

after_completion_lem :
    handle services no_status 5 (completed completion) with_request ≡ next after_completion
unfolding handle session_at request_at put_request session_one notify_session
after_completion_lem = refl

first_there : request_at with_request.world (0, 0) ≡ some first
unfolding request_at session_one
first_there = refl

handle-completed_as_example :
    request_at after_completion.world (0, 0)
    ≡ some (completed_as services (0, 0) (log_of "w1" 10) false first)
handle-completed_as_example =
    handle-completed_as services no_status 5 completion with_request after_completion (0, 0)
      (log_of "w1" 10) first refl refl first_there after_completion_lem
