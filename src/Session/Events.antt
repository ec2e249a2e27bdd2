-- ===== src/Session/Events.antt =====
-- session/eventlisteners.go: what a session does on each event of its browser. A goroutine that a
-- listener starts is run to its end; sending a command to the browser, the URL normalization and the
-- time are parameters.
mod Tests
pub mod Paused
use veidemann_browser_contro.Prelude.{
  ℕ, Bool, true, false, ◌&&◌, not, String, append_text, Option, none, some, List, [], ◌∷◌, ◌++◌,
  ◌==◌, map, str_eq, if◌then◌else◌, lookup, get_elem?, set,
}
use veidemann_browser_contro.Errors.{Go, ok, fail, panic, GoError}
use veidemann_browser_contro.Requests.{
  Request, RequestRegistry, add_request, get_by_network_id, notify_load_start, notify_load_finished,
}
use veidemann_browser_contro.Session.{Session, notify_session}

-- A value of network.Headers, as the text that %v prints, or nil.
pub data Header : Type 0 where
  nil_header : Header
  header_text : String → Header

abbrev pub Headers : Type 0
Headers = List (String × Header)

unfoldable pub interface_to_string : Header → String
interface_to_string nil_header = ""
interface_to_string (header_text s) = s

-- fetch.EventRequestPaused with its Request
pub record PausedRequest : Type 0 where
  pub request_id : String
  pub network_id : String
  pub resource_type : String
  pub method : String
  pub url : String
  pub url_fragment : String
  pub headers : Headers
  pub response_status_code : ℕ
  pub response_error_reason : String

-- The actions that prepare a new target.
pub data TargetAction : Type 0 where
  fetch_enable runtime_enable set_auto_attach run_if_waiting_for_debugger : TargetAction
  network_enable page_enable set_cache_disabled set_ignore_certificate_errors set_cookies :
      TargetAction

-- What fetch.ContinueRequest replaces in the request.
pub record Override : Type 0 where
  pub url : String
  pub method : String
  pub headers : List (String × String)

pub data Command : Type 0 where
  handle_dialog : Bool → Command
  connect_target : String → Command
  init_target : String → List TargetAction → Command
  continue_request : String → Option Override → Command

pub data Event : Type 0 where
  -- the network id and the type of the initiator
  request_will_be_sent : String → String → Event
  loading_failed frame_started_loading frame_stopped_loading file_chooser_opened : Event
  -- the type of the dialog
  javascript_dialog_opening : String → Event
  -- the id and the type of the target
  target_created : String → String → Event
  request_paused : PausedRequest → Event

-- The commands that went out, each with the requests that were registered by then, and what is left
-- of the session.
abbrev pub Handled : Type 0
Handled = List (Command × Option RequestRegistry) × Go Session

set_initiator : RequestRegistry → Option ℕ → Option Request → String → RequestRegistry
set_initiator r (some i) (some req) initiator = record r {
  requests = set r.requests i (record req { initiator = initiator });
}
set_initiator r _ _ initiator = r

at_index : RequestRegistry → Option ℕ → Option Request
at_index r none = none
at_index r (some i) = get_elem? r.requests i

-- Runs a method of the registry; a nil registry panics, and so does the method where it gives none.
on_registry :
    (RequestRegistry → Option RequestRegistry) → Session → Option RequestRegistry → Handled
on_registry f s none = ([], panic)
on_registry f s (some r) = elim (f r) [
  | none ↦ ([], panic)
  | some r' ↦ ([], ok (record s { requests = some r' }))
]

sent_initiator : String → String → RequestRegistry → Option RequestRegistry
unfolding set_initiator at_index
sent_initiator id initiator r =
    some (set_initiator r (get_by_network_id r id) (at_index r (get_by_network_id r id)) initiator)

target_actions : String → List TargetAction
target_actions type' =
    if str_eq type' "service_worker"
    then fetch_enable ∷ runtime_enable ∷ set_auto_attach ∷ run_if_waiting_for_debugger
      ∷ set_cache_disabled ∷ set_cookies ∷ []
    else if str_eq type' "worker"
    then runtime_enable ∷ set_auto_attach ∷ run_if_waiting_for_debugger ∷ set_cache_disabled ∷ []
    else fetch_enable ∷ runtime_enable ∷ set_auto_attach ∷ run_if_waiting_for_debugger
      ∷ network_enable ∷ page_enable ∷ set_cache_disabled ∷ set_ignore_certificate_errors
      ∷ set_cookies ∷ []

-- Whether the request is paused before it is sent, and not at its response.
unfoldable pub is_request_stage : PausedRequest → Bool
is_request_stage ev = ev.response_status_code == 0 && str_eq ev.response_error_reason ""

abbrev pub reqid_header : String
reqid_header = "veidemann_reqid"

or_nil : Option Header → Header
or_nil none = nil_header
or_nil (some h) = h

is_nil : Header → Bool
is_nil nil_header = true
is_nil (header_text s) = false

unfoldable pub delete : String → Headers → Headers
delete key [] = []
delete key (entry ∷ rest) =
    let others = delete key rest in if str_eq entry.0 key then others else entry ∷ others

unfoldable pub without_reqid : Headers → Headers
unfolding or_nil is_nil delete
without_reqid hs = if is_nil (or_nil (lookup reqid_header hs)) then hs else delete reqid_header hs

header_entry : String × Header → String × String
unfolding interface_to_string
header_entry (k, v) = (k, interface_to_string v)

unfoldable pub continue_headers : PausedRequest → List (String × String)
unfolding without_reqid header_entry
continue_headers ev =
    map header_entry (without_reqid ev.headers) ++ (reqid_header, ev.request_id) ∷ []

module _ (normalize : String → String) where
  unfoldable pub request_of : PausedRequest → Request
  unfolding interface_to_string or_nil
  request_of ev = record {
    method = ev.method;
    url = normalize (append_text ev.url ev.url_fragment);
    request_id = ev.request_id;
    network_id = ev.network_id;
    crawl_log = none;
    got_new = false;
    got_complete = false;
    initiator = "";
    resource_type = ev.resource_type;
    referrer = interface_to_string (or_nil (lookup "Referer" ev.headers));
    redirect_parent = none;
    from_cache = false;
  }

module _ (run : Command → Option GoError) (now : ℕ) where
  -- Notify, whose error is only logged.
  notified : Session → Go Session
  notified s = elim (notify_session s now) [ ok s' ↦ ok s' | fail e ↦ ok s | panic ↦ panic ]

  run_continue : Session → String → Option Override → Handled
  unfolding notified
  run_continue s id override = (
    (continue_request id override, s.requests) ∷ [],
    elim (run (continue_request id override)) [ none ↦ notified s | some e ↦ ok s ],
  )

  override_of : PausedRequest → Override
  override_of ev = record { url = ev.url; method = ev.method; headers = continue_headers ev }

  register : Session → Option RequestRegistry → Request → PausedRequest → Handled
  unfolding run_continue override_of
  register s none req ev = ([], panic)
  register s (some r) req ev =
      run_continue (record s { requests = some (add_request r req) }) ev.request_id
        (some (override_of ev))

  -- The function that listenFunc returns.
  unfoldable pub listen : (String → String) → Event → Session → Handled
  unfolding on_registry sent_initiator target_actions register
  listen normalize (request_will_be_sent id initiator) s =
      on_registry (sent_initiator id initiator) s s.requests
  listen normalize loading_failed s = ([], ok s)
  listen normalize frame_started_loading s = on_registry notify_load_start s s.requests
  listen normalize frame_stopped_loading s = on_registry notify_load_finished s s.requests
  listen normalize file_chooser_opened s = ([], ok s)
  listen normalize (javascript_dialog_opening type') s =
      ((handle_dialog (str_eq type' "alert"), s.requests) ∷ [], ok s)
  listen normalize (target_created id type') s = (
    (connect_target id, s.requests) ∷ (init_target id (target_actions type'), s.requests) ∷ [],
    notified s,
  )
  listen normalize (request_paused ev) s =
      if is_request_stage ev
      then register s s.requests (request_of normalize ev) ev
      else run_continue s ev.request_id none
