-- ===== src/Session/Events/Paused.antt =====
-- What session/eventlisteners.go does with a request that the browser has paused.
use mathlib.Core.List.{append-nil}
use veidemann_browser_contro.Prelude.{
  ℕ, ◌≡◌, ◌≢◌, refl, sym, ap, ◌∙◌, inl, inr, true, false, Bool-cases, String, Option, none, some,
  List, [], ◌∷◌, ◌++◌, map, length, get_elem?, lookup, str_eq, str_eq_ne, if◌then◌else◌, eq_iff,
  arith,
}
use veidemann_browser_contro.Errors.{GoError}
use veidemann_browser_contro.Requests.{Request, RequestRegistry, add_request, get_by_request_id}
use veidemann_browser_contro.Requests.Lookup.{IsFirst, first, absent, get_by_request_id-IsFirst}
use veidemann_browser_contro.Session.{Session}
use veidemann_browser_contro.Session.Events.{
  Header, nil_header, header_text, Headers, interface_to_string, header_entry, delete,
  without_reqid, continue_headers, reqid_header, PausedRequest, is_request_stage, request_of,
  Command, continue_request, request_paused, listen, or_nil, is_nil, register, run_continue,
  override_of,
}

-- All values with a name.
abbrev pub values {ℓ} : {A : Type ℓ} → String → List (String × A) → List A
values name [] = []
values name (entry ∷ rest) =
    let more = values name rest in if str_eq entry.0 name then entry.1 ∷ more else more

values-append :
    {A : Type 0} (name : String) (xs ys : List (String × A))
    → values name (xs ++ ys) ≡ values name xs ++ values name ys
values-append name [] ys = refl
values-append name (x ∷ xs) ys = elim (Bool-cases (str_eq x.0 name)) [
  | inl e ↦ rw e (ap (λ t. x.1 ∷ t) (values-append name xs ys))
  | inr e ↦ rw e (values-append name xs ys)
]

values-entries :
    (name : String) (hs : Headers)
    → values name (map header_entry hs) ≡ map interface_to_string (values name hs)
unfolding header_entry
values-entries name [] = refl
values-entries name ((k, v) ∷ hs) = elim (Bool-cases (str_eq k name)) [
  | inl e ↦ rw e (ap (λ t. interface_to_string v ∷ t) (values-entries name hs))
  | inr e ↦ rw e (values-entries name hs)
]

values-delete_self : (name : String) (hs : Headers) → values name (delete name hs) ≡ []
unfolding delete
values-delete_self name [] = refl
values-delete_self name (h ∷ hs) = elim (Bool-cases (str_eq h.0 name)) [
  | inl e ↦ rw e (values-delete_self name hs)
  | inr e ↦ rw (e, e) (values-delete_self name hs)
]

values-delete_ne :
    (name key : String) (hs : Headers) → name ≢ key → values name (delete key hs) ≡ values name hs
unfolding delete
values-delete_ne name key [] h = refl
values-delete_ne name key (x ∷ hs) h = elim (Bool-cases (str_eq x.0 key)) [
  | inl e ↦
      let other : str_eq x.0 name ≡ false =
        ground (arith, h, e, eq_iff x.0 key, eq_iff x.0 name, eq_iff key name) in
      rw (e, other) (values-delete_ne name key hs h)
  | inr e ↦ elim (Bool-cases (str_eq x.0 name)) [
    | inl f ↦ rw (e, f) (ap (λ t. x.1 ∷ t) (values-delete_ne name key hs h))
    | inr f ↦ rw (e, f) (values-delete_ne name key hs h)
  ]
]

values_of_lookup : (name : String) (hs : Headers) → lookup name hs ≡ none → values name hs ≡ []
unfolding lookup
values_of_lookup name [] e = refl
values_of_lookup name (x ∷ hs) e = elim (Bool-cases (str_eq x.0 name)) [
  | inl f ↦ ground (arith, e, f)
  | inr f ↦ rw f (values_of_lookup name hs (ground (arith, e, f)))
]

without_reqid-values :
    (hs : Headers)
    → lookup reqid_header hs ≢ some nil_header
    → values reqid_header (without_reqid hs) ≡ []
unfolding without_reqid or_nil is_nil
without_reqid-values hs h = go (lookup reqid_header hs) refl
  where
    go :
        (o : Option Header)
        → lookup reqid_header hs ≡ o
        → values reqid_header (if is_nil (or_nil o) then hs else delete reqid_header hs) ≡ []
    go none e = values_of_lookup reqid_header hs e
    go (some nil_header) e = absurd (h e)
    go (some (header_text s)) e = values-delete_self reqid_header hs

without_reqid-ne :
    (name : String) (hs : Headers)
    → name ≢ reqid_header
    → values name (without_reqid hs) ≡ values name hs
unfolding without_reqid
without_reqid-ne name hs h = elim (Bool-cases (is_nil (or_nil (lookup reqid_header hs)))) [
  | inl e ↦ rw e refl
  | inr e ↦ rw e (values-delete_ne name reqid_header hs h)
]

continue_headers-reqid :
    (ev : PausedRequest)
    → lookup reqid_header ev.headers ≢ some nil_header
    → values reqid_header (continue_headers ev) ≡ ev.request_id ∷ []
unfolding continue_headers
continue_headers-reqid ev h =
    values-append reqid_header (map header_entry (without_reqid ev.headers)) _
    ∙ ap (λ t. t ++ ev.request_id ∷ [])
        (values-entries reqid_header (without_reqid ev.headers)
          ∙ ap (map interface_to_string) (without_reqid-values ev.headers h))

continue_headers-ne :
    (ev : PausedRequest) (name : String)
    → name ≢ reqid_header
    → values name (continue_headers ev) ≡ map interface_to_string (values name ev.headers)
unfolding continue_headers
continue_headers-ne ev name h =
    let last : values name ((reqid_header, ev.request_id) ∷ []) ≡ [] =
      rw (str_eq_ne reqid_header name (λ e. h (sym e))) refl in
    values-append name (map header_entry (without_reqid ev.headers)) _
    ∙ ap (λ t. values name (map header_entry (without_reqid ev.headers)) ++ t) last
    ∙ append-nil (values name (map header_entry (without_reqid ev.headers)))
    ∙ values-entries name (without_reqid ev.headers)
    ∙ ap (map interface_to_string) (without_reqid-ne name ev.headers h)

-- The request that GetByRequestId finds.
abbrev pub Finds : RequestRegistry → String → Type 0
Finds r id =
    (i : ℕ) × (req : Request) × (get_by_request_id r id ≡ some i)
    × (get_elem? r.requests i ≡ some req)
    × (req.request_id ≡ id)

get_elem?-append_last :
    {A : Type 0} (xs : List A) (a : A) → get_elem? (xs ++ a ∷ []) (length xs) ≡ some a
get_elem?-append_last [] a = refl
get_elem?-append_last (x ∷ xs) a = get_elem?-append_last xs a

add_request-Finds : (r : RequestRegistry) (req : Request) → Finds (add_request r req) req.request_id
unfolding add_request
add_request-Finds r req =
    go (get_by_request_id (add_request r req) req.request_id) refl
      (get_by_request_id-IsFirst (add_request r req) req.request_id)
  where
    go :
        (o : Option ℕ)
        → get_by_request_id (add_request r req) req.request_id ≡ o
        → IsFirst (λ q. q.request_id ≡ req.request_id) (add_request r req).requests o
        → Finds (add_request r req) req.request_id
    go (some i) e (first k (q, at, same) before) = (i, q, e, at, same)
    go none e (absent nowhere) =
        absurd (nowhere (length r.requests) (req, get_elem?-append_last r.requests req, refl))

-- A request that the browser pauses before sending it is registered before it is continued, so that
-- the server finds a request with its id from then on: exactly one command goes out, and by then the
-- registry holds the new request behind those that were there. The command continues the request
-- with its own URL and method; it has exactly one header veidemann_reqid, whose value is the id,
-- if the browser did not give this header without a value, and under every other name it has the
-- values that the browser gave.
pub paused-Registered :
    (run : Command → Option GoError) (now : ℕ) (normalize : String → String) (ev : PausedRequest)
    (s : Session) (r : RequestRegistry) (name : String)
    → is_request_stage ev ≡ true
    → s.requests ≡ some r
    → lookup reqid_header ev.headers ≢ some nil_header
    → name ≢ reqid_header
    → (r' : RequestRegistry) × (headers : List (String × String)) × ((listen run now normalize
          (request_paused ev)
          s).0
        ≡ (
          continue_request ev.request_id
              (some (record { url = ev.url; method = ev.method; headers = headers })),
          some r',
        )
          ∷ [])
      × (r'.requests ≡ r.requests ++ request_of normalize ev ∷ [])
      × Finds r' ev.request_id
      × (values reqid_header headers ≡ ev.request_id ∷ [])
      × (values name headers ≡ map interface_to_string (values name ev.headers))
unfolding listen register run_continue override_of request_of add_request
paused-Registered run now normalize ev s r name stage q given other = (
  add_request r (request_of normalize ev),
  continue_headers ev,
  rw (stage, q) refl,
  refl,
  add_request-Finds r (request_of normalize ev),
  continue_headers-reqid ev given,
  continue_headers-ne ev name other,
)
