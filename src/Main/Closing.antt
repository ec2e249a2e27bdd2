-- ===== src/Main/Closing.antt =====
-- What main.go opens, it closes.
use veidemann_browser_contro.Prelude.{
  ℕ, ◌≡◌, refl, sym, ap, ◌∙◌, ◌⊎◌, inl, inr, Bool, true, false, String, Option, none, some, List,
  [], ◌∷◌, ◌++◌,
}
use mathlib.Core.List.{append-nil, append_assoc}
use veidemann_browser_contro.Errors.{GoError, Code}
use veidemann_browser_contro.Connections.Options.{DialOption}
use veidemann_browser_contro.Database.Session.{DbOptions}
use veidemann_browser_contro.Main.{
  content_writer, frontier, robots_evaluator, log_writer, database, Flags, Service, Event,
  connected, closed, fatal, Ended, with_service, connect_and_run, run_controller, last_events,
  finish, main,
}

abbrev pub opens : Event → List Service
opens (connected s) = s ∷ []
opens _ = []

abbrev pub closes : Event → List Service
closes (closed s) = s ∷ []
closes _ = []

abbrev pub fails : Event → List GoError
fails (fatal e) = e ∷ []
fails _ = []

-- What the events say by one of these, in their order.
abbrev pub gather : {A : Type 0} → (Event → List A) → List Event → List A
gather f [] = []
gather f (e ∷ rest) = f e ++ gather f rest

abbrev pub backwards : {A : Type 0} → List A → List A
backwards [] = []
backwards (x ∷ xs) = backwards xs ++ x ∷ []

abbrev pub errors_of : Option GoError → List GoError
errors_of none = []
errors_of (some e) = e ∷ []

abbrev pub all_services : List Service
all_services = content_writer ∷ frontier ∷ robots_evaluator ∷ log_writer ∷ database ∷ []

gather-append :
    {A : Type 0} (f : Event → List A) (xs ys : List Event)
    → gather f (xs ++ ys) ≡ gather f xs ++ gather f ys
gather-append f [] ys = refl
gather-append f (x ∷ xs) ys =
    ap (λ t. f x ++ t) (gather-append f xs ys)
    ∙ sym (append_assoc (f x) (gather f xs) (gather f ys))

-- What was opened of some services is closed again, in the reverse order; and either all were opened
-- and the result is that of the controller, or there is an error.
record Closes (run : Option GoError) (services : List Service) (r : Ended) : Type 0 where
  reversed : gather closes r.0 ≡ backwards (gather opens r.0)
  in_order : (rest : List Service) × (gather opens r.0 ++ rest ≡ services)
  no_fatal : gather fails r.0 ≡ []
  outcome : ((gather opens r.0 ≡ services) × (r.1 ≡ run)) ⊎ ((e : GoError) × (r.1 ≡ some e))

with_service-Closes :
    (run : Option GoError) (s : Service) (o : Option GoError) (services : List Service) (r : Ended)
    → Closes run services r
    → Closes run (s ∷ services) (with_service s o r)
unfolding with_service
with_service-Closes run s (some e) services r h = record {
  reversed = refl;
  in_order = (s ∷ services, refl);
  no_fatal = refl;
  outcome = inr (e, refl);
}
with_service-Closes run s none services (events, e) h =
    let opened : gather opens (events ++ closed s ∷ []) ≡ gather opens events =
      gather-append opens events (closed s ∷ []) ∙ append-nil (gather opens events) in
    record {
      reversed =
          gather-append closes events (closed s ∷ [])
          ∙ ap (λ t. t ++ s ∷ []) h.reversed
          ∙ ap (λ t. backwards t ++ s ∷ []) (sym opened);
      in_order =
          (h.in_order.0, ap (λ t. s ∷ (t ++ h.in_order.0)) opened ∙ ap (λ t. s ∷ t) h.in_order.1);
      no_fatal = gather-append fails events (closed s ∷ []) ∙ ap (λ t. t ++ []) h.no_fatal;
      outcome = elim h.outcome [
        | inl (all, same) ↦ inl (ap (λ t. s ∷ t) (opened ∙ all), same)
        | inr failed ↦ inr failed
      ];
    }

last_opens : (tracing : Bool) (e : Option GoError) → gather opens (last_events tracing e) ≡ []
unfolding last_events
last_opens true none = refl
last_opens true (some e) = refl
last_opens false none = refl
last_opens false (some e) = refl

last_closes : (tracing : Bool) (e : Option GoError) → gather closes (last_events tracing e) ≡ []
unfolding last_events
last_closes true none = refl
last_closes true (some e) = refl
last_closes false none = refl
last_closes false (some e) = refl

last_fails :
    (tracing : Bool) (e : Option GoError) → gather fails (last_events tracing e) ≡ errors_of e
unfolding last_events
last_fails true none = refl
last_fails true (some e) = refl
last_fails false none = refl
last_fails false (some e) = refl

module _ {C : Type 0} (status_text : Code → String → String) (duration_text : ℕ → String)
    (dial : ℕ → String → List DialOption → GoError ⊎ C) (db_connect : DbOptions → Option GoError)
    (run : Option GoError) (tracing : Bool) where
  connect_and_run-Closes :
      (f : Flags)
      → Closes run all_services
          (connect_and_run status_text duration_text dial db_connect run tracing f)
  unfolding connect_and_run run_controller
  connect_and_run-Closes f = with_service-Closes run content_writer _ _ _ (
      with_service-Closes run frontier _ _ _ (
        with_service-Closes run robots_evaluator _ _ _ (
          with_service-Closes run log_writer _ _ _ (
            with_service-Closes run database _ [] _ (record {
              reversed = refl;
              in_order = ([], refl);
              no_fatal = refl;
              outcome = inl (refl, refl);
            })))))

  -- If no help is asked for, then however connecting to the services, the controller and the tracer
  -- go: the services are opened in their order, up to the first that cannot be connected, and every
  -- one that was opened is closed before the process ends, in the reverse order. Either all were opened
  -- and the process ends with the error of the controller, if it had one, or it ends with an error.
  pub main-Closes :
      (f : Flags)
      → f.help ≡ false
      → let events = main status_text duration_text dial db_connect run tracing f in
        (gather closes events ≡ backwards (gather opens events))
        × ((rest : List Service) × (gather opens events ++ rest ≡ all_services))
        × (((gather opens events ≡ all_services) × (gather fails events ≡ errors_of run))
            ⊎ ((e : GoError) × (gather fails events ≡ e ∷ [])))
  unfolding main finish
  main-Closes f no_help =
      let (events, e) = connect_and_run status_text duration_text dial db_connect run tracing f in
      let h = connect_and_run-Closes f in
      let opened : gather opens (events ++ last_events tracing e) ≡ gather opens events =
        gather-append opens events (last_events tracing e)
        ∙ ap (λ t. gather opens events ++ t) (last_opens tracing e)
        ∙ append-nil (gather opens events) in
      let closed_again : gather closes (events ++ last_events tracing e) ≡ gather closes events =
        gather-append closes events (last_events tracing e)
        ∙ ap (λ t. gather closes events ++ t) (last_closes tracing e)
        ∙ append-nil (gather closes events) in
      let failed : gather fails (events ++ last_events tracing e) ≡ errors_of e =
        gather-append fails events (last_events tracing e)
        ∙ ap (λ t. t ++ gather fails (last_events tracing e)) h.no_fatal
        ∙ last_fails tracing e in
      rw no_help (
        closed_again ∙ h.reversed ∙ ap backwards (sym opened),
        (h.in_order.0, ap (λ t. t ++ h.in_order.0) opened ∙ h.in_order.1),
        elim h.outcome [
          | inl (all, same) ↦ inl (opened ∙ all, failed ∙ ap errors_of same)
          | inr (x, q) ↦ inr (x, failed ∙ ap errors_of q)
        ],
      )
