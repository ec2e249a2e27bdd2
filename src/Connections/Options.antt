-- ===== src/Connections/Options.antt =====
-- serviceconnections/options.go: what a connection is made from, and how it is made. Dialling, which is
-- gRPC's, and the text of a duration are parameters.
use veidemann_browser_contro.Prelude.{
  ◌⊎◌, inl, inr, ℕ, ◌*◌, String, append_text, List, [], ◌∷◌, ◌++◌, itoa, if◌then◌else◌,
}
use veidemann_browser_contro.Errors.{GoError, Code, wraps_deadline, other, error_text}

-- The options of a dial that the program names.
pub data DialOption : Type 0 where
  insecure block trace_unary trace_stream : DialOption

-- connectionOptions; the time in milliseconds.
pub record ConnectionOptions : Type 0 where
  pub service_name : String
  pub host : String
  pub port : ℕ
  pub connect_timeout : ℕ
  pub dial_options : List DialOption

-- ConnectionOption, in the form of the function that it wraps.
abbrev pub ConnectionOption : Type 0
ConnectionOption = ConnectionOptions → ConnectionOptions

unfoldable pub with_host : String → ConnectionOption
with_host host o = record o { host = host }

unfoldable pub with_port : ℕ → ConnectionOption
with_port port o = record o { port = port }

unfoldable pub with_dial_options : List DialOption → ConnectionOption
with_dial_options options o = record o { dial_options = options }

unfoldable pub with_connect_timeout : ℕ → ConnectionOption
with_connect_timeout time o = record o { connect_timeout = time }

unfoldable pub default_connection_options : String → ConnectionOptions
default_connection_options service_name = record {
  service_name = service_name;
  host = "";
  port = 0;
  connect_timeout = 10 * 1000;
  dial_options = [];
}

apply_all : List ConnectionOption → ConnectionOptions → ConnectionOptions
apply_all [] o = o
apply_all (opt ∷ opts) o = apply_all opts (opt o)

-- The options of NewClientConn.
unfoldable pub connection_options : String → List ConnectionOption → ConnectionOptions
unfolding default_connection_options apply_all
connection_options service_name opts = apply_all opts (default_connection_options service_name)

-- Addr
unfoldable pub addr : ConnectionOptions → String
addr o = append_text o.host (append_text ":" (itoa o.port))

connect_failed : (Code → String → String) → (ℕ → String) → ConnectionOptions → GoError → GoError
unfolding addr
connect_failed status_text duration_text o e = other (
    append_text "failed to connect to " (
      append_text o.service_name (
        append_text " at " (
          append_text (addr o) (
            append_text " within " (
              append_text (duration_text o.connect_timeout)
                (append_text ": " (error_text status_text e))))))))

module _ {C : Type 0} (status_text : Code → String → String) (duration_text : ℕ → String)
    (dial : ℕ → String → List DialOption → GoError ⊎ C) where
  -- connectService: an error or a connection.
  unfoldable pub connect_service : ConnectionOptions → GoError ⊎ C
  unfolding addr connect_failed
  connect_service o =
      elim (dial o.connect_timeout (addr o) (o.dial_options ++ insecure ∷ block ∷ [])) [
        | inr c ↦ inr c
        | inl e ↦
            if wraps_deadline e then inl (connect_failed status_text duration_text o e) else inl e
      ]
