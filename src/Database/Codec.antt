-- ===== src/Database/Codec.antt =====
-- database/codec.go: how messages become documents of the database and back. encoding/json, protojson,
-- the parsing of a date and the driver's encoding of a value are parameters.
mod Tests
pub mod Order
use veidemann_browser_contro.Prelude.{
  String, Option, none, some, List, [], ◌∷◌, insert, append_text,
}
use veidemann_browser_contro.Errors.{Go, ok, fail, panic, GoError, Code, wrapping, described, ◌>>=◌}

-- What the codec calls; values, messages and the texts of JSON are abstract.
pub record Coding : Type 1 where
  pub Value : Type 0
  pub Message : Type 0
  pub Text : Type 0
  -- v.(string)
  pub string_of : Value → Option String
  -- time.Parse(time.RFC3339Nano, t)
  pub parse_time : String → Option Value
  -- encoding.Encode
  pub encode : Value → Go Value
  -- protojson.Marshal, json.Unmarshal into a map, json.Marshal
  pub proto_marshal : Message → Go Text
  pub json_unmarshal : Text → Go (List (String × Value))
  pub json_marshal : Value → Go Text
  -- protojson.Unmarshal, with the options AllowPartial and DiscardUnknown and without
  pub proto_unmarshal_lenient : Text → Go Message
  pub proto_unmarshal : Text → Go Message

module _ (c : Coding) where
  open c use {
    Value, Message, Text, string_of, parse_time, encode, proto_marshal, json_unmarshal,
    json_marshal, proto_unmarshal_lenient, proto_unmarshal,
  }

  -- What a value of a map becomes: a string that is a date becomes the date.
  unfoldable pub encoded : Value → Go Value
  encoded v = elim (string_of v) [
    | none ↦ encode v
    | some t ↦ elim (parse_time t) [ none ↦ encode v | some time ↦ ok time ]
  ]

  -- The loop over the entries of the map, in the order of the range.
  unfoldable pub encode_entries :
      List (String × Value) → List (String × Value) → Go (List (String × Value))
  unfolding encoded
  encode_entries [] m = ok m
  encode_entries ((k, v) ∷ rest) m = encoded v >>= λ value. encode_entries rest (insert k value m)

  -- encodeProtoMessage; the map is encoded in some order of its entries.
  unfoldable pub encode_proto_message :
      (List (String × Value) → List (String × Value)) → Message → Go (List (String × Value))
  encode_proto_message order msg =
      wrapping "error decoding ConfigObject" (proto_marshal msg) >>= λ b.
      wrapping "error encoding proto message" (json_unmarshal b) >>= λ m. encode_entries (order m) m

  unfoldable pub decode_config_object : Value → Go Message
  decode_config_object e = wrapping "error decoding ConfigObject" (json_marshal e) >>= λ b.
      wrapping "error decoding ConfigObject" (proto_unmarshal_lenient b)

  unfoldable pub decode_crawl_execution_status : (Code → String → String) → Value → Go Message
  decode_crawl_execution_status status_text e =
      described status_text "error decoding CrawlExecutionStatus" (json_marshal e) >>= λ b.
      described status_text "error decoding CrawlExecutionStatus" (proto_unmarshal b)
