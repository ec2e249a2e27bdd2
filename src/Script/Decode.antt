-- ===== src/Script/Decode.antt =====
-- The part of encoding/json that script/script.go uses, on texts that are parsed already: a
-- RawMessage is the value that its bytes denote.
use Prim.Native.Char.{code}
use veidemann_browser_contro.Prelude.{
  ℕ, ◌+◌, Bool, true, false, ◌&&◌, String, Option, none, some, ◌==◌, leb, if◌then◌else◌,
}
use veidemann_browser_contro.Errors.{Go, ok, fail, other}

mutual
  -- A number is kept as it is written.
  pub data Json : Type 0 where
    null : Json
    boolean : Bool → Json
    number : String → Json
    text : String → Json
    array : Items → Json
    object : Members → Json

  pub data Items : Type 0 where
    nil : Items
    cons : Json → Items → Items

  pub data Members : Type 0 where
    end : Members
    member : String → Json → Members → Members

-- easyjson.RawMessage: nil, a JSON text, or bytes that are none.
pub data Raw : Type 0 where
  nil_raw malformed : Raw
  parsed : Json → Raw

-- ReturnValue; the field Data is none if it has no bytes.
pub record ReturnValue : Type 0 where
  pub wait_for_data : Bool
  pub next : String
  pub value : Option Json

abbrev pub zero_return_value : ReturnValue
zero_return_value = record { wait_for_data = false; next = ""; value = none }

to_lower : ℕ → ℕ
to_lower c = if leb b'A' c && leb c b'Z' then c + 32 else c

-- Field names match with case folding. None of the names here has a letter that folds to another
-- than its ASCII counterpart.
unfoldable pub fold_eq : String → String → Bool
unfolding to_lower
fold_eq String.[] String.[] = true
fold_eq String.[] (String.◌∷◌ d t) = false
fold_eq (String.◌∷◌ c s) String.[] = false
fold_eq (String.◌∷◌ c s) (String.◌∷◌ d t) = to_lower (code c) == to_lower (code d) && fold_eq s t

abbrev mismatch : Go ReturnValue
mismatch = fail (other "json: cannot unmarshal into Go struct field of type ReturnValue")

-- A null leaves a Boolean or a string as it is, but Data, which unmarshals itself, receives it.
set_wait : Json → ReturnValue → Go ReturnValue
set_wait (boolean b) rv = ok (record rv { wait_for_data = b })
set_wait null rv = ok rv
set_wait _ rv = mismatch

set_next : Json → ReturnValue → Go ReturnValue
set_next (text s) rv = ok (record rv { next = s })
set_next null rv = ok rv
set_next _ rv = mismatch

set_field : String → Json → ReturnValue → Go ReturnValue
unfolding fold_eq set_wait set_next
set_field k v rv =
    if fold_eq k "waitForData"
    then set_wait v rv
    else if fold_eq k "next"
    then set_next v rv
    else if fold_eq k "data"
    then ok (record rv { value = some v })
    else ok rv

-- A mismatch of one member is reported in the end, whatever follows.
unfoldable pub decode_members : Members → ReturnValue → Go ReturnValue
unfolding set_field
decode_members end rv = ok rv
decode_members (member k v rest) rv = elim (set_field k v rv) [
  | ok rv' ↦ decode_members rest rv'
  | _ ↦ mismatch
]

decode_json : Json → Go ReturnValue
unfolding decode_members
decode_json null = ok zero_return_value
decode_json (object ms) = decode_members ms zero_return_value
decode_json _ = mismatch

-- json.Unmarshal(res, &rv)
unfoldable pub decode_return_value : Raw → Go ReturnValue
unfolding decode_json
decode_return_value (parsed j) = decode_json j
decode_return_value _ = fail (other "unexpected end of JSON input")
