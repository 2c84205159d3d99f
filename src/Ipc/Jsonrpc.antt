-- ===== src/Ipc/Jsonrpc.antt =====
-- internal/ipc/jsonrpc/codec.go. Package encoding/json is the parameter `Json`, with what bytes and
-- fmt do for the codec; a value of type `any` is of the parameter `V`. A buffer is the list of its
-- bytes.
use haro.Prelude.{
  drop, ℕ, ◌*◌, String, Bool, true, false, Option, none, some, [], ◌∷◌, ◌++◌, not, ◌&&◌, ◌||◌, ◌==◌,
  string_eq, bytes_eq, nat_beq, if◌then◌else◌, length, all, is_empty_list, leb, ltb, Bytes, codes,
}
use haro.Workflow.Types.{ℤ}

abbrev pub max_message_size : ℕ
max_message_size = 10 * 1024 * 1024

abbrev pub newline : ℕ
newline = 10

-- The id of a message: `ID` of the code, for which `null` is a flag, as a sum.
pub data MessageId : Type 0 where
  null_id : MessageId
  string_id : String → MessageId
  number_id : Bytes → MessageId

pub record RpcError (V : Type 0) : Type 0 where
  pub code : ℤ
  pub message : String
  pub data_ : Option V

-- The fields of rawMessage; a missing one is empty.
pub record RawMessage : Type 0 where
  pub jsonrpc : String
  pub id : Bytes
  pub method : String
  pub params : Bytes
  pub result : Bytes
  pub error : Bytes

pub record Message (V : Type 0) : Type 0 where
  pub jsonrpc : String
  pub id : Option MessageId
  pub method : String
  pub params : Bytes
  pub result : Bytes
  pub error : Option (RpcError V)

-- The struct `wire` of an encoder; a field that it does not have, or that is omitted, is `none`.
pub record Wire : Type 0 where
  pub jsonrpc : String
  pub id : Option Bytes
  pub method : Option String
  pub params : Option Bytes
  pub result : Option Bytes
  pub error : Option Bytes

-- The second Decode of a decoder: io.EOF, one more value, or another error.
pub data Trailing : Type 0 where
  at_end another malformed : Trailing

pub record Json (V : Type 0) : Type 0 where
  pub marshal : V → Option Bytes
  pub marshal_string : String → Option Bytes
  pub marshal_error : RpcError V → Option Bytes
  pub marshal_wire : Wire → Option Bytes
  pub decode_raw : Bytes → Option (RawMessage × Trailing)
  pub unmarshal_string : Bytes → Option String
  pub is_number : Bytes → Bool
  pub decode_error : Bytes → Option (RpcError V)
  pub unmarshal_error : Bytes → Option (RpcError V)
  pub trim_space : Bytes → Bytes
  pub format_int : ℤ → Bytes

pub data CodecError : Type 0 where
  marshal_failed write_failed message_too_large : CodecError
  end_of_file read_failed empty_message decode_json trailing_value trailing_json : CodecError
  decode_id_string invalid_id decode_error_object : CodecError

-- The argument `id any` of an encoder. Any integer of Go and json.Number have cases of their own.
pub data IdValue (V : Type 0) : Type 0 where
  nil_value : IdValue V
  string_value : String → IdValue V
  number_value : Bytes → IdValue V
  int_value : ℤ → IdValue V
  other_value : V → IdValue V

-- A destination, with what has reached it, and whether it still takes anything.
pub record Writer : Type 0 where
  pub written : Bytes
  pub is_open : Bool

-- A *bufio.Reader, or another source. The latter is wrapped in a new bufio.Reader by each call;
-- `ahead` says how many bytes of what is left after the call that one has already fetched, given
-- what was left before the call and what is left after it. They are lost with it.
pub data Kind : Type 0 where
  buffered : Kind
  plain : (ahead : Bytes → Bytes → ℕ) → Kind

abbrev pub left_over : Kind → Bytes → Bytes → Bytes
left_over buffered before after = after
left_over (plain ahead) before after = drop (ahead before after) after

-- A source: what is left of it, and whether it ends in an error in place of io.EOF.
pub record Reader : Type 0 where
  pub rest : Bytes
  pub is_broken : Bool
  pub kind : Kind

pub data Answer (A : Type 0) : Type 0 where
  done : A → Answer A
  failed : CodecError → Answer A

abbrev pub or_fail : {A : Type 0} → CodecError → Option A → Answer A
or_fail e none = failed e
or_fail e (some a) = done a

infixl 5 ◌>>=◌
abbrev pub ◌>>=◌ : {A B : Type 0} → Answer A → (A → Answer B) → Answer B
done a >>= next = next a
failed e >>= next = failed e

-- w.Write(data)
abbrev pub write : Bytes → Writer → Answer Unit × Writer
write data_ w =
    if w.is_open
    then (done tt, record w { written = w.written ++ data_ })
    else (failed write_failed, w)

abbrev pub write_answer : Answer Bytes → Writer → Answer Unit × Writer
write_answer (failed e) w = (failed e, w)
write_answer (done data_) w =
    if ltb max_message_size (length data_)
    then (failed message_too_large, w)
    else write (data_ ++ newline ∷ []) w

-- data[0] == b
abbrev pub starts_with : ℕ → Bytes → Bool
starts_with b [] = false
starts_with b (c ∷ s) = nat_beq c b

abbrev pub is_digit_or_sign : ℕ → Bool
is_digit_or_sign b =
    (leb b'0' b && leb b b'9')
    || nat_beq b b'-'
    || nat_beq b b'+'
    || nat_beq b b'.'
    || nat_beq b b'e'
    || nat_beq b b'E'

-- What the loop over the bytes of a line finds.
pub data Line : Type 0 where
  line : (buffer rest : Bytes) → Line
  oversized : (rest : Bytes) → Line
  at_eof failed_read : Line

-- The loop that skips the rest of an oversized line.
unfoldable pub skip_line : Bytes → Bytes
skip_line [] = []
skip_line (b ∷ rest) = if nat_beq b newline then rest else skip_line rest

-- What the loop does at the end of the source.
abbrev pub end_line : Bool → Bool → Bytes → Line
end_line true read_any buffer = failed_read
end_line false false buffer = at_eof
end_line false true buffer = line buffer []

unfoldable pub read_line : Bool → Bool → Bytes → Bytes → Line
unfolding skip_line
read_line is_broken read_any buffer [] = end_line is_broken read_any buffer
read_line is_broken read_any buffer (b ∷ rest) =
    let next = read_line is_broken true (buffer ++ b ∷ []) rest in
    if nat_beq b newline
    then line buffer rest
    else if leb max_message_size (length buffer)
    then oversized (skip_line rest)
    else next

module _ {V : Type 0} (json : Json V) where
  unfoldable pub encode_and_write : Wire → Writer → Answer Unit × Writer
  encode_and_write v w = write_answer (or_fail marshal_failed (json.marshal_wire v)) w

  unfoldable pub marshal_id : IdValue V → Answer Bytes
  marshal_id nil_value = done (codes "null")
  marshal_id (string_value s) = or_fail marshal_failed (json.marshal_string s)
  marshal_id (number_value s) = done (if is_empty_list s then codes "0" else s)
  marshal_id (int_value n) = done (json.format_int n)
  marshal_id (other_value v) = or_fail marshal_failed (json.marshal v)

  abbrev pub marshal_params : Option V → Answer (Option Bytes)
  marshal_params none = done none
  marshal_params (some v) = or_fail marshal_failed (json.marshal v) >>= λ b. done (some b)

  abbrev pub marshal_result : Option V → Answer Bytes
  marshal_result none = done (codes "null")
  marshal_result (some v) = or_fail marshal_failed (json.marshal v)

  abbrev pub send : Answer Wire → Writer → Answer Unit × Writer
  send (failed e) w = (failed e, w)
  send (done v) w = encode_and_write v w

  abbrev pub bare_wire : Wire
  bare_wire = record {
    jsonrpc = "2.0";
    id = none;
    method = none;
    params = none;
    result = none;
    error = none;
  }

  unfoldable pub encode_request : IdValue V → String → Option V → Writer → Answer Unit × Writer
  unfolding marshal_id encode_and_write
  encode_request id method params = send (
      marshal_params params >>= λ raw. marshal_id id >>= λ raw_id.
      done (record bare_wire { id = some raw_id; method = some method; params = raw }))

  unfoldable pub encode_response : IdValue V → Option V → Writer → Answer Unit × Writer
  unfolding marshal_id encode_and_write
  encode_response id result = send (
      marshal_result result >>= λ raw.
      marshal_id id >>= λ raw_id. done (record bare_wire { id = some raw_id; result = some raw }))

  unfoldable pub encode_error : IdValue V → RpcError V → Writer → Answer Unit × Writer
  unfolding marshal_id encode_and_write
  encode_error id e = send (
      marshal_id id >>= λ raw_id. or_fail marshal_failed (json.marshal_error e) >>= λ raw.
      done (record bare_wire { id = some raw_id; error = some raw }))

  unfoldable pub encode_notification : String → Option V → Writer → Answer Unit × Writer
  unfolding encode_and_write
  encode_notification method params = send (
      marshal_params params >>= λ raw.
      done (record bare_wire { method = some method; params = raw }))

  unfoldable pub is_json_number : Bytes → Bool
  is_json_number raw = not (is_empty_list raw) && all is_digit_or_sign raw && json.is_number raw

  -- The id of a message whose field is not empty.
  unfoldable pub decode_id : Bytes → Answer MessageId
  unfolding is_json_number
  decode_id raw =
      let trim = json.trim_space raw in
      if trim == codes "null"
      then done null_id
      else if starts_with b'"' trim
      then (or_fail decode_id_string (json.unmarshal_string trim) >>= λ s. done (string_id s))
      else if is_json_number trim
      then done (number_id trim)
      else failed invalid_id

  unfoldable pub optional_id : Bytes → Answer (Option MessageId)
  unfolding decode_id
  optional_id raw =
      if is_empty_list raw then done none else (decode_id raw >>= λ id. done (some id))

  abbrev pub decode_with_fallback : Bytes → Option (RpcError V) → Answer (RpcError V)
  decode_with_fallback raw (some e) = done e
  decode_with_fallback raw none = or_fail decode_error_object (json.unmarshal_error raw)

  unfoldable pub optional_error : Bytes → Answer (Option (RpcError V))
  optional_error raw =
      if is_empty_list raw
      then done none
      else (decode_with_fallback raw (json.decode_error raw) >>= λ e. done (some e))

  abbrev pub check_trailing : RawMessage × Trailing → Answer RawMessage
  check_trailing (raw, at_end) = done raw
  check_trailing (raw, another) = failed trailing_value
  check_trailing (raw, malformed) = failed trailing_json

  -- What becomes of a line without its spaces.
  unfoldable pub decode_data : Bytes → Answer (Message V)
  unfolding optional_id optional_error
  decode_data data_ = or_fail decode_json (json.decode_raw data_) >>= check_trailing >>= λ raw.
      optional_id raw.id >>= λ id. optional_error raw.error >>= λ e. done (record {
        jsonrpc = raw.jsonrpc;
        id = id;
        method = raw.method;
        params = raw.params;
        result = raw.result;
        error = e;
      })

  -- A line was read, so `readAny` is true, and an empty one is refused at once.
  unfoldable pub decode_line : Bytes → Answer (Message V)
  unfolding decode_data
  decode_line buffer =
      let data_ = json.trim_space buffer in
      if is_empty_list data_
      then failed empty_message
      else if ltb max_message_size (length data_)
      then failed message_too_large
      else decode_data data_

  abbrev pub conclude : Reader → Line → Answer (Message V) × Reader
  conclude r (line buffer rest) =
      (decode_line buffer, record r { rest = left_over r.kind r.rest rest })
  conclude r (oversized rest) =
      (failed message_too_large, record r { rest = left_over r.kind r.rest rest })
  conclude r at_eof = (failed end_of_file, record r { rest = [] })
  conclude r failed_read = (failed read_failed, record r { rest = [] })

  unfoldable pub decode_message : Reader → Answer (Message V) × Reader
  unfolding read_line decode_line
  decode_message r = conclude r (read_line r.is_broken false [] r.rest)
