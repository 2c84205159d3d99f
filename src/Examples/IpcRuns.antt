-- ===== src/Examples/IpcRuns.antt =====
-- Two messages over a codec whose texts are single letters, and whose space is trimmed nowhere.
use haro.Prelude.{
  true, false, [], ◌∷◌, ◌++◌, none, some, ◌≡◌, refl, arith, nat_eq, string_eq, length, leb, codes,
  if◌then◌else◌,
}
use haro.Ipc.Jsonrpc.{
  newline, max_message_size, Json, buffered, RawMessage, at_end, Wire, done, failed,
  message_too_large, string_value, decode_line, decode_message, encode_request, marshal_id, Writer,
  encode_and_write,
}
use haro.Ipc.Frames.{
  Framed, write_all, read_all, decode_all, decode_message-line, decode_message-encode_and_write,
}

abbrev raw : RawMessage
raw = record { jsonrpc = "2.0"; id = []; method = "ping"; params = []; result = []; error = [] }

abbrev json : Json Unit
json = record {
  marshal = λ v. some (codes "1");
  marshal_string = λ s. some (codes "s");
  marshal_error = λ e. some (codes "e");
  marshal_wire = λ v. some (elim v.id [ none ↦ codes "n" | some id ↦ id ]);
  decode_raw = λ s. some (raw, at_end);
  unmarshal_string = λ s. none;
  is_number = λ s. false;
  decode_error = λ s. none;
  unmarshal_error = λ s. none;
  trim_space = λ s. s;
  format_int = λ n. codes "7";
}

abbrev wire : Wire
wire = record {
  jsonrpc = "2.0";
  id = none;
  method = some "ping";
  params = none;
  result = none;
  error = none;
}

abbrev new_writer : Writer
new_writer = record { written = []; is_open = true }

request_written :
    encode_request json (string_value "a") "ping" none new_writer
    ≡ (done tt, record { written = codes "s\n"; is_open = true })
unfolding encode_request marshal_id encode_and_write
request_written = refl

decode_message-line_example :
    decode_message json
      (record { rest = codes "n" ++ newline ∷ codes "s\n"; is_broken = false; kind = buffered })
    ≡ (
      (if leb (length (codes "n")) max_message_size
          then decode_line json (codes "n")
          else failed message_too_large),
      record { rest = codes "s\n"; is_broken = false; kind = buffered },
    )
decode_message-line_example = decode_message-line json false buffered (codes "n") (codes "s\n") refl

both-Framed :
    Framed json (wire ∷ record wire { id = some (codes "s") } ∷ []) (codes "n" ∷ codes "s" ∷ [])
both-Framed = (refl, refl, omega arith, (refl, refl, omega arith, tt))

decode_message-encode_and_write_example :
    read_all json 3 (record {
      rest =
          (write_all json (wire ∷ record wire { id = some (codes "s") } ∷ []) new_writer).written;
      is_broken = false;
      kind = buffered;
    })
    ≡ decode_all json (codes "n" ∷ codes "s" ∷ [])
decode_message-encode_and_write_example =
    decode_message-encode_and_write json (wire ∷ record wire { id = some (codes "s") } ∷ [])
      (codes "n" ∷ codes "s" ∷ []) both-Framed
