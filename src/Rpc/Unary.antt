-- ===== src/Rpc/Unary.antt =====
-- rpc/handler.go: a unary call of the gRPC protocol, from the frame of the request to the frame of the
-- response, and the interceptors around the handler. The pools of buffers are not modelled.
pub mod Chain
pub mod Answered
use hyperway.Prelude.{
  ℕ, ◌≡◌, ◌/◌, ◌%◌, ◌^◌, Bool, true, false, not, ◌&&◌, ◌||◌, Option, none, some, List, [], ◌∷◌,
  ◌++◌, ◌==◌, ltb, length, if◌then◌else◌,
}
use mathlib.Core.List.{reverse}
use hyperway.Prelude.Int.{ℤ, pos, ltb_ℤ}
use hyperway.Prelude.Str.{Str, str, str_eq}
use hyperway.Http.{Header, Writer, get, set, set_header, write_header, write}
use hyperway.Gateway.Frames.{
  Reader, Result, ok, err, read_full, put_uint32, uint32, frame_header_size,
}
use hyperway.Rpc.Codes.{code_internal, code_invalid_argument, code_unimplemented}
use hyperway.Rpc.Errors.{Error, new_error, GoError, rpc, other, Outcome, done, failed, text}
use hyperway.Rpc.Protocol.{Incoming, detect_protocol, parse_grpc_timeout, write_grpc_error}

-- A handler of inputs `I` and outputs `O`, over the state `S` of the program; an interceptor is given the
-- method's name, the input and the handler behind it.
abbrev pub Handler : Type 0 → Type 0 → Type 0 → Type 0
Handler S I O = I → S → Outcome O × S

abbrev pub Interceptor : Type 0 → Type 0 → Type 0 → Type 0
Interceptor S I O = Str → I → Handler S I O → S → Outcome O × S

module _ {S I O : Type 0} (method : Str) where
  -- the loop of `callHandler`, over the interceptors from the last to the first
  unfoldable pub wrap : Handler S I O → List (Interceptor S I O) → Handler S I O
  wrap handler [] = handler
  wrap handler (interceptor ∷ more) = wrap (λ req s. interceptor method req handler s) more

  unfoldable pub call_handler : List (Interceptor S I O) → Handler S I O → Handler S I O
  unfolding wrap
  call_handler interceptors base = wrap base (reverse interceptors)

-- What a method and the libraries give.
pub record Method (S : Type 0) : Type 1 where
  pub I : Type 0
  pub O : Type 0
  pub name : Str
  pub interceptors : List (Interceptor S I O)
  -- the handler, under the timeout that the request asks for
  pub handler : Option ℤ → Handler S I O
  pub validate : I → Option GoError
  -- the text of the errors of the JSON and protobuf libraries is that of `failed`
  pub decode_json : Str → Outcome I
  -- the codec of the input, which is not nil, and the conversion of its messages
  pub Msg : Type 0
  pub unmarshal_proto : Str → Outcome Msg
  pub to_input : Msg → Outcome I
  pub encode_json : O → Outcome Str
  pub encode_proto : O → Outcome Str
  -- the compressor that is registered for gzip, and the size from which a response is compressed
  pub compress : Str → Option Str
  pub decompress : Option (Str → Outcome Str)
  pub should_compress : Str → Bool

module _ {S : Type 0} (m : Method S) where
  invalid : Str → Outcome m.I → Outcome m.I
  invalid said (done i) = done i
  invalid said (failed e) = failed (rpc (new_error code_invalid_argument (said ++ text e)))

  converted : Outcome m.Msg → Outcome m.I
  unfolding invalid
  converted (done msg) = invalid (str "failed to convert proto to struct: ") (m.to_input msg)
  converted (failed e) =
      failed
        (rpc (new_error code_invalid_argument (str "failed to unmarshal protobuf: " ++ text e)))

  -- `decodeGRPCInput`
  unfoldable pub decode_grpc_input : Bool → Str → Outcome m.I
  unfolding invalid converted
  decode_grpc_input is_json data' =
      if is_json
      then invalid (str "failed to unmarshal JSON: ") (m.decode_json data')
      else converted (m.unmarshal_proto data')

  internal : Str → GoError
  internal message = rpc (new_error code_internal message)

  decompressed : Outcome Str → Outcome Str
  decompressed (done s) = done s
  decompressed (failed e) =
      failed (rpc (new_error code_internal (str "decompression failed: " ++ text e)))

  decompressed_by : Option (Str → Outcome Str) → Str → Outcome Str
  unfolding decompressed
  decompressed_by none message =
      failed (rpc (new_error code_unimplemented (str "gzip compression not available")))
  decompressed_by (some decompress) message = decompressed (decompress message)

  unfoldable message_read : ℕ → Result Str → Outcome Str
  unfolding internal decompressed_by
  message_read flag (err e) = failed (internal (str "failed to read message"))
  message_read flag (ok message) =
      if flag == 1 then decompressed_by m.decompress message else done message

  unfoldable after_header : Result Str × Reader → Outcome Str
  unfolding message_read
  after_header (err e, r) = failed (internal (str "failed to read frame header"))
  after_header (ok [], r) = failed (internal (str "failed to read frame header"))
  after_header (ok (flag ∷ size), r) = message_read flag (read_full (uint32 size) r).0

  -- the message of the body's first frame; what follows it is not read
  unfoldable pub read_message : Reader → Outcome Str
  unfolding after_header
  read_message r = after_header (read_full frame_header_size r)

  positive : Option ℤ → Option ℤ
  positive none = none
  positive (some d) = if ltb_ℤ (pos 0) d then some d else none

  -- the timeout of the header grpc-timeout, if it is one
  unfoldable pub grpc_timeout : Header → Option ℤ
  unfolding positive
  grpc_timeout h = positive (parse_grpc_timeout (get (str "grpc-timeout") h))

  -- the data as it is sent, and whether it is compressed
  compressed_if_smaller : Str → Option Str → Bool × Str
  compressed_if_smaller data' none = (false, data')
  compressed_if_smaller data' (some c) =
      if ltb (length c) (length data') then (true, c) else (false, data')

  unfoldable pub maybe_compressed : Header → Str → Bool × Str
  unfolding compressed_if_smaller
  maybe_compressed h data' =
      if str_eq (get (str "grpc-encoding") h) (str "gzip") && m.should_compress data'
      then compressed_if_smaller data' (m.compress data')
      else (false, data')

  unfoldable pub send_frame : Bool × Str → Writer Str → Writer Str
  send_frame (compressed, data') w =
      let flag : ℕ = if compressed then 1 else 0 in
      let named = if compressed then set_header (str "grpc-encoding") (str "gzip") w else w in
      let sent = write data' (write (flag ∷ put_uint32 (length data')) named) in
      set_header (str "grpc-message") [] (set_header (str "grpc-status") (str "0") sent)

  unfoldable encoded : Incoming → Outcome Str → Writer Str → Outcome (Writer Str) × Writer Str
  encoded r (failed e) w = (failed e, w)
  encoded r (done data') w =
      let sent = send_frame (maybe_compressed r.header data') w in (done sent, sent)

  not_encoded : Str → Outcome Str → Outcome Str
  not_encoded said (done data') = done data'
  not_encoded said (failed e) = failed (other (said ++ text e))

  -- the data of a response, as JSON or as protobuf
  unfoldable pub encode_output : Bool → m.O → Outcome Str
  unfolding not_encoded
  encode_output is_json output =
      if is_json
      then not_encoded (str "failed to marshal struct to JSON: ") (m.encode_json output)
      else not_encoded (str "failed to marshal struct to protobuf: ") (m.encode_proto output)

  -- `encodeGRPCResponse`: an error comes after the head is sent
  unfoldable pub encode_grpc_response :
      Incoming → m.O → Writer Str → Outcome (Writer Str) × Writer Str
  unfolding encoded
  encode_grpc_response r output w =
      let json = (detect_protocol r).wants_json in
      let typed = set_header (str "Trailer") (str "grpc-status, grpc-message") (
        set_header (str "Content-Type")
          (if json then str "application/grpc+json" else str "application/grpc+proto") w) in
      encoded r (encode_output json output) (write_header 200 typed)

  unfoldable finished : Outcome (Writer Str) × Writer Str → Writer Str
  finished (done sent, w) = w
  finished (failed e, w) = write_grpc_error e w

  unfoldable responded : Incoming → Outcome m.O → Writer Str → Writer Str
  unfolding finished
  responded r (failed e) w = write_grpc_error e w
  responded r (done output) w = finished (encode_grpc_response r output w)

  unfoldable validated : Incoming → m.I → Option GoError → Writer Str → S → Writer Str × S
  unfolding responded
  validated r input (some e) w s = (write_grpc_error e w, s)
  validated r input none w s =
      let (output, s') =
        call_handler m.name m.interceptors (m.handler (grpc_timeout r.header)) input s in
      (responded r output w, s')

  unfoldable decoded : Incoming → Outcome m.I → Writer Str → S → Writer Str × S
  unfolding validated
  decoded r (failed e) w s = (write_grpc_error e w, s)
  decoded r (done input) w s = validated r input (m.validate input) w s

  unfoldable received : Incoming → Outcome Str → Writer Str → S → Writer Str × S
  unfolding decoded
  received r (failed e) w s = (write_grpc_error e w, s)
  received r (done message) w s =
      decoded r (decode_grpc_input (detect_protocol r).wants_json message) w s

  -- `handleGRPCRequest`
  unfoldable pub handle_grpc_request : Incoming → Reader → Writer Str → S → Writer Str × S
  unfolding received
  handle_grpc_request r body w s = received r (read_message body) w s
